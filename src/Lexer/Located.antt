-- ===== src/Lexer/Located.antt =====
-- What `Lexer/Total.antt` says of a single token: where it stands in the source.
use y.Prelude.{◌+◌, Text, List, [], ◌∷◌, ◌++◌, ◌≡◌, sym, ◌∙◌, ap, arith, All, All-append, some}
use y.Source.{Pos, zero_pos, span_of}
use y.Source.Advance.{advance_all, advance_all-append, bytes, offset-advance_all}
use y.Lexer.Token.{Token}
use y.Lexer.State.{Library}
use y.Lexer.Tokenize.{LexOutput, tokenize}
use y.Lexer.Moves.{Moves, Moves-refl, Moves-trans}
use y.Lexer.Total.{Tiles, untouched, then_token, TilesAll, tokenize-TilesAll}

-- The source is `before`, then the token's own text, then `after`, and the span's ends are the
-- positions at the two cuts; the byte offsets are the lengths of what lies before them.
pub record Located {D : Type 0} (src : Text) (t : Token D) : Type 0 where
  pub before : Text
  pub own : Text
  pub after : Text
  pub split : src ≡ before ++ (own ++ after)
  pub start : t.span.start ≡ advance_all zero_pos before
  pub end : t.span.end ≡ advance_all zero_pos (before ++ own)
  pub start_offset : t.span.start.offset ≡ bytes before
  pub end_offset : t.span.end.offset ≡ bytes before + bytes own

module _ {D : Type 0} {src : Text} where
  Located-intro :
      {c d : Text} {r s : Pos} (t : Token D)
      → Moves src zero_pos c r
      → Moves c r d s
      → t.span ≡ span_of r s
      → Located src t
  Located-intro {c} {d} {r} {s} t m n e =
      let from : t.span.start ≡ r = ap (λ x. x.start) e in
      let to : t.span.end ≡ s = ap (λ x. x.end) e in
      let start_eq : t.span.start ≡ advance_all zero_pos m.eaten = from ∙ m.moved in
      let end_eq : t.span.end ≡ advance_all t.span.start n.eaten =
        to ∙ n.moved ∙ ap (λ p. advance_all p n.eaten) (sym from) in
      let start_offset_eq : t.span.start.offset ≡ bytes m.eaten =
        ap (λ p. p.offset) start_eq ∙ offset-advance_all zero_pos m.eaten ∙ omega arith in
      record {
        before = m.eaten;
        own = n.eaten;
        after = d;
        split = m.split ∙ ap (λ x. m.eaten ++ x) n.split;
        start = start_eq;
        end =
            end_eq
            ∙ ap (λ p. advance_all p n.eaten) start_eq
            ∙ sym (advance_all-append zero_pos m.eaten n.eaten);
        start_offset = start_offset_eq;
        end_offset =
            ap (λ p. p.offset) end_eq
            ∙ offset-advance_all t.span.start n.eaten
            ∙ ap (λ x. x + bytes n.eaten) start_offset_eq;
      }

  -- Where tiles end, the source has been moved through.
  Tiles-Moves :
      {ts : List (Token D)} {b : Text} {q : Pos}
      → Tiles src zero_pos ts b q
      → Moves src zero_pos b q
  Tiles-Moves untouched = Moves-refl src zero_pos
  Tiles-Moves (then_token t g m n e less k) = Moves-trans (Moves-trans (Tiles-Moves g) m) n

  Tiles-Located :
      {ts : List (Token D)} {b : Text} {q : Pos} → Tiles src zero_pos ts b q → All (Located src) ts
  Tiles-Located untouched = tt
  Tiles-Located (then_token t g m n e less k) =
      All-append (Located src) _ (t ∷ []) (Tiles-Located g)
        (Located-intro t (Moves-trans (Tiles-Moves g) m) n e, tt)

  TilesAll-Located : {ts : List (Token D)} → TilesAll src ts → All (Located src) ts
  TilesAll-Located {ts} h =
      let last_at =
        Located-intro h.last (Moves-trans (Tiles-Moves h.tiles) h.gap) (Moves-refl [] _)
          (λ i. span_of h.last.span.start (h.empty i)) in
      rw h.split
        (All-append (Located src) h.front (h.last ∷ []) (Tiles-Located h.tiles) (last_at, tt))

-- Every token of a run of `tokenize` stands in the source where its span says: the span's ends are
-- the positions behind the text before the token and behind the token, and their offsets count
-- the bytes of these texts.
pub tokenize-Located :
    {D : Type 0} (lib : Library D) (src : Text) (o : LexOutput D)
    → tokenize lib src ≡ some o
    → All (Located src) o.tokens
tokenize-Located lib src o e =
    let (o', e', h) = tokenize-TilesAll lib src in
    let same : o' ≡ o = cc (e, e') in rw (← same) (TilesAll-Located h)

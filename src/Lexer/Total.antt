-- ===== src/Lexer/Total.antt =====
-- `tokenize` always answers with the fuel that it is given, and the tokens tile the source.
use y.Prelude.{
  suc, ◌<◌, Text, List, [], ◌∷◌, ◌++◌, length, ◌≡◌, refl, arith, true, false, Option, none, some,
  if_cases, ap,
}
use y.Prelude.Loop.{loop, After, Returns, Returns-some, loop_rule}
use y.Source.{Pos, span_of, zero_pos}
use y.Lexer.Token.{Token}
use y.Lexer.State.{Library, Lexer, new}
use y.Lexer.Tokenize.{
  LexOutput, output, Stream, is_eof, next_token, push_token, stream_round, tokenize,
}
use y.Lexer.Moves.{Moves, Moves-le, Moves-nil}
use y.Lexer.NextToken.{TokenAt, next_token-Returns}

-- The tokens `ts`, none of them `Eof`, lie one behind the other in the text `a` from position `p`
-- on, each with at least one character, and perhaps with characters of no token before it; `b` is left
-- at `q`.
pub data Tiles {D : Type 0} (a : Text) (p : Pos) : List (Token D) → Text → Pos → Type 0 where
  untouched : Tiles a p [] a p
  then_token :
      {ts : List (Token D)} {b c d : Text} {q r s : Pos} (t : Token D)
      → Tiles a p ts b q
      → Moves b q c r
      → Moves c r d s
      → t.span ≡ span_of r s
      → length d < length c
      → is_eof t.kind ≡ false
      → Tiles a p (ts ++ t ∷ []) d s

-- A list of tokens tiles the source and ends with one `Eof`, at the end of the source.
pub record TilesAll {D : Type 0} (src : Text) (tokens : List (Token D)) : Type 0 where
  pub front : List (Token D)
  pub last : Token D
  pub split : tokens ≡ front ++ last ∷ []
  pub behind : Text
  pub at : Pos
  pub tiles : Tiles src zero_pos front behind at
  pub is_last : is_eof last.kind ≡ true
  pub gap : Moves behind at [] last.span.start
  pub empty : last.span.end ≡ last.span.start

module _ {D : Type 0} (lib : Library D) (src : Text) where
  abbrev Done : Stream D → Type 0
  Done s = TilesAll src s.tokens

  abbrev Going : Stream D → Type 0
  Going s = Tiles src zero_pos s.tokens s.lx.rest s.lx.pos

  push_token-After :
      (s : Stream D) (o : Option (Token D × Lexer))
      → Going s
      → Returns (TokenAt s.lx) o
      → Returns (After Going Done (λ x. length x.lx.rest) (length s.lx.rest)) (push_token lib s o)
  push_token-After s none g r = r
  push_token-After s (some (t, lx)) g r =
      if_cases (After Going Done (λ x. length x.lx.rest) (length s.lx.rest)) (is_eof t.kind)
        (λ e. record {
          front = s.tokens;
          last = t;
          split = refl;
          behind = s.lx.rest;
          at = s.lx.pos;
          tiles = g;
          is_last = e;
          gap = rw (r.at_end e) at r.gap;
          empty = Moves-nil (rw (r.at_end e) at r.body);
        })
        (λ e. (
          rw r.stands (then_token t g r.gap r.body refl (r.consumes e) e),
          omega (arith, r.consumes e, Moves-le r.gap),
        ))

  -- With this fuel the loop of `tokenize` ends with all of the source tiled.
  stream_loop :
      Returns Done
        (loop (stream_round lib) (suc (length src)) (record { tokens = []; lx = new src }))
  unfolding stream_round new
  stream_loop =
      loop_rule Going Done (λ x. length x.lx.rest) (stream_round lib)
        (λ s g. push_token-After s (next_token lib s.lx) g (next_token-Returns lib s.lx))
        (suc (length src)) _ (omega arith) untouched

-- `tokenize` ends on every source, with tokens that tile it: each is a run of the source at the
-- position its span tells, in order, at least one character long, and a single `Eof` at the end of
-- the source comes last.
pub tokenize-TilesAll :
    {D : Type 0} (lib : Library D) (src : Text)
    → (o : LexOutput D) × (tokenize lib src ≡ some o) × TilesAll src o.tokens
unfolding tokenize
tokenize-TilesAll lib src =
    let (s, e, h) = Returns-some _ _ (stream_loop lib src) in
    (record { tokens = s.tokens; errors = s.lx.errors }, ap (output lib) e, h)

-- ===== src/Lexer/Moves.antt =====
-- How the lexer's operations move through the source: each consumes a run of characters from the
-- front of the remaining text and advances the position over exactly these characters.
use y.Prelude.{
  ℕ, ◌+◌, ◌≤◌, ◌<◌, Text, List, [], ◌∷◌, ◌++◌, length, length-append, append_assoc, ◌≡◌, refl, sym,
  ap, ◌∙◌, arith, some,
}
use y.Source.{Pos, Span, advance}
use y.Source.Advance.{advance_all, advance_all-append}
use y.Lexer.State.{Lexer, SourceError, Message, bump, skip, report}

pub record Moves (a : Text) (p : Pos) (b : Text) (q : Pos) : Type 0 where
  pub eaten : Text
  pub split : a ≡ eaten ++ b
  pub moved : q ≡ advance_all p eaten

pub Moves-refl : (a : Text) (p : Pos) → Moves a p a p
Moves-refl a p = record { eaten = []; split = refl; moved = refl }

pub Moves-one : (c : ℕ) (a : Text) (p : Pos) → Moves (c ∷ a) p a (advance p c)
Moves-one c a p = record { eaten = c ∷ []; split = refl; moved = refl }

pub Moves-trans : {a b c : Text} {p q r : Pos} → Moves a p b q → Moves b q c r → Moves a p c r
Moves-trans {a} {b} {c} {p} {q} {r} m n = record {
  eaten = m.eaten ++ n.eaten;
  split = m.split ∙ ap (λ t. m.eaten ++ t) n.split ∙ sym (append_assoc m.eaten n.eaten c);
  moved =
      n.moved
      ∙ ap (λ s. advance_all s n.eaten) m.moved
      ∙ sym (advance_all-append p m.eaten n.eaten);
}

pub Moves-length :
    {a b : Text} {p q : Pos} (m : Moves a p b q) → length a ≡ length m.eaten + length b
Moves-length {a} {b} m = ap length m.split ∙ length-append m.eaten b

pub Moves-le : {a b : Text} {p q : Pos} → Moves a p b q → length b ≤ length a
Moves-le m = omega (arith, Moves-length m)

nil_of_append : (s t : Text) → [] ≡ s ++ t → s ≡ []
nil_of_append [] t h = refl
nil_of_append (c ∷ s) t h = ground arith

-- At the end of the text nothing moves.
pub Moves-nil : {b : Text} {p q : Pos} → Moves [] p b q → q ≡ p
Moves-nil {b} {p} {q} m = m.moved ∙ ap (λ s. advance_all p s) (nil_of_append m.eaten b m.split)

-- The same between two states of the lexer.
pub record Advances (x y : Lexer) : Type 0 where
  pub moves : Moves x.rest x.pos y.rest y.pos

pub Advances-refl : (x : Lexer) → Advances x x
Advances-refl x = record { moves = Moves-refl x.rest x.pos }

pub Advances-trans : {x y z : Lexer} → Advances x y → Advances y z → Advances x z
Advances-trans a b = record { moves = Moves-trans a.moves b.moves }

pub Advances-le : {x y : Lexer} → Advances x y → length y.rest ≤ length x.rest
Advances-le a = Moves-le a.moves

abbrev pub lexer : Text → Pos → List SourceError → Lexer
lexer r p e = record { rest = r; pos = p; errors = e }

skip_at : (r : Text) (p : Pos) (e : List SourceError) → Advances (lexer r p e) (skip (lexer r p e))
unfolding skip
skip_at [] p e = Advances-refl _
skip_at (c ∷ r) p e = record { moves = Moves-one c r p }

pub skip-Advances : (lx : Lexer) → Advances lx (skip lx)
skip-Advances lx = skip_at lx.rest lx.pos lx.errors

pub bump-Advances : (lx : Lexer) → Advances lx (bump lx).1
unfolding skip
bump-Advances lx = skip-Advances lx

-- A character that is there is consumed.
bump_at :
    (r : Text) (p : Pos) (e : List SourceError) (c : ℕ)
    → (bump (lexer r p e)).0 ≡ some c
    → length (bump (lexer r p e)).1.rest < length r
unfolding bump
bump_at [] p e c h = ground arith
bump_at (d ∷ r) p e c h = omega arith

pub bump-shrinks :
    (lx : Lexer) (c : ℕ) → (bump lx).0 ≡ some c → length (bump lx).1.rest < length lx.rest
bump-shrinks lx c h = bump_at lx.rest lx.pos lx.errors c h

pub report-Advances : (at : Span) (m : Message) (lx : Lexer) → Advances lx (report at m lx)
unfolding report
report-Advances at m lx = record { moves = Moves-refl lx.rest lx.pos }

-- The same after a move: a report moves nothing.
pub then_report :
    {x y : Lexer} (at : Span) (m : Message) → Advances x y → Advances x (report at m y)
then_report at m a = Advances-trans a (report-Advances at m _)

pub then_skip : {x y : Lexer} → Advances x y → Advances x (skip y)
then_skip a = Advances-trans a (skip-Advances _)

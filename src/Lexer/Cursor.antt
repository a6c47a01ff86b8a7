-- ===== src/Lexer/Cursor.antt =====
-- src/lexer/mod.rs: the cursor with its lookahead buffer, `fill`, `peek`, `peek2` and `bump`, and
-- that it refines the plain cursor of `Lexer/State.antt`.
use y.Prelude.{
  ℕ, zero, suc, ◌-◌, Text, List, [], ◌∷◌, ◌++◌, append_assoc, length, head?, tail, Option, none,
  some, ◌≡◌, refl, ap, arith,
}
use y.Source.{Pos, advance}
use y.Lexer.State.{Lexer, SourceError, peek, peek2, bump}

-- `peek_buf` holds what was read from `chars` and is not yet consumed.
pub record Cursor : Type 0 where
  pub chars : Text
  pub peek_buf : Text
  pub pos : Pos
  pub errors : List SourceError

-- `while self.peek_buf.len() < n`, with `more` reads still wanted.
unfoldable pub fill_more : ℕ → Text → Text → Text × Text
fill_more zero chars buf = (chars, buf)
fill_more (suc more) [] buf = ([], buf)
fill_more (suc more) (c ∷ chars) buf = fill_more more chars (buf ++ c ∷ [])

unfoldable pub fill : ℕ → Cursor → Cursor
fill n k =
    let (chars, buf) = fill_more (n - length k.peek_buf) k.chars k.peek_buf in
    record k { chars = chars; peek_buf = buf }

unfoldable pub peek_first : Cursor → Option ℕ × Cursor
peek_first k = let k' = fill 1 k in (head? k'.peek_buf, k')

unfoldable pub peek_second : Cursor → Option ℕ × Cursor
peek_second k = let k' = fill 2 k in (head? (tail k'.peek_buf), k')

abbrev take_first : Text → Cursor → Option ℕ × Cursor
take_first [] k = (none, k)
take_first (c ∷ buf) k = (some c, record k { peek_buf = buf; pos = advance k.pos c })

unfoldable pub bump_first : Cursor → Option ℕ × Cursor
bump_first k = let k' = fill 1 k in take_first k'.peek_buf k'

-- The plain cursor: all the characters not yet consumed.
abbrev pub view : Cursor → Lexer
view k = record { rest = k.peek_buf ++ k.chars; pos = k.pos; errors = k.errors }

abbrev cursor : Text → Text → Pos → List SourceError → Cursor
cursor c b p e = record { chars = c; peek_buf = b; pos = p; errors = e }

fill_more-rest :
    (n : ℕ) (chars buf : Text)
    → (fill_more n chars buf).1 ++ (fill_more n chars buf).0 ≡ buf ++ chars
unfolding fill_more
fill_more-rest zero chars buf = refl
fill_more-rest (suc n) [] buf = refl
fill_more-rest (suc n) (c ∷ chars) buf =
    rw (fill_more-rest n chars (buf ++ c ∷ [])) (append_assoc buf (c ∷ []) chars)

-- Filling the buffer changes nothing that the lexer can see.
pub view-fill : (n : ℕ) (k : Cursor) → view (fill n k) ≡ view k
unfolding fill
view-fill n k =
    ap (λ r. record { rest = r; pos = k.pos; errors = k.errors })
      (fill_more-rest (n - length k.peek_buf) k.chars k.peek_buf)

sub_one_more : (n : ℕ) → 1 - suc n ≡ 0
sub_one_more n = omega arith

sub_two_more : (n : ℕ) → 2 - suc (suc n) ≡ 0
sub_two_more n = omega arith

peek_first_at :
    (c b : Text) (p : Pos) (e : List SourceError) → (peek_first (cursor c b p e)).0 ≡ head? (b ++ c)
unfolding peek_first fill fill_more
peek_first_at c (d ∷ b) p e = rw (sub_one_more (length b)) refl
peek_first_at [] [] p e = refl
peek_first_at (c ∷ cs) [] p e = refl

peek_second_at :
    (c b : Text) (p : Pos) (e : List SourceError)
    → (peek_second (cursor c b p e)).0 ≡ head? (tail (b ++ c))
unfolding peek_second fill fill_more
peek_second_at c (d ∷ d' ∷ b) p e = rw (sub_two_more (length b)) refl
peek_second_at [] (d ∷ []) p e = refl
peek_second_at (c ∷ cs) (d ∷ []) p e = refl
peek_second_at [] [] p e = refl
peek_second_at (c ∷ []) [] p e = refl
peek_second_at (c ∷ c' ∷ cs) [] p e = refl

bump_first_at :
    (c b : Text) (p : Pos) (e : List SourceError)
    → ((bump_first (cursor c b p e)).0 ≡ (bump (view (cursor c b p e))).0)
      × (view (bump_first (cursor c b p e)).1 ≡ (bump (view (cursor c b p e))).1)
unfolding bump_first fill fill_more bump
bump_first_at c (d ∷ b) p e = rw (sub_one_more (length b)) (refl, refl)
bump_first_at [] [] p e = (refl, refl)
bump_first_at (c ∷ cs) [] p e = (refl, refl)

-- How a cursor agrees with its view.
pub record Refines (k : Cursor) : Type 0 where
  pub peek_answer : (peek_first k).0 ≡ peek (view k)
  pub peek_keeps : view (peek_first k).1 ≡ view k
  pub peek2_answer : (peek_second k).0 ≡ peek2 (view k)
  pub peek2_keeps : view (peek_second k).1 ≡ view k
  pub bump_answer : (bump_first k).0 ≡ (bump (view k)).0
  pub bump_leaves : view (bump_first k).1 ≡ (bump (view k)).1

-- The buffered cursor refines the plain one: both lookaheads answer the next characters and leave
-- what is still to be read as it was, and `bump` answers and leaves what the plain `bump` does.
pub cursor-Refines : (k : Cursor) → Refines k
cursor-Refines k = record {
  peek_answer = peek_first_at k.chars k.peek_buf k.pos k.errors;
  peek_keeps = unfold peek_first in view-fill 1 k;
  peek2_answer = peek_second_at k.chars k.peek_buf k.pos k.errors;
  peek2_keeps = unfold peek_second in view-fill 2 k;
  bump_answer = (bump_first_at k.chars k.peek_buf k.pos k.errors).0;
  bump_leaves = (bump_first_at k.chars k.peek_buf k.pos k.errors).1;
}

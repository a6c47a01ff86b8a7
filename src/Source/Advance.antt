-- ===== src/Source/Advance.antt =====
-- src/ast/span.rs: what a position counts after a run of characters, and what `union` spans.
use y.Prelude.{
  ℕ, suc, ◌+◌, ◌≤◌, ◌<◌, ◌^◌, ◌==◌, if◌then◌else◌, Text, [], ◌∷◌, ◌++◌, ◌≡◌, refl, arith,
}
use y.Source.{Pos, Span, len_utf8, advance, union}

-- The position after a text.
abbrev pub advance_all : Pos → Text → Pos
advance_all p [] = p
advance_all p (c ∷ cs) = advance_all (advance p c) cs

pub advance_all-append :
    (p : Pos) (s t : Text) → advance_all p (s ++ t) ≡ advance_all (advance_all p s) t
advance_all-append p [] t = refl
advance_all-append p (c ∷ s) t = advance_all-append (advance p c) s t

-- The length of a text in UTF-8, and its number of newlines.
abbrev pub bytes : Text → ℕ
bytes [] = 0
bytes (c ∷ cs) = len_utf8 c + bytes cs

abbrev pub newlines : Text → ℕ
newlines [] = 0
newlines (c ∷ cs) = if c == b'\n' then suc (newlines cs) else newlines cs

offset-advance : (p : Pos) (c : ℕ) → (advance p c).offset ≡ p.offset + len_utf8 c
unfolding advance
offset-advance p c = ground arith

-- The offset counts the bytes of the text passed.
pub offset-advance_all : (p : Pos) (s : Text) → (advance_all p s).offset ≡ p.offset + bytes s
offset-advance_all p [] = omega arith
offset-advance_all p (c ∷ s) = omega (arith, offset-advance_all (advance p c) s, offset-advance p c)

line-advance :
    (p : Pos) (c : ℕ)
    → p.line + newlines (c ∷ []) < 2 ^ 32
    → (advance p c).line ≡ p.line + newlines (c ∷ [])
unfolding advance
line-advance p c h = ground arith

newlines-cons : (c : ℕ) (s : Text) → newlines (c ∷ s) ≡ newlines (c ∷ []) + newlines s
newlines-cons c s = ground arith

-- The line counts the newlines passed, as long as a `u32` holds it.
pub line-advance_all :
    (p : Pos) (s : Text)
    → p.line + newlines s < 2 ^ 32
    → (advance_all p s).line ≡ p.line + newlines s
line-advance_all p [] h = omega arith
line-advance_all p (c ∷ s) h =
    let split = newlines-cons c s in
    let here = line-advance p c (omega arith) in
    omega (arith, line-advance_all (advance p c) s (omega arith))

-- The first span covers the second, by offsets.
abbrev pub Covers : Span → Span → Type 0
Covers c a = (c.start.offset ≤ a.start.offset) × (a.end.offset ≤ c.end.offset)

-- `union` is the smallest span, by offsets, that covers both: it covers both, and any span that covers them
-- covers it.
pub union_least :
    (a b c : Span)
    → Covers c a
    → Covers c b
    → Covers (union a b) a × Covers (union a b) b × Covers c (union a b)
unfolding union
union_least a b c (h₁, h₂) (h₃, h₄) = ground arith

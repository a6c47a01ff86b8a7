-- ===== src/Lexer/Scan.antt =====
-- src/lexer/mod.rs: the loops of the lexer that look at most two characters ahead: runs of
-- characters, comments, digit runs and exponents. Each recurs on the remaining characters and
-- answers what is left and where it stands.
use y.Prelude.{
  ℕ, ◌+◌, ◌-◌, ◌==◌, if◌then◌else◌, Text, [], ◌∷◌, ◌++◌, head?, is_empty, Bool, true, false, ◌&&◌,
  ◌||◌, not, Option, none, some,
}
use y.Source.{Pos, span_of, advance}
use y.Lexer.State.{
  Lexer, peek, skip, report, holds, is_char, is_digit, exponent_digits, unterminated_comment,
}

-- What a loop leaves: the remaining characters and their position.
pub record Left : Type 0 where
  pub text : Text
  pub pos : Pos

abbrev pub left : Text → Pos → Left
left r p = record { text = r; pos = p }

abbrev pub resume : Left → Lexer → Lexer
resume l lx = record lx { rest = l.text; pos = l.pos }

-- `while let Some(ch) = self.peek() { if p(ch) { self.bump(); s.push(ch) } else { break } }`
unfoldable pub bump_while : (ℕ → Bool) → Text → Pos → Text × Left
bump_while p [] pos = ([], left [] pos)
bump_while p (c ∷ cs) pos = elim (p c) [
  | true ↦ let (taken, l) = bump_while p cs (advance pos c) in (c ∷ taken, l)
  | false ↦ ([], left (c ∷ cs) pos)
]

unfoldable pub take_while : (ℕ → Bool) → Lexer → Text × Lexer
unfolding bump_while
take_while p lx = let (taken, l) = bump_while p lx.rest lx.pos in (taken, resume l lx)

-- The rest of a `//` comment: up to the newline, which stays.
unfoldable pub eat_line : Lexer → Lexer
eat_line lx = (take_while (λ c. not (c == b'\n')) lx).1

-- The loop of `eat_block_comment` at a depth; the Boolean tells whether the comment was closed.
unfoldable pub eat_nested : ℕ → Text → Pos → Bool × Left
eat_nested depth [] pos = (false, left [] pos)
eat_nested depth (c ∷ []) pos = (false, left [] (advance pos c))
eat_nested depth (c ∷ d ∷ r) pos =
    let past = advance (advance pos c) d in
    elim (c == b'/' && d == b'*') [
      | true ↦ eat_nested (depth + 1) r past
      | false ↦ elim (c == b'*' && d == b'/') [
        | true ↦ elim (depth - 1 == 0) [
          | true ↦ (true, left r past)
          | false ↦ eat_nested (depth - 1) r past
        ]
        | false ↦ eat_nested depth (d ∷ r) (advance pos c)
      ]
    ]

unfoldable pub eat_block_comment : Pos → Lexer → Lexer
unfolding eat_nested
eat_block_comment start lx =
    let (closed, l) = eat_nested 1 lx.rest lx.pos in
    let lx' = resume l lx in
    if closed then lx' else report (span_of start lx'.pos) unterminated_comment lx'

-- Digits with `_` between two digits dropped.
unfoldable pub digit_run : Text → Pos → Text × Left
digit_run [] pos = ([], left [] pos)
digit_run (c ∷ cs) pos = elim (is_digit c) [
  | true ↦ let (taken, l) = digit_run cs (advance pos c) in (c ∷ taken, l)
  | false ↦ elim (c == b'_' && holds is_digit (head? cs)) [
    | true ↦ digit_run cs (advance pos c)
    | false ↦ ([], left (c ∷ cs) pos)
  ]
]

unfoldable pub take_digits : Lexer → Text × Lexer
unfolding digit_run
take_digits lx = let (taken, l) = digit_run lx.rest lx.pos in (taken, resume l lx)

-- The sign after an exponent marker, if there is one.
unfoldable pub take_sign : Lexer → Text × Lexer
take_sign lx =
    if is_char (peek lx) b'+'
    then (b'+' ∷ [], skip lx)
    else if is_char (peek lx) b'-'
    then (b'-' ∷ [], skip lx)
    else ([], lx)

-- The digits after the marker `e` and the sign; `saved` is where the marker stood.
unfoldable pub exponent_tail : Pos → Text → Lexer → Text × Lexer
exponent_tail saved buf lx =
    let (digits, lx') = take_while is_digit lx in
    if is_empty digits
    then (buf, report (span_of saved lx'.pos) exponent_digits lx')
    else (buf ++ digits, lx')

unfoldable pub exponent_at : ℕ → Lexer → Option Text × Lexer
exponent_at e lx =
    if e == b'e' || e == b'E'
    then (let (sign, lx') = take_sign (skip lx) in
        let (buf, lx'') = exponent_tail lx.pos (e ∷ sign) lx' in (some buf, lx''))
    else (none, lx)

unfoldable pub maybe_exponent : Lexer → Option Text × Lexer
maybe_exponent lx = elim (peek lx) [ none ↦ (none, lx) | some e ↦ exponent_at e lx ]

-- ===== src/Source.antt =====
-- src/ast/span.rs and src/error.rs: positions, spans and diagnostics.
pub mod Advance
pub mod Examples
use y.Prelude.{
  ℕ, ◌+◌, ◌<◌, ◌≤◌, ◌%◌, ◌^◌, ltb, leb, ◌==◌, if◌then◌else◌, Text, List, [], ◌∷◌, Bool, true, false,
  ◌&&◌, ◌≡◌, refl, arith,
}

-- A point in the source: byte offset from 0, line and column from 1.
pub record Pos : Type 0 where
  pub offset : ℕ
  pub line : ℕ
  pub col : ℕ

abbrev pub zero_pos : Pos
zero_pos = record { offset = 0; line = 1; col = 1 }

-- `char::len_utf8`.
unfoldable pub len_utf8 : ℕ → ℕ
len_utf8 c = if ltb c 0x80 then 1 else if ltb c 0x800 then 2 else if ltb c 0x1_0000 then 3 else 4

-- `u32 + 1`, with the wrap-around of a release build.
abbrev pub next_u32 : ℕ → ℕ
next_u32 n = (n + 1) % 2 ^ 32

unfoldable pub advance : Pos → ℕ → Pos
advance p ch =
    if ch == b'\n'
    then record { offset = p.offset + len_utf8 ch; line = next_u32 p.line; col = 1 }
    else if ch == b'\r'
    then record { offset = p.offset + len_utf8 ch; line = p.line; col = p.col }
    else record { offset = p.offset + len_utf8 ch; line = p.line; col = next_u32 p.col }

-- A half-open range.
pub record Span : Type 0 where
  pub start : Pos
  pub end : Pos

abbrev pub span_of : Pos → Pos → Span
span_of a b = record { start = a; end = b }

abbrev pub span_at : Pos → Span
span_at p = span_of p p

unfoldable pub union : Span → Span → Span
union a b =
    span_of (if ltb a.start.offset b.start.offset then a.start else b.start)
      (if ltb b.end.offset a.end.offset then a.end else b.end)

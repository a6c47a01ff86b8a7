-- ===== src/Source/Examples.antt =====
-- Positions and spans on concrete texts.
use y.Prelude.{ℕ, ◌+◌, codes, ◌≡◌, arith}
use y.Source.{Pos, zero_pos, Span, span_of, union}
use y.Source.Advance.{advance_all, newlines, Covers, line-advance_all, union_least}

line-advance_all_example :
    (advance_all zero_pos (codes "a\nb")).line ≡ zero_pos.line + newlines (codes "a\nb")
line-advance_all_example = line-advance_all zero_pos (codes "a\nb") (omega arith)

abbrev at : ℕ → Pos
at n = record { offset = n; line = 1; col = n + 1 }

abbrev left_span : Span
left_span = span_of (at 2) (at 4)

abbrev right_span : Span
right_span = span_of (at 3) (at 7)

abbrev cover : Span
cover = span_of (at 1) (at 9)

union_least_example :
    Covers (union left_span right_span) left_span
    × Covers (union left_span right_span) right_span
    × Covers cover (union left_span right_span)
union_least_example =
    union_least left_span right_span cover (omega arith, omega arith) (omega arith, omega arith)

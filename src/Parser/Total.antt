-- ===== src/Parser/Total.antt =====
-- src/parser/mod.rs: the parser tied together returns, on as much fuel as there are tokens.
use y.Prelude.{ℕ, suc, ◌<◌, ◌≡◌, true, false, arith}
use y.Source.{Span}
use y.Parser.State.{Parser, ParserLibrary, is_keyword}
use y.Parser.Calls.{Calls}
use y.Parser.Goes.{Goes, Good, Good-strict, free, moving, IsPlain, left}
use y.Parser.CursorGoes.{bump-strict, keyword-goes_on}
use y.Parser.Served.{Served}
use y.Prelude.{zero}
use y.Lexer.Token.{if_kw}
use y.Parser.Control.{parse_if}
use y.Parser.Primary.{parse_prefix}
use y.Parser.AnnotationsGoes.{parse_type-Goes}
use y.Parser.PatternsGoes.{parse_pattern-Goes}
use y.Parser.ControlGoes.{if_rest-Goes}
use y.Parser.PrimaryGoes.{parse_prefix-Goes, parse_prefix-Strict}
use y.Parser.OperatorsGoes.{parse_operators-Goes, parse_operators-Strict}
use y.Parser.Recovery.{Statement}
use y.Parser.StatementsGoes.{Leading, parse_stmt-Statement, parse_stmt_list-Goes}
use y.Parser.Run.{parse_expr, level, calls, parse_file}

module _ {D : Type 0} (lib : ParserLibrary D) where
  -- The functions of one level serve the next one.
  abbrev Level : ℕ → Calls D → Type 0
  Level k c = Served k c × Statement k c.parse_stmt

  parse_expr-Goes :
      (k : ℕ) (c : Calls D) (min_bp : ℕ) → Level k c → Goes moving (suc k) (parse_expr lib c min_bp)
  unfolding parse_expr
  parse_expr-Goes k c min_bp h =
      parse_operators-Goes k c h.0 (parse_prefix lib c) min_bp (parse_prefix-Goes lib k c h.0 h.1)

  parse_expr-Leading : (k : ℕ) (c : Calls D) → Level k c → Leading k (parse_expr lib c 0)
  unfolding parse_expr
  parse_expr-Leading k c h = record {
    moves = parse_operators-Goes k c h.0 (parse_prefix lib c) 0 (parse_prefix-Goes lib k c h.0 h.1);
    strict = λ p i w l.
        parse_operators-Strict k c h.0 (parse_prefix lib c) 0 p l
          (parse_prefix-Strict lib k c h.0 h.1 p i w l);
  }

  parse_if-Good :
      (k : ℕ) (c : Calls D) (start : Span) (p : Parser D)
      → Level k c
      → is_keyword if_kw p.here.kind ≡ true
      → IsPlain p
      → left p < suc k
      → Good free p (parse_if c start p)
  unfolding parse_if
  parse_if-Good k c start p h e w l =
      Good-strict free p _ (λ a. omega arith)
        (bump-strict k _ p (if_rest-Goes k c h.0 start) w l (keyword-goes_on if_kw p.here.kind e))

  level-Level : (k : ℕ) (c : Calls D) → Level k c → Level (suc k) (level lib c)
  unfolding level
  level-Level k c h = (
    record {
      expr = λ min_bp. parse_expr-Goes k c min_bp h;
      type = parse_type-Goes k c h.0;
      pattern = parse_pattern-Goes lib k c h.0;
      block_list =
          parse_stmt_list-Goes k c h.0 (parse_expr lib c 0) (parse_expr-Leading k c h) false;
      if_expr = λ start p e w l. parse_if-Good k c start p h e w l;
    },
    parse_stmt-Statement k c h.0 (parse_expr lib c 0) (parse_expr-Leading k c h),
  )

  calls-Level : (k : ℕ) → Level k (calls lib k)
  unfolding calls
  calls-Level zero = (
    record {
      expr = λ min_bp. record { at = λ p w l. absurd (omega arith) };
      type = record { at = λ p w l. absurd (omega arith) };
      pattern = record { at = λ p w l. absurd (omega arith) };
      block_list = record { at = λ p w l. absurd (omega arith) };
      if_expr = λ start p e w l. absurd (omega arith);
    },
    record { run = λ p w l. absurd (omega arith); strict = λ p w l h. absurd (omega arith) },
  )
  calls-Level (suc k) = level-Level k (calls lib k) (calls-Level k)

  pub parse_file-Good : (p : Parser D) → IsPlain p → Good free p (parse_file lib p)
  unfolding parse_file
  parse_file-Good p w =
      let k = suc (left p) in
      let h = calls-Level k in
      (parse_stmt_list-Goes k (calls lib k) h.0 (parse_expr lib (calls lib k) 0)
          (parse_expr-Leading k (calls lib k) h) true).at
        p w (omega arith)

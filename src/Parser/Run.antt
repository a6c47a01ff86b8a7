-- ===== src/Parser/Run.antt =====
-- src/parser/mod.rs: the parser tied together, on fuel that each call further down lowers, and
-- `parse`.
use y.Prelude.{ℕ, zero, suc, Text, true, false, List, [], ◌∷◌, Option, none, some, length}
use y.Source.{Span, union, span_at, zero_pos}
use y.Lexer.Token.{Token}
use y.Lexer.Tokenize.{tokenize}
use y.Ast.Tree.{Expr, Stmt}
use y.Ast.Spans.{stmt_span}
use y.Parser.State.{ParseError, Result, ok, err, Parser, ParserLibrary, Parse, new}
use y.Parser.Calls.{Calls}
use y.Parser.Annotations.{parse_type}
use y.Parser.Patterns.{parse_pattern}
use y.Parser.Operators.{parse_operators}
use y.Parser.Primary.{parse_prefix}
use y.Parser.Control.{parse_if}
use y.Parser.Statements.{parse_stmt, parse_stmt_list}

pub record Program (D : Type 0) : Type 0 where
  pub stmts : List (Stmt D)
  pub span : Span

pub record ParseOutput (D : Type 0) : Type 0 where
  pub program : Program D
  pub errors : List ParseError

abbrev pub program_span : {D : Type 0} → List (Stmt D) → Span
program_span [] = union (span_at zero_pos) (span_at zero_pos)
program_span (s ∷ ss) = union (stmt_span s) (last_stmt s ss)
  where
    last_stmt : {D : Type 0} → Stmt D → List (Stmt D) → Span
    last_stmt s [] = stmt_span s
    last_stmt s (t ∷ ts) = last_stmt t ts

module _ {D : Type 0} where
  abbrev out_of_fuel : Calls D
  out_of_fuel = record {
    parse_expr = λ min_bp p. none;
    parse_type = λ p. none;
    parse_pattern = λ p. none;
    parse_stmt = λ p. none;
    parse_block_list = λ p. none;
    parse_if = λ start p. none;
  }

module _ {D : Type 0} (lib : ParserLibrary D) where
  unfoldable pub parse_expr : Calls D → ℕ → Parse D (Expr D)
  parse_expr c min_bp = parse_operators c (parse_prefix lib c) min_bp

  unfoldable pub level : Calls D → Calls D
  level c = record {
    parse_expr = parse_expr c;
    parse_type = parse_type c;
    parse_pattern = parse_pattern lib c;
    parse_stmt = parse_stmt c (parse_expr c 0);
    parse_block_list = parse_stmt_list c (parse_expr c 0) false;
    parse_if = parse_if c;
  }

  unfoldable pub calls : ℕ → Calls D
  calls zero = out_of_fuel
  calls (suc fuel) = level (calls fuel)

  abbrev pub output_of : Option (Result (List (Stmt D)) × Parser D) → Option (ParseOutput D)
  output_of none = none
  output_of (some (ok ss, p)) =
      some (record { program = record { stmts = ss; span = program_span ss }; errors = p.errors })
  output_of (some (err e, p)) = none

  -- The parser of a whole file, on fuel one above the number of tokens behind the first.
  unfoldable pub parse_file : Parse D (List (Stmt D))
  parse_file p = let c = calls (suc (length p.after)) in parse_stmt_list c (parse_expr c 0) true p

  abbrev pub parse_all : List (Token D) → Option (ParseOutput D)
  parse_all [] = none
  parse_all (t ∷ ts) = output_of (parse_file (new t ts))

  -- The errors of the lexer are dropped.
  unfoldable pub parse : Text → Option (ParseOutput D)
  parse src = elim (tokenize lib.lexing src) [ none ↦ none | some out ↦ parse_all out.tokens ]

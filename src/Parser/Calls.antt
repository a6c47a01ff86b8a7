-- ===== src/Parser/Calls.antt =====
-- src/parser/mod.rs: the functions that others call further down in the grammar, with less fuel.
use y.Prelude.{ℕ, List}
use y.Source.{Span}
use y.Ast.Types.{TypeAnnot}
use y.Ast.Tree.{Expr, Stmt, Pattern}
use y.Parser.State.{Parse}

pub record Calls (D : Type 0) : Type 0 where
  pub parse_expr : ℕ → Parse D (Expr D)
  pub parse_type : Parse D TypeAnnot
  pub parse_pattern : Parse D (Pattern D)
  pub parse_stmt : Parse D (Stmt D)
  pub parse_block_list : Parse D (List (Stmt D))
  pub parse_if : Span → Parse D (Expr D)

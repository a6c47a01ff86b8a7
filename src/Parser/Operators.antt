-- ===== src/Parser/Operators.antt =====
-- src/parser/mod.rs: `parse_expr`, the loop over infix operators with their binding powers, over a
-- parser of operands (`parse_prefix`).
use y.Prelude.{ℕ, ltb, ◌==◌, ◌&&◌, if◌then◌else◌, Option, none, some}
use y.Prelude.Loop.{Round, again, finish}
use y.Source.{Span, union}
use y.Lexer.Token.{
  TokenKind, keyword, or_kw, and_kw, bang, question, assign, plus, minus, star, slash, percent,
  plus_assign, minus_assign, star_assign, slash_assign, percent_assign,
}
use y.Ast.Types.{BinOp}
use y.Ast.Tree.{Expr}
use y.Ast.Spans.{expr_span}
use y.Parser.State.{Parse, pure, same_kind}
use y.Parser.Cursor.{◌>>=◌, ◌>>◌, peek, span_here, bump, up_to_here, repeat}
use y.Parser.Calls.{Calls}

pub data InfixOp : Type 0 where
  pipe actor_send actor_request : InfixOp
  bin : BinOp → InfixOp

pub record Infix : Type 0 where
  pub lbp : ℕ
  pub rbp : ℕ
  pub op : InfixOp

abbrev pub infix_at : ℕ → ℕ → InfixOp → Option Infix
infix_at l r o = some (record { lbp = l; rbp = r; op = o })

module _ {D : Type 0} where
  unfoldable pub infix_op : TokenKind D → Option Infix
  infix_op TokenKind.pipe = infix_at 1 2 InfixOp.pipe
  infix_op bang = infix_at 3 4 InfixOp.actor_send
  infix_op question = infix_at 3 4 InfixOp.actor_request
  infix_op (keyword or_kw) = infix_at 5 6 (InfixOp.bin BinOp.or)
  infix_op TokenKind.or = infix_at 5 6 (InfixOp.bin BinOp.or)
  infix_op (keyword and_kw) = infix_at 7 8 (InfixOp.bin BinOp.and)
  infix_op TokenKind.and = infix_at 7 8 (InfixOp.bin BinOp.and)
  infix_op TokenKind.eq = infix_at 9 10 (InfixOp.bin BinOp.eq)
  infix_op TokenKind.neq = infix_at 9 10 (InfixOp.bin BinOp.neq)
  infix_op TokenKind.lt = infix_at 9 10 (InfixOp.bin BinOp.lt)
  infix_op TokenKind.gt = infix_at 9 10 (InfixOp.bin BinOp.gt)
  infix_op TokenKind.lte = infix_at 9 10 (InfixOp.bin BinOp.lte)
  infix_op TokenKind.gte = infix_at 9 10 (InfixOp.bin BinOp.gte)
  infix_op plus = infix_at 11 12 (InfixOp.bin BinOp.add)
  infix_op minus = infix_at 11 12 (InfixOp.bin BinOp.sub)
  infix_op star = infix_at 13 14 (InfixOp.bin BinOp.mul)
  infix_op slash = infix_at 13 14 (InfixOp.bin BinOp.div)
  infix_op percent = infix_at 13 14 (InfixOp.bin BinOp.rem)
  infix_op _ = none

  unfoldable pub compound_op : TokenKind D → Option BinOp
  compound_op plus_assign = some BinOp.add
  compound_op minus_assign = some BinOp.sub
  compound_op star_assign = some BinOp.mul
  compound_op slash_assign = some BinOp.div
  compound_op percent_assign = some BinOp.rem
  compound_op _ = none

  abbrev pub operation : InfixOp → Expr D → Expr D → Span → Expr D
  operation InfixOp.pipe l r s = Expr.pipe l r s
  operation InfixOp.actor_send l r s = Expr.actor_send l r s
  operation InfixOp.actor_request l r s = Expr.actor_request l r s
  operation (InfixOp.bin op) l r s = Expr.bin_op op l r s

  abbrev pub combine : InfixOp → Expr D → Expr D → Expr D
  combine op l r = operation op l r (union (expr_span l) (expr_span r))

module _ {D : Type 0} (c : Calls D) where
  unfoldable pub assign_rest : (Expr D → Span → Expr D) → Parse D (Round (Expr D) (Expr D))
  assign_rest node = do
    start ← span_here
    bump
    rhs ← c.parse_expr 0
    span ← up_to_here start
    pure (again (node rhs span))

  unfoldable pub infix_rest : Infix → Expr D → Parse D (Round (Expr D) (Expr D))
  infix_rest i lhs = do bump; rhs ← c.parse_expr i.rbp; pure (again (combine i.op lhs rhs))

  abbrev pub infix_from : ℕ → Expr D → Option Infix → Parse D (Round (Expr D) (Expr D))
  infix_from min_bp lhs none = pure (finish lhs)
  infix_from min_bp lhs (some i) = if ltb i.lbp min_bp then pure (finish lhs) else infix_rest i lhs

  -- Assignments stand only where any operator may.
  abbrev pub operator : ℕ → Expr D → TokenKind D → Parse D (Round (Expr D) (Expr D))
  operator min_bp lhs here =
      if (min_bp == 0) && same_kind here assign
      then assign_rest (λ rhs span. Expr.assign lhs rhs span)
      else elim (if min_bp == 0 then compound_op here else none) [
        | some op ↦ assign_rest (λ rhs span. Expr.compound_assign op lhs rhs span)
        | none ↦ infix_from min_bp lhs (infix_op here)
      ]

  unfoldable pub expr_round : ℕ → Expr D → Parse D (Round (Expr D) (Expr D))
  expr_round min_bp lhs = do here ← peek; operator min_bp lhs here

  unfoldable pub parse_operators : Parse D (Expr D) → ℕ → Parse D (Expr D)
  parse_operators parse_prefix min_bp = do lhs ← parse_prefix; repeat (expr_round min_bp) lhs

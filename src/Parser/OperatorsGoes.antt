-- ===== src/Parser/OperatorsGoes.antt =====
-- src/parser/mod.rs: the loop over infix operators consumes an operator in each round, and an expression
-- that begins with a keyword consumes it.
use y.Prelude.{
  ℕ, suc, ◌<◌, ◌≡◌, refl, if◌then◌else◌, if_both, if_cases, Bool, true, false, arith, Option, none,
  some,
}
use y.Prelude.Loop.{Round}
use y.Source.{Span}
use y.Parser.State.{Parser, Parse, discriminant, same_kind}
use y.Parser.Calls.{Calls}
use y.Parser.Goes.{
  Goes, Good, GoodStrict, Good-strict, free, moving, advancing, advancing_le, pure-Goes,
  finish-Goes, step, step_moving, IsPlain, left,
}
use y.Parser.CursorGoes.{up_to_here-Goes, bump-strict}
use y.Parser.LoopsGoes.{repeat-Goes, strict_then}
use y.Parser.Served.{Served, expr_free}
use y.Prelude.{◌==◌, ◌&&◌, ltb}
use y.Prelude.Cases.{option_cases}
use y.Lexer.Token.{TokenKind, eof, assign}
use y.Ast.Types.{BinOp}
use y.Ast.Tree.{Expr}
use y.Parser.Cursor.{◌>>=◌, peek, span_here}
use y.Parser.Operators.{
  Infix, infix_op, compound_op, assign_rest, infix_rest, infix_from, operator, expr_round,
  parse_operators,
}

module _ {D : Type 0} where
  compound-goes_on :
      (kind : TokenKind D) (op : BinOp) → compound_op kind ≡ some op → same_kind kind eof ≡ false
  unfolding compound_op discriminant
  compound-goes_on eof op h = absurd (ground (arith, h))
  compound-goes_on _ op h = refl

  infix-goes_on :
      (kind : TokenKind D) (i : Infix) → infix_op kind ≡ some i → same_kind kind eof ≡ false
  unfolding infix_op discriminant
  infix-goes_on eof i h = absurd (ground (arith, h))
  infix-goes_on _ i h = refl

module _ {D : Type 0} (k : ℕ) (c : Calls D) (s : Served k c) where
  assign_rest-Good :
      (node : Expr D → Span → Expr D) (p : Parser D)
      → IsPlain p
      → left p < k
      → same_kind p.here.kind eof ≡ false
      → Good advancing p (assign_rest c node p)
  unfolding assign_rest span_here ◌>>=◌
  assign_rest-Good node p w l e = Good-strict advancing p _ advancing_le (
      bump-strict k _ p
        (step free k _ _ (expr_free k c 0 s)
          (λ rhs. step free k _ _ (up_to_here-Goes k p.here.span) (λ x. pure-Goes k _)))
        w (omega arith) e)

  infix_from-Good :
      (min_bp : ℕ) (lhs : Expr D) (o : Option Infix) (p : Parser D)
      → IsPlain p
      → left p < k
      → ((i : Infix) → o ≡ some i → same_kind p.here.kind eof ≡ false)
      → Good advancing p (infix_from c min_bp lhs o p)
  unfolding infix_rest
  infix_from-Good min_bp lhs none p w l e = (finish-Goes k lhs).at p w l
  infix_from-Good min_bp lhs (some i) p w l e =
      if_both (λ (m : Parse D (Round (Expr D) (Expr D))). Good advancing p (m p)) (ltb i.lbp min_bp)
        ((finish-Goes k lhs).at p w l)
        (Good-strict advancing p _ advancing_le (
          bump-strict k _ p (step free k _ _ (expr_free k c i.rbp s) (λ rhs. pure-Goes k _)) w
            (omega arith) (e i refl)))

  compound-some :
      (b : Bool) (kind : TokenKind D) (op : BinOp)
      → (if b then compound_op kind else none) ≡ some op
      → compound_op kind ≡ some op
  compound-some true kind op h = h
  compound-some false kind op h = absurd (ground (arith, h))

  operator-Good :
      (min_bp : ℕ) (lhs : Expr D) (p : Parser D)
      → IsPlain p
      → left p < k
      → Good advancing p (operator c min_bp lhs p.here.kind p)
  unfolding discriminant
  operator-Good min_bp lhs p w l =
      if_cases Q ((min_bp == 0) && same_kind p.here.kind assign)
        (λ e. assign_rest-Good _ p w l (ground (arith, e)))
        (λ other.
          option_cases Q (if min_bp == 0 then compound_op p.here.kind else none)
            (infix_from-Good min_bp lhs (infix_op p.here.kind) p w l (infix-goes_on p.here.kind))
            (λ op e.
              assign_rest-Good _ p w l
                (compound-goes_on p.here.kind op (compound-some (min_bp == 0) p.here.kind op e))))
    where
      Q : Parse D (Round (Expr D) (Expr D)) → Type 0
      Q m = Good advancing p (m p)

  expr_round-Goes : (min_bp : ℕ) (lhs : Expr D) → Goes advancing k (expr_round c min_bp lhs)
  unfolding expr_round peek ◌>>=◌
  expr_round-Goes min_bp lhs = record { at = λ p w l. operator-Good min_bp lhs p w l }

  pub parse_operators-Goes :
      (prefix : Parse D (Expr D)) (min_bp : ℕ)
      → Goes moving (suc k) prefix
      → Goes moving (suc k) (parse_operators c prefix min_bp)
  unfolding parse_operators
  parse_operators-Goes prefix min_bp g =
      step_moving moving k _ _ (λ a. omega arith) g
        (λ lhs. repeat-Goes k _ lhs (expr_round-Goes min_bp))

  pub parse_operators-Strict :
      (prefix : Parse D (Expr D)) (min_bp : ℕ) (p : Parser D)
      → left p < suc k
      → GoodStrict p (prefix p)
      → GoodStrict p (parse_operators c prefix min_bp p)
  unfolding parse_operators ◌>>=◌
  parse_operators-Strict prefix min_bp p l g =
      strict_then k p _ _ l g (λ lhs. repeat-Goes k _ lhs (expr_round-Goes min_bp))

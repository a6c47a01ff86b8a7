-- ===== src/Parser/BracesGoes.antt =====
-- src/parser/mod.rs: the parsers of parentheses, blocks and maps, behind their brackets, consume tokens
-- and return.
use y.Prelude.{ℕ, ◌<◌, ◌≡◌, refl, if_cases, Bool, false, arith, List}
use y.Prelude.Loop.{Round, again}
use y.Source.{Span}
use y.Parser.State.{ok, Parser, Parse, discriminant, same_kind}
use y.Parser.Calls.{Calls}
use y.Parser.Goes.{
  Goes, Good, GoodStrict, Good-strict, free, advancing, advancing_le, pure-Goes, finish-Goes,
  fail-Goes, step, peek-Goes, IsPlain, left,
}
use y.Parser.CursorGoes.{eat-Goes}
use y.Parser.LoopsGoes.{repeat-Goes}
use y.Parser.Served.{Served, goes, expr_free, if_free}
use y.Prelude.{◌⊎◌, inl, inr, Bool-cases, ◌||◌}
use y.Lexer.Token.{TokenKind, r_brace, comma, eof}
use y.Ast.Tree.{Expr, Stmt}
use y.Parser.Cursor.{◌>>=◌, peek}
use y.Parser.Blocks.{starts_stmt, attempt, looks_like_arrow_fn}
use y.Parser.Recovery.{Statement, Passes, attempted-Strict}
use y.Parser.Braces.{
  Body, paren_rest, parse_paren, keep_stmt, recover, after_stmt, block_round, continue_block_stmts,
  end_block, finish_block, next_entry, entry_round, map_rest, tail_missing_brace, block_rest,
  brace_rest, empty_map, brace_of, parse_brace_expr,
}

-- What ends a block.
abbrev ends : {D : Type 0} → TokenKind D → Bool
ends here = same_kind here r_brace || same_kind here eof

module _ {D : Type 0} (k : ℕ) where
  looks_like_arrow_fn-Goes : Goes free k (looks_like_arrow_fn {D = D})
  unfolding looks_like_arrow_fn
  looks_like_arrow_fn-Goes = record { at = λ p w l. (w, omega arith, λ e. refl) }

module _ {D : Type 0} (k : ℕ) (c : Calls D) (s : Served k c) (t : Statement k c.parse_stmt) where
  paren_rest-Goes : (start : Span) → Goes free k (paren_rest c start)
  unfolding paren_rest
  paren_rest-Goes start = search goes depth 30 fits 4000

  pub parse_paren-Goes : (start : Span) → Goes free k (parse_paren c start)
  unfolding parse_paren
  parse_paren-Goes start =
      step free k _ _ (looks_like_arrow_fn-Goes k)
        (λ b. if_free k b _ _ (fail-Goes free k _) (paren_rest-Goes start))

  keep_stmt-Goes : (done : List (Stmt D)) (x : Stmt D) → Goes free k (keep_stmt c done x)
  unfolding keep_stmt
  keep_stmt-Goes done x = search goes depth 30 fits 4000

  after_ok-Goes : (done : List (Stmt D)) (x : Stmt D) → Goes free k (after_stmt c done (ok x))
  after_ok-Goes done (Stmt.expr e) = pure-Goes k _
  after_ok-Goes done x = keep_stmt-Goes done _

  passes :
      (p : Parser D)
      → ends p.here.kind ≡ false
      → IsPlain p
      → left p < k
      → Passes false p.here.kind ⊎ GoodStrict p (c.parse_stmt p)
  passes p e w l = elim (Bool-cases (starts_stmt p.here.kind)) [
    | inl start ↦ inr (t.strict p w l start)
    | inr other ↦ inl (ground arith, ground arith, other)
  ]

  block_round-Goes : (done : List (Stmt D)) → Goes advancing k (block_round c done)
  unfolding block_round peek ◌>>=◌ attempt recover
  block_round-Goes done = record {
    at = λ p w l.
        if_cases (λ (m : Parse D (Round (List (Stmt D)) (Body D))). Good advancing p (m p))
          (ends p.here.kind) (λ e. (finish-Goes k _).at p w l)
          (λ e. Good-strict advancing p _ advancing_le (
            attempted-Strict k false (again done) (after_stmt c done) p (c.parse_stmt p)
              (omega arith) (passes p e w l) (t.run p w l) (after_ok-Goes done) (λ x. refl)));
  }

  end_block-Goes : (start : Span) (body : Body D) → Goes free k (end_block c start body)
  unfolding end_block
  end_block-Goes start body = search goes depth 30 fits 4000

  finish_block-Goes :
      (done : List (Stmt D)) (start : Span) → Goes free k (finish_block c done start)
  unfolding finish_block continue_block_stmts
  finish_block-Goes done start =
      step free k _ _ (repeat-Goes k _ done block_round-Goes) (λ body. end_block-Goes start body)

  next_entry-Goes : (done : List (Expr D × Expr D)) → Goes free k (next_entry c done)
  unfolding next_entry
  next_entry-Goes done = search goes depth 30 fits 4000

  entry_round-Goes : (done : List (Expr D × Expr D)) → Goes advancing k (entry_round c done)
  unfolding entry_round discriminant
  entry_round-Goes done =
      eat-Goes advancing k comma _ advancing_le refl (search (goes, next_entry-Goes) depth 30)
        (step advancing k _ _ (peek-Goes k) (λ here. finish-Goes k done))

  map_rest-Goes : (first : Expr D) (start : Span) → Goes free k (map_rest c first start)
  unfolding map_rest
  map_rest-Goes first start = step free k _ _ (expr_free k c 0 s) (λ v.
      step free k _ _ (repeat-Goes k _ _ entry_round-Goes) (λ all. search goes depth 30 fits 4000))

  tail_missing_brace-Goes :
      (first : Expr D) (start : Span) → Goes free k (tail_missing_brace c first start)
  unfolding tail_missing_brace
  tail_missing_brace-Goes first start = search (goes, end_block-Goes) depth 30 fits 4000

  block_rest-Goes :
      (first : Expr D) (start : Span) (here : TokenKind D)
      → Goes free k (block_rest c first start here)
  unfolding block_rest
  block_rest-Goes first start here =
      search (goes, finish_block-Goes, end_block-Goes, tail_missing_brace-Goes) depth 30 fits 4000

  brace_rest-Goes : (first : Expr D) (start : Span) → Goes free k (brace_rest c first start)
  unfolding brace_rest
  brace_rest-Goes first start = search (goes, map_rest-Goes, block_rest-Goes) depth 30 fits 4000

  empty_map-Goes : (start : Span) → Goes free k (empty_map c start)
  unfolding empty_map
  empty_map-Goes start = search goes depth 30 fits 4000

  brace_of-Goes : (start : Span) (here : TokenKind D) → Goes free k (brace_of c start here)
  brace_of-Goes start here =
      search (goes, empty_map-Goes, finish_block-Goes, brace_rest-Goes) depth 30 fits 4000

  pub parse_brace_expr-Goes : (start : Span) → Goes free k (parse_brace_expr c start)
  unfolding parse_brace_expr
  parse_brace_expr-Goes start = step free k _ _ (peek-Goes k) (λ here. brace_of-Goes start here)

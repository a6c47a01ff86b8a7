-- ===== src/Parser/StatementsGoes.antt =====
-- src/parser/mod.rs: statements consume tokens, those that begin with a keyword of a statement even if
-- they fail.
use y.Prelude.{
  ℕ, suc, ◌<◌, ◌≡◌, refl, ap, if_both, if_cases, Bool, true, false, arith, Text, List, [], Option,
}
use y.Prelude.Loop.{Round, again, finish}
use y.Source.{Span}
use y.Parser.State.{Result, Parser, Parse, pure, discriminant, same_kind, is_ident}
use y.Parser.Calls.{Calls}
use y.Parser.Goes.{
  Goes, Good, GoodStrict, Good-strict, free, moving, advancing, advancing_le, Goes-free, pure-Goes,
  finish-Goes, step, step_moving, IsPlain, left,
}
use y.Parser.CursorGoes.{bump-strict, expect-Goes, expect_ident-Goes, eat-Goes, if-bump-Goes}
use y.Parser.LoopsGoes.{repeat-Goes, strict_then}
use y.Parser.Served.{Served, goes}
use y.Prelude.{◌⊎◌, inl, inr, ◌&&◌, not, Bool-cases, get_elem?, sym, subst}
use y.Prelude.Cases.{option_both}
use y.Lexer.Token.{
  TokenKind, keyword, let_kw, shared_kw, fn_kw, type_kw, enum_kw, actor_kw, import_kw, lazy_kw,
  state_kw, on_kw, r_brace, semicolon, dot, eof,
}
use y.Ast.Types.{TypeAnnot, Param}
use y.Ast.Tree.{Expr, Stmt}
use y.Parser.State.{and_then}
use y.Parser.Cursor.{◌>>=◌, peek, peek_after, span_here}
use y.Parser.Blocks.{starts_stmt, attempt}
use y.Parser.AnnotationsGoes.{parse_params-Goes, return_type-Goes, parse_type_params-Goes}
use y.Parser.Recovery.{Statement, attempted-Strict}
use y.Parser.PrimaryGoes.{IsLeading}
use y.Parser.Statements.{
  binding, callable, type_field, parse_type_def, variant_fields, variant_def, parse_enum_def,
  parse_actor_def, path_round, import_path, lazy_import, shared_is_decl, parse_expr_stmt,
  shared_stmt, fn_stmt, stmt_of, parse_stmt, semicolon_round, keep_going, list_of, list_round,
  parse_stmt_list,
}

module _ {D : Type 0} (k : ℕ) where
  path_round-Goes : (path : Text) → Goes advancing k (path_round {D = D} path)
  unfolding path_round discriminant
  path_round-Goes path =
      eat-Goes advancing k dot _ advancing_le refl (search goes depth 30 fits 4000)
        (finish-Goes k path)

  import_path-Goes :
      (is_lazy : Bool) (start : Span) → Goes free k (import_path {D = D} is_lazy start)
  unfolding import_path
  import_path-Goes is_lazy start =
      step free k _ _ (Goes-free moving k _ (expect_ident-Goes k _)) (λ first.
        step free k _ _ (repeat-Goes k _ first path_round-Goes)
          (λ path. search goes depth 30 fits 4000))

  lazy_import-Goes : (start : Span) → Goes free k (lazy_import {D = D} start)
  unfolding lazy_import
  lazy_import-Goes start = step free k _ _ (expect-Goes k _ _) (λ u. import_path-Goes true start)

module _ {D : Type 0} (k : ℕ) (c : Calls D) (s : Served k c) where
  binding-Goes :
      (node : Text → Option TypeAnnot → Expr D → Span → Stmt D) (what : Text) (start : Span)
      → Goes free k (binding c node what start)
  unfolding binding
  binding-Goes node what start = search goes depth 30 fits 4000

  callable-Goes :
      (node : Text → List Param → Option TypeAnnot → Expr D → Span → Stmt D) (what : Text)
      (start : Span)
      → Goes free k (callable c node what start)
  unfolding callable
  callable-Goes node what start =
      step free k _ _ (Goes-free moving k _ (expect_ident-Goes k _)) (λ name.
        step free k _ _ (parse_params-Goes k c s)
          (λ ps. step free k _ _ (return_type-Goes k c s) (λ ret. search goes depth 30 fits 4000)))

  type_field-Goes : Goes free k (type_field c)
  unfolding type_field
  type_field-Goes = search goes depth 30 fits 4000

  parse_type_def-Goes : (start : Span) → Goes free k (parse_type_def c start)
  unfolding parse_type_def
  parse_type_def-Goes start =
      step free k _ _ (Goes-free moving k _ (expect_ident-Goes k _)) (λ name.
        step free k _ _ (parse_type_params-Goes k)
          (λ ps. search (goes, type_field-Goes) depth 30 fits 4000))

  variant_fields-Goes : (b : Bool) → Goes free k (variant_fields c b)
  variant_fields-Goes true = search goes depth 30 fits 4000
  variant_fields-Goes false = pure-Goes k _

  variant_def-Goes : Goes free k (variant_def c)
  unfolding variant_def
  variant_def-Goes = search (goes, variant_fields-Goes) depth 30 fits 4000

  parse_enum_def-Goes : (start : Span) → Goes free k (parse_enum_def c start)
  unfolding parse_enum_def
  parse_enum_def-Goes start =
      step free k _ _ (Goes-free moving k _ (expect_ident-Goes k _)) (λ name.
        step free k _ _ (parse_type_params-Goes k)
          (λ ps. search (goes, variant_def-Goes) depth 30 fits 4000))

  parse_actor_def-Goes : (start : Span) → Goes free k (parse_actor_def c start)
  unfolding parse_actor_def
  parse_actor_def-Goes start = search goes depth 30 fits 4000

-- What is asked of `parse_expr(0)`.
pub record Leading {D : Type 0} (k : ℕ) (expr : Parse D (Expr D)) : Type 0 where
  pub moves : Goes moving (suc k) expr
  pub strict :
      (p : Parser D) → IsLeading p.here.kind → IsPlain p → left p < suc k → GoodStrict p (expr p)

module _ {D : Type 0} (k : ℕ) (c : Calls D) (s : Served k c) (expr : Parse D (Expr D))
    (x : Leading k expr) where
  expr_stmt-Goes : Goes moving (suc k) (parse_expr_stmt expr)
  unfolding parse_expr_stmt
  expr_stmt-Goes = step_moving moving k _ _ (λ a. omega arith) x.moves (λ e. search goes depth 30)

  expr_stmt-Strict :
      (p : Parser D)
      → IsLeading p.here.kind
      → IsPlain p
      → left p < suc k
      → GoodStrict p (parse_expr_stmt expr p)
  unfolding parse_expr_stmt ◌>>=◌
  expr_stmt-Strict p h w l = strict_then k p _ _ l (x.strict p h w l) (λ e. search goes depth 30)

  -- A token looked ahead at is some token.
  peeked :
      {A : Type 0} (Q : Option (Result A × Parser D) → Type 0) (n : ℕ) (f : TokenKind D → Parse D A)
      (p : Parser D)
      → ((kind : TokenKind D) → Q (f kind p))
      → Q ((peek_after n >>= f) p)
  unfolding peek_after ◌>>=◌
  peeked {A = A} Q n f p h =
      option_both (λ (o : Option (Result (TokenKind D) × Parser D)). Q (and_then o f))
        (get_elem? p.after n) (h eof) (λ t. h t.kind)

  shared_stmt-Strict :
      (start : Span) (p : Parser D)
      → p.here.kind ≡ keyword shared_kw
      → IsPlain p
      → left p < suc k
      → GoodStrict p (shared_stmt c expr start p)
  unfolding shared_stmt discriminant
  shared_stmt-Strict start p e w l = peeked (GoodStrict p) 0 _ p (λ one.
      peeked (GoodStrict p) 1 _ p (λ two.
        if_both (λ (m : Parse D (Stmt D)). GoodStrict p (m p)) (shared_is_decl one two)
          (bump-strict k _ p (binding-Goes k c s _ _ start) w l (ap (λ y. same_kind y eof) e))
          (expr_stmt-Strict p (subst IsLeading (sym e) tt) w l)))

  fn_stmt-Strict :
      (start : Span) (p : Parser D)
      → p.here.kind ≡ keyword fn_kw
      → IsPlain p
      → left p < suc k
      → GoodStrict p (fn_stmt c expr start p)
  unfolding fn_stmt discriminant
  fn_stmt-Strict start p e w l = peeked (GoodStrict p) 0 _ p (λ one.
      if_both (λ (m : Parse D (Stmt D)). GoodStrict p (m p)) (is_ident one)
        (bump-strict k _ p (callable-Goes k c s _ _ start) w l (ap (λ y. same_kind y eof) e))
        (expr_stmt-Strict p (subst IsLeading (sym e) tt) w l))

  stmt_of-Strict :
      (start : Span) (kind : TokenKind D) (p : Parser D)
      → p.here.kind ≡ kind
      → starts_stmt kind ≡ true
      → IsPlain p
      → left p < suc k
      → GoodStrict p (stmt_of c expr start kind p)
  unfolding stmt_of discriminant
  stmt_of-Strict start (keyword let_kw) p e h w l =
      bump-strict k _ p (binding-Goes k c s _ _ start) w l (ap (λ y. same_kind y eof) e)
  stmt_of-Strict start (keyword shared_kw) p e h w l = shared_stmt-Strict start p e w l
  stmt_of-Strict start (keyword fn_kw) p e h w l = fn_stmt-Strict start p e w l
  stmt_of-Strict start (keyword type_kw) p e h w l =
      bump-strict k _ p (parse_type_def-Goes k c s start) w l (ap (λ y. same_kind y eof) e)
  stmt_of-Strict start (keyword enum_kw) p e h w l =
      bump-strict k _ p (parse_enum_def-Goes k c s start) w l (ap (λ y. same_kind y eof) e)
  stmt_of-Strict start (keyword actor_kw) p e h w l =
      bump-strict k _ p (parse_actor_def-Goes k c s start) w l (ap (λ y. same_kind y eof) e)
  stmt_of-Strict start (keyword import_kw) p e h w l =
      bump-strict k _ p (import_path-Goes k false start) w l (ap (λ y. same_kind y eof) e)
  stmt_of-Strict start (keyword lazy_kw) p e h w l =
      bump-strict k _ p (lazy_import-Goes k start) w l (ap (λ y. same_kind y eof) e)
  stmt_of-Strict start (keyword state_kw) p e h w l =
      bump-strict k _ p (binding-Goes k c s _ _ start) w l (ap (λ y. same_kind y eof) e)
  stmt_of-Strict start (keyword on_kw) p e h w l =
      bump-strict k _ p (callable-Goes k c s _ _ start) w l (ap (λ y. same_kind y eof) e)
  stmt_of-Strict start _ p e h w l = absurd (ground (arith, h))

  other-Good :
      (start : Span) (kind : TokenKind D) (p : Parser D)
      → starts_stmt kind ≡ false
      → IsPlain p
      → left p < suc k
      → Good moving p (stmt_of c expr start kind p)
  unfolding stmt_of
  other-Good start (keyword let_kw) p h w l = absurd (ground (arith, h))
  other-Good start (keyword shared_kw) p h w l = absurd (ground (arith, h))
  other-Good start (keyword fn_kw) p h w l = absurd (ground (arith, h))
  other-Good start (keyword type_kw) p h w l = absurd (ground (arith, h))
  other-Good start (keyword enum_kw) p h w l = absurd (ground (arith, h))
  other-Good start (keyword actor_kw) p h w l = absurd (ground (arith, h))
  other-Good start (keyword import_kw) p h w l = absurd (ground (arith, h))
  other-Good start (keyword lazy_kw) p h w l = absurd (ground (arith, h))
  other-Good start (keyword state_kw) p h w l = absurd (ground (arith, h))
  other-Good start (keyword on_kw) p h w l = absurd (ground (arith, h))
  other-Good start _ p h w l = expr_stmt-Goes.at p w l

  stmt_of-Good :
      (start : Span) (kind : TokenKind D) (p : Parser D)
      → p.here.kind ≡ kind
      → (starts_stmt kind ≡ true) ⊎ (starts_stmt kind ≡ false)
      → IsPlain p
      → left p < suc k
      → Good moving p (stmt_of c expr start kind p)
  stmt_of-Good start kind p e (inl h) w l =
      Good-strict moving p _ (λ a. omega arith) (stmt_of-Strict start kind p e h w l)
  stmt_of-Good start kind p e (inr h) w l = other-Good start kind p h w l

  pub parse_stmt-Statement : Statement (suc k) (parse_stmt c expr)
  unfolding parse_stmt span_here peek ◌>>=◌
  parse_stmt-Statement = record {
    run = λ p w l.
        stmt_of-Good p.here.span p.here.kind p refl (Bool-cases (starts_stmt p.here.kind)) w l;
    strict = λ p w l h. stmt_of-Strict p.here.span p.here.kind p refl h w l;
  }

  semicolon_round-Goes : (j : ℕ) → Goes advancing j (semicolon_round c expr)
  unfolding semicolon_round discriminant
  semicolon_round-Goes j =
      if-bump-Goes advancing j semicolon _ _ advancing_le refl (pure-Goes j _) (finish-Goes j tt)

  list_of-Good :
      (top_level : Bool) (done : List (Stmt D)) (p : Parser D)
      → IsPlain p
      → left p < suc k
      → Good advancing p (list_of c expr top_level done p.here.kind p)
  unfolding attempt ◌>>=◌ keep_going
  list_of-Good top_level done p w l =
      if_cases Q (same_kind p.here.kind eof) (λ e. stop.at p w l)
        (λ here.
          if_cases Q (not top_level && same_kind p.here.kind r_brace) (λ e. stop.at p w l)
            (λ inside. Good-strict advancing p _ advancing_le (
              attempted-Strict (suc k) top_level (again done) (keep_going c expr top_level done) p
                (parse_stmt c expr p) (omega arith)
                (elim (Bool-cases (starts_stmt p.here.kind)) [
                  | inl h ↦ inr (parse_stmt-Statement.strict p w l h)
                  | inr h ↦ inl (here, inside, h)
                ])
                (parse_stmt-Statement.run p w l) (λ a. pure-Goes (suc k) _) (λ e. refl))))
    where
      Q : Parse D (Round (List (Stmt D)) (List (Stmt D))) → Type 0
      Q m = Good advancing p (m p)

      stop : Goes (advancing {S = List (Stmt D)}) (suc k) (pure {D = D} (finish done))
      stop = finish-Goes (suc k) done

  listed-Goes :
      (top_level : Bool) (done : List (Stmt D))
      → Goes advancing (suc k) (peek >>= λ here. list_of c expr top_level done here)
  unfolding peek ◌>>=◌
  listed-Goes top_level done = record { at = λ p w l. list_of-Good top_level done p w l }

  list_round-Goes :
      (top_level : Bool) (done : List (Stmt D))
      → Goes advancing (suc k) (list_round c expr top_level done)
  unfolding list_round
  list_round-Goes top_level done =
      step advancing (suc k) _ _ (repeat-Goes (suc k) _ tt (λ u. semicolon_round-Goes (suc k)))
        (λ u. listed-Goes top_level done)

  pub parse_stmt_list-Goes :
      (top_level : Bool) → Goes free (suc k) (parse_stmt_list c expr top_level)
  unfolding parse_stmt_list
  parse_stmt_list-Goes top_level = repeat-Goes (suc k) _ [] (list_round-Goes top_level)

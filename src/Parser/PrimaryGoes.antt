-- ===== src/Parser/PrimaryGoes.antt =====
-- src/parser/mod.rs: operands consume tokens and return.
use y.Prelude.{ℕ, suc, ◌<◌, ◌≡◌, refl, Bool, true, false, arith, Text, List}
use y.Source.{Span}
use y.Parser.State.{Parser, ParserLibrary, discriminant, same_kind}
use y.Parser.Calls.{Calls}
use y.Parser.Goes.{
  Goes, Good, GoodStrict, free, moving, advancing, advancing_le, pure-Goes, finish-Goes, fail-Goes,
  step_moving, IsPlain, IsPlainKind, left, plain_here,
}
use y.Parser.CursorGoes.{bump-strict, consumed}
use y.Parser.LoopsGoes.{repeat-Goes, strict_then}
use y.Parser.Served.{Served, goes}
use y.Lexer.Token.{
  TokenKind, int, decimal, str, ident, keyword, true_kw, false_kw, nil_kw, if_kw, match_kw, fn_kw,
  raise_kw, return_kw, reply_kw, yield_kw, await_kw, shared_kw, transact_kw, retry_kw, try_kw,
  while_kw, for_kw, loop_kw, break_kw, continue_kw, spawn_kw, not_kw, l_paren, l_brace, l_bracket,
  hash_brace, dot, minus, eof,
}
use y.Ast.Types.{UnaryOp}
use y.Ast.Tree.{Expr, OptExpr}
use y.Parser.Cursor.{◌>>=◌, peek, span_here}
use y.Parser.Recovery.{Statement}
use y.Parser.ControlGoes.{
  if_rest-Goes, parse_while-Goes, parse_for-Goes, parse_lambda-Goes, parse_try-Goes,
  parse_match-Goes,
}
use y.Parser.PatternsGoes.{build_string-Goes}
use y.Parser.BracesGoes.{parse_paren-Goes, parse_brace_expr-Goes}
use y.Parser.Control.{parse_if}
use y.Parser.Primary.{
  parse_args, collection, keyword_expr, keyword_alone, keyword_value, value_unless, parse_spawn,
  primary_of, parse_primary, call_rest, index_rest, member_name, method_rest, field_rest,
  member_rest, postfix_of, postfix_round, parse_postfix, unary_rest, prefix_of, parse_prefix,
}

-- A keyword that begins both statements and expressions.
abbrev pub IsLeading : {D : Type 0} → TokenKind D → Type 0
IsLeading (keyword shared_kw) = Unit
IsLeading (keyword fn_kw) = Unit
IsLeading _ = ⊥

module _ {D : Type 0} (lib : ParserLibrary D) (k : ℕ) (c : Calls D) (s : Served k c)
    (t : Statement k c.parse_stmt) where
  parse_args-Goes : Goes free k (parse_args c)
  unfolding parse_args
  parse_args-Goes = search goes depth 30 fits 4000

  collection-Goes :
      (closing : TokenKind D) (what : Text) (node : List (Expr D) → Span → Expr D) (start : Span)
      → Goes free k (collection c closing what node start)
  unfolding collection
  collection-Goes closing what node start = search goes depth 30 fits 4000

  keyword_expr-Goes :
      (node : Expr D → Span → Expr D) (start : Span) → Goes free k (keyword_expr c node start)
  unfolding keyword_expr
  keyword_expr-Goes node start = search goes depth 30 fits 4000

  keyword_alone-Goes :
      (node : Span → Expr D) (start : Span) → Goes free k (keyword_alone c node start)
  unfolding keyword_alone
  keyword_alone-Goes node start = search goes depth 30 fits 4000

  value_unless-Goes : (b : Bool) → Goes free k (value_unless c b)
  value_unless-Goes true = pure-Goes k _
  value_unless-Goes false = search goes depth 30 fits 4000

  keyword_value-Goes :
      (node : OptExpr D → Span → Expr D) (start : Span) → Goes free k (keyword_value c node start)
  unfolding keyword_value
  keyword_value-Goes node start = search (goes, value_unless-Goes) depth 30 fits 4000

  parse_spawn-Goes : (start : Span) → Goes free k (parse_spawn c start)
  unfolding parse_spawn
  parse_spawn-Goes start = search (goes, parse_args-Goes) depth 30 fits 4000

  primary_of-Good :
      (start : Span) (kind : TokenKind D) (p : Parser D)
      → p.here.kind ≡ kind
      → IsPlain p
      → IsPlainKind kind
      → left p < suc k
      → Good moving p (primary_of lib c start kind p)
  unfolding primary_of discriminant parse_if
  primary_of-Good start (int n) p e w h l =
      consumed moving k (int n) _ p (λ a. omega arith) e refl (pure-Goes k _) w l
  primary_of-Good start (decimal d) p e w h l =
      consumed moving k (decimal d) _ p (λ a. omega arith) e refl (pure-Goes k _) w l
  primary_of-Good start (str parts) p e w h l =
      consumed moving k (str parts) _ p (λ a. omega arith) e refl
        (build_string-Goes lib k c parts start h) w l
  primary_of-Good start (keyword true_kw) p e w h l =
      consumed moving k (keyword true_kw) _ p (λ a. omega arith) e refl (pure-Goes k _) w l
  primary_of-Good start (keyword false_kw) p e w h l =
      consumed moving k (keyword false_kw) _ p (λ a. omega arith) e refl (pure-Goes k _) w l
  primary_of-Good start (keyword nil_kw) p e w h l =
      consumed moving k (keyword nil_kw) _ p (λ a. omega arith) e refl (pure-Goes k _) w l
  primary_of-Good start (ident name) p e w h l =
      consumed moving k (ident name) _ p (λ a. omega arith) e refl (pure-Goes k _) w l
  primary_of-Good start l_paren p e w h l =
      consumed moving k l_paren _ p (λ a. omega arith) e refl (parse_paren-Goes k c s t start) w l
  primary_of-Good start l_bracket p e w h l =
      consumed moving k l_bracket _ p (λ a. omega arith) e refl (collection-Goes _ _ _ start) w l
  primary_of-Good start hash_brace p e w h l =
      consumed moving k hash_brace _ p (λ a. omega arith) e refl (collection-Goes _ _ _ start) w l
  primary_of-Good start l_brace p e w h l =
      consumed moving k l_brace _ p (λ a. omega arith) e refl (parse_brace_expr-Goes k c s t start)
        w l
  primary_of-Good start (keyword if_kw) p e w h l =
      consumed moving k (keyword if_kw) _ p (λ a. omega arith) e refl (if_rest-Goes k c s start) w l
  primary_of-Good start (keyword match_kw) p e w h l =
      consumed moving k (keyword match_kw) _ p (λ a. omega arith) e refl
        (parse_match-Goes k c s start) w l
  primary_of-Good start (keyword fn_kw) p e w h l =
      consumed moving k (keyword fn_kw) _ p (λ a. omega arith) e refl
        (parse_lambda-Goes k c s start) w l
  primary_of-Good start (keyword raise_kw) p e w h l =
      consumed moving k (keyword raise_kw) _ p (λ a. omega arith) e refl (keyword_expr-Goes _ start)
        w l
  primary_of-Good start (keyword return_kw) p e w h l =
      consumed moving k (keyword return_kw) _ p (λ a. omega arith) e refl
        (keyword_value-Goes _ start) w l
  primary_of-Good start (keyword reply_kw) p e w h l =
      consumed moving k (keyword reply_kw) _ p (λ a. omega arith) e refl (keyword_expr-Goes _ start)
        w l
  primary_of-Good start (keyword yield_kw) p e w h l =
      consumed moving k (keyword yield_kw) _ p (λ a. omega arith) e refl
        (keyword_alone-Goes _ start) w l
  primary_of-Good start (keyword await_kw) p e w h l =
      consumed moving k (keyword await_kw) _ p (λ a. omega arith) e refl (keyword_expr-Goes _ start)
        w l
  primary_of-Good start (keyword shared_kw) p e w h l =
      consumed moving k (keyword shared_kw) _ p (λ a. omega arith) e refl
        (keyword_expr-Goes _ start) w l
  primary_of-Good start (keyword transact_kw) p e w h l =
      consumed moving k (keyword transact_kw) _ p (λ a. omega arith) e refl
        (keyword_expr-Goes _ start) w l
  primary_of-Good start (keyword retry_kw) p e w h l =
      consumed moving k (keyword retry_kw) _ p (λ a. omega arith) e refl
        (keyword_alone-Goes _ start) w l
  primary_of-Good start (keyword try_kw) p e w h l =
      consumed moving k (keyword try_kw) _ p (λ a. omega arith) e refl (parse_try-Goes k c s start)
        w l
  primary_of-Good start (keyword while_kw) p e w h l =
      consumed moving k (keyword while_kw) _ p (λ a. omega arith) e refl
        (parse_while-Goes k c s start) w l
  primary_of-Good start (keyword for_kw) p e w h l =
      consumed moving k (keyword for_kw) _ p (λ a. omega arith) e refl (parse_for-Goes k c s start)
        w l
  primary_of-Good start (keyword loop_kw) p e w h l =
      consumed moving k (keyword loop_kw) _ p (λ a. omega arith) e refl (keyword_expr-Goes _ start)
        w l
  primary_of-Good start (keyword break_kw) p e w h l =
      consumed moving k (keyword break_kw) _ p (λ a. omega arith) e refl
        (keyword_value-Goes _ start) w l
  primary_of-Good start (keyword continue_kw) p e w h l =
      consumed moving k (keyword continue_kw) _ p (λ a. omega arith) e refl
        (keyword_alone-Goes _ start) w l
  primary_of-Good start (keyword spawn_kw) p e w h l =
      consumed moving k (keyword spawn_kw) _ p (λ a. omega arith) e refl (parse_spawn-Goes start) w
        l
  primary_of-Good start other p e w h l = (fail-Goes moving (suc k) _).at p w l

  parse_primary-Goes : Goes moving (suc k) (parse_primary lib c)
  unfolding parse_primary span_here peek ◌>>=◌
  parse_primary-Goes = record {
    at = λ p w l. primary_of-Good p.here.span p.here.kind p refl w (plain_here p w) l;
  }

  call_rest-Goes : (lhs : Expr D) → Goes free k (call_rest lib c lhs)
  unfolding call_rest
  call_rest-Goes lhs = search (goes, parse_args-Goes) depth 30 fits 4000

  index_rest-Goes : (lhs : Expr D) → Goes free k (index_rest lib c lhs)
  unfolding index_rest
  index_rest-Goes lhs = search goes depth 30 fits 4000

  member_name-Goes : (here : TokenKind D) → Goes free k (member_name lib c here)
  unfolding member_name
  member_name-Goes (ident x) = search goes depth 30
  member_name-Goes (keyword kw) = search goes depth 30
  member_name-Goes other = search goes depth 30

  method_rest-Goes : (lhs : Expr D) (name : Text) → Goes free k (method_rest lib c lhs name)
  unfolding method_rest
  method_rest-Goes lhs name = search (goes, parse_args-Goes) depth 30 fits 4000

  field_rest-Goes : (lhs : Expr D) (name : Text) → Goes free k (field_rest lib c lhs name)
  unfolding field_rest
  field_rest-Goes lhs name = search goes depth 30 fits 4000

  member_rest-Goes : (lhs : Expr D) → Goes free k (member_rest lib c lhs)
  unfolding member_rest
  member_rest-Goes lhs =
      search (goes, member_name-Goes, method_rest-Goes, field_rest-Goes) depth 30 fits 4000

  postfix_of-Good :
      (lhs : Expr D) (kind : TokenKind D) (p : Parser D)
      → p.here.kind ≡ kind
      → IsPlain p
      → left p < k
      → Good advancing p (postfix_of lib c lhs kind p)
  unfolding postfix_of discriminant
  postfix_of-Good lhs l_paren p e w l =
      consumed advancing k l_paren _ p advancing_le e refl (call_rest-Goes lhs) w (omega arith)
  postfix_of-Good lhs l_bracket p e w l =
      consumed advancing k l_bracket _ p advancing_le e refl (index_rest-Goes lhs) w (omega arith)
  postfix_of-Good lhs dot p e w l =
      consumed advancing k dot _ p advancing_le e refl (member_rest-Goes lhs) w (omega arith)
  postfix_of-Good lhs _ p e w l = (finish-Goes k lhs).at p w l

  postfix_round-Goes : (lhs : Expr D) → Goes advancing k (postfix_round lib c lhs)
  unfolding postfix_round peek ◌>>=◌
  postfix_round-Goes lhs = record { at = λ p w l. postfix_of-Good lhs p.here.kind p refl w l }

  parse_postfix-Goes : Goes moving (suc k) (parse_postfix lib c)
  unfolding parse_postfix
  parse_postfix-Goes =
      step_moving moving k _ _ (λ a. omega arith) parse_primary-Goes
        (λ lhs. repeat-Goes k _ lhs postfix_round-Goes)

  unary_rest-Goes : (op : UnaryOp) (start : Span) → Goes free k (unary_rest lib c op start)
  unfolding unary_rest
  unary_rest-Goes op start = search goes depth 30 fits 4000

  prefix_of-Good :
      (start : Span) (kind : TokenKind D) (p : Parser D)
      → p.here.kind ≡ kind
      → IsPlain p
      → left p < suc k
      → Good moving p (prefix_of lib c start kind p)
  unfolding prefix_of discriminant
  prefix_of-Good start minus p e w l =
      consumed moving k minus _ p (λ a. omega arith) e refl (unary_rest-Goes UnaryOp.neg start) w l
  prefix_of-Good start (keyword not_kw) p e w l =
      consumed moving k (keyword not_kw) _ p (λ a. omega arith) e refl
        (unary_rest-Goes UnaryOp.not start) w l
  prefix_of-Good start _ p e w l = parse_postfix-Goes.at p w l

  pub parse_prefix-Goes : Goes moving (suc k) (parse_prefix lib c)
  unfolding parse_prefix span_here peek ◌>>=◌
  parse_prefix-Goes = record { at = λ p w l. prefix_of-Good p.here.span p.here.kind p refl w l }

  parse_postfix-Strict :
      (p : Parser D)
      → left p < suc k
      → GoodStrict p (parse_primary lib c p)
      → GoodStrict p (parse_postfix lib c p)
  unfolding parse_postfix ◌>>=◌
  parse_postfix-Strict p l g =
      strict_then k p _ _ l g (λ lhs. repeat-Goes k _ lhs postfix_round-Goes)

  -- `shared` and `fn` in front of an expression are consumed, even if an error follows.
  primary-Strict :
      (kind : TokenKind D) (p : Parser D)
      → IsLeading kind
      → IsPlain p
      → left p < suc k
      → same_kind p.here.kind eof ≡ false
      → GoodStrict p (primary_of lib c p.here.span kind p)
  unfolding primary_of
  primary-Strict (keyword shared_kw) p h w l e =
      bump-strict k _ p (keyword_expr-Goes _ p.here.span) w l e
  primary-Strict (keyword fn_kw) p h w l e =
      bump-strict k _ p (parse_lambda-Goes k c s p.here.span) w l e
  primary-Strict _ p h w l e = absurd h

  leading-goes_on : (kind : TokenKind D) → IsLeading kind → same_kind kind eof ≡ false
  unfolding discriminant
  leading-goes_on (keyword kw) h = refl
  leading-goes_on _ h = absurd h

  parse_primary-Strict :
      (p : Parser D)
      → IsLeading p.here.kind
      → IsPlain p
      → left p < suc k
      → GoodStrict p (parse_primary lib c p)
  unfolding parse_primary span_here peek ◌>>=◌
  parse_primary-Strict p h w l = primary-Strict p.here.kind p h w l (leading-goes_on p.here.kind h)

  prefix-Strict :
      (kind : TokenKind D) (start : Span) (p : Parser D)
      → IsLeading kind
      → left p < suc k
      → GoodStrict p (parse_primary lib c p)
      → GoodStrict p (prefix_of lib c start kind p)
  unfolding prefix_of
  prefix-Strict (keyword shared_kw) start p h l g = parse_postfix-Strict p l g
  prefix-Strict (keyword fn_kw) start p h l g = parse_postfix-Strict p l g
  prefix-Strict _ start p h l g = absurd h

  pub parse_prefix-Strict :
      (p : Parser D)
      → IsLeading p.here.kind
      → IsPlain p
      → left p < suc k
      → GoodStrict p (parse_prefix lib c p)
  unfolding parse_prefix span_here peek ◌>>=◌
  parse_prefix-Strict p h w l =
      prefix-Strict p.here.kind p.here.span p h l (parse_primary-Strict p h w l)

-- ===== src/Parser/AnnotationsGoes.antt =====
-- src/parser/mod.rs: the parsers of type annotations and parameters consume tokens and return.
use y.Prelude.{ℕ, suc, refl, arith, Text, List, []}
use y.Source.{Span}
use y.Parser.State.{discriminant}
use y.Parser.Calls.{Calls}
use y.Parser.Goes.{
  Goes, free, moving, advancing, advancing_le, Goes-free, pure-Goes, finish-Goes, step, step_moving,
  span_here-Goes,
}
use y.Parser.CursorGoes.{expect_ident-Goes, eat_kw-Goes, if-bump-Goes}
use y.Parser.LoopsGoes.{Goes-less, repeat-Goes}
use y.Parser.Served.{Served, goes}
use y.Ast.Types.{TypeAnnot}
use y.Lexer.Token.{pipe2, fn_kw}
use y.Parser.Cursor.{expect_ident, span_here}
use y.Parser.Annotations.{
  fn_type, generic_type, type_atom, next_variant, variant_round, union_type, parse_type, param,
  parse_params, return_type, some_type_params, parse_type_params,
}

module _ {D : Type 0} (k : ℕ) (c : Calls D) (s : Served k c) where
  fn_type-Goes : Goes free k (fn_type c)
  unfolding fn_type
  fn_type-Goes = search goes depth 30 fits 4000

  generic_type-Goes : (name : Text) (start : Span) → Goes free k (generic_type c name start)
  unfolding generic_type
  generic_type-Goes name start = search goes depth 30 fits 4000

  type_atom-Goes : Goes moving (suc k) (type_atom c)
  unfolding type_atom
  type_atom-Goes = step moving (suc k) span_here _ (span_here-Goes (suc k)) (λ start.
      step_moving moving k (expect_ident _) _ (λ a. omega arith) (expect_ident-Goes (suc k) _)
        (λ name. search (goes, generic_type-Goes) depth 30 fits 4000))

  type_atom-free : Goes free k (type_atom c)
  type_atom-free = Goes-less free k _ (Goes-free moving (suc k) _ type_atom-Goes)

  variant_round-Goes : (vs : List TypeAnnot) → Goes advancing k (variant_round c vs)
  unfolding variant_round next_variant discriminant
  variant_round-Goes vs =
      if-bump-Goes advancing k pipe2 _ _ advancing_le refl (search (goes, type_atom-free) depth 30)
        (finish-Goes k vs)

  union_type-Goes : Goes moving (suc k) (union_type c)
  unfolding union_type
  union_type-Goes =
      step_moving moving k (type_atom c) _ (λ a. omega arith) type_atom-Goes
        (λ first. step free k _ _ (repeat-Goes k _ [] variant_round-Goes) (λ others. pure-Goes k _))

  pub parse_type-Goes : Goes moving (suc k) (parse_type c)
  unfolding parse_type
  parse_type-Goes = eat_kw-Goes moving k fn_kw _ (λ a. omega arith) fn_type-Goes union_type-Goes

  param-Goes : Goes free k (param c)
  unfolding param
  param-Goes = search goes depth 30 fits 4000

  pub parse_params-Goes : Goes free k (parse_params c)
  unfolding parse_params
  parse_params-Goes = search (goes, param-Goes) depth 30 fits 4000

  pub return_type-Goes : Goes free k (return_type c)
  unfolding return_type
  return_type-Goes = search goes depth 30 fits 4000

module _ {D : Type 0} (k : ℕ) where
  some_type_params-Goes : Goes free k (some_type_params {D = D})
  unfolding some_type_params
  some_type_params-Goes = search goes depth 30 fits 4000

  pub parse_type_params-Goes : Goes free k (parse_type_params {D = D})
  unfolding parse_type_params
  parse_type_params-Goes = search (goes, some_type_params-Goes) depth 30 fits 4000

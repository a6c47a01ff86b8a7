-- ===== src/Parser/PatternsGoes.antt =====
-- src/parser/mod.rs: the parsers of patterns and of strings without interpolations consume tokens and
-- return.
use y.Prelude.{
  ℕ, suc, ◌<◌, ◌≡◌, refl, Bool, true, false, arith, Text, List, [], ◌∷◌, Option, get_elem?,
}
use y.Prelude.Cases.{option_both}
use y.Source.{Span}
use y.Parser.State.{Result, Parser, ParserLibrary, discriminant, and_then}
use y.Parser.Calls.{Calls}
use y.Parser.Goes.{
  Goes, Good, free, moving, advancing, advancing_le, Goes-free, pure-Goes, finish-Goes, fail-Goes,
  step, step_moving, peek-Goes, IsPlain, IsPlainKind, IsLiteral, left, spend, plain_here,
}
use y.Parser.CursorGoes.{expect_ident-Goes, eat-Goes, if-bump-Goes, consumed}
use y.Parser.LoopsGoes.{Goes-less, repeat-Goes}
use y.Parser.Served.{Served, goes, if_free, pattern_free}
use y.Lexer.Token.{
  TokenKind, StrPart, int, decimal, str, ident, keyword, true_kw, false_kw, nil_kw, l_brace,
  l_bracket, dot_dot, minus, pipe2, underscore, eof,
}
use y.Ast.Tree.{Pattern}
use y.Parser.Cursor.{◌>>=◌, peek, peek_after, span_here}
use y.Parser.Strings.{build_string_parts, build_string}
use y.Parser.Patterns.{
  field_pattern, one_field, field_round, fields_from, struct_pattern, variant_args, variant_pattern,
  named_pattern, rest_name, one_element, element_round, elements_from, vec_pattern, negative,
  str_pattern, atomic_of, parse_pattern_atomic, next_alternative, alternative_round, parse_pattern,
}

module _ {D : Type 0} (lib : ParserLibrary D) (k : ℕ) (c : Calls D) where
  pub build_string_parts-Goes :
      (parts : List StrPart) → IsLiteral parts → Goes free k (build_string_parts lib c parts)
  unfolding build_string_parts
  build_string_parts-Goes [] h = pure-Goes k _
  build_string_parts-Goes (StrPart.literal t ∷ parts) h =
      step free k _ _ (build_string_parts-Goes parts h) (λ more. pure-Goes k _)
  build_string_parts-Goes (StrPart.expr raw span ∷ parts) h = absurd h

  pub build_string-Goes :
      (parts : List StrPart) (start : Span)
      → IsLiteral parts
      → Goes free k (build_string lib c parts start)
  unfolding build_string
  build_string-Goes parts start h =
      step free k _ _ (build_string_parts-Goes parts h) (λ lit. pure-Goes k _)

module _ {D : Type 0} (lib : ParserLibrary D) (k : ℕ) (c : Calls D) (s : Served k c) where
  field_pattern-Goes :
      (name : Text) (start : Span) (b : Bool) → Goes free k (field_pattern lib c name start b)
  unfolding field_pattern
  field_pattern-Goes name start true = pattern_free k c s
  field_pattern-Goes name start false = pure-Goes k _

  one_field-Goes :
      (start : Span) (fields : List (Text × Pattern D))
      → Goes advancing k (one_field lib c start fields false)
  unfolding one_field discriminant
  one_field-Goes start fields =
      spend advancing k _ _ advancing_le (expect_ident-Goes k _)
        (λ name. search (goes, field_pattern-Goes) depth 30 fits 4000)

  field_round-Goes :
      (start : Span) (fields : List (Text × Pattern D))
      → Goes advancing k (field_round lib c start fields)
  unfolding field_round one_field discriminant
  field_round-Goes start fields =
      eat-Goes advancing k dot_dot _ advancing_le refl (pure-Goes k _) (one_field-Goes start fields)

  fields_from-Goes :
      (start : Span) (here : TokenKind D) → Goes free k (fields_from lib c start here)
  fields_from-Goes start here =
      if_free k _ _ _ (pure-Goes k _) (repeat-Goes k _ [] (field_round-Goes start))

  struct_pattern-Goes : (start : Span) → Goes free k (struct_pattern lib c start)
  unfolding struct_pattern
  struct_pattern-Goes start =
      step free k _ _ (peek-Goes k)
        (λ here. step free k _ _ (fields_from-Goes start here) (λ fields. search goes depth 30))

  variant_args-Goes : (b : Bool) → Goes free k (variant_args lib c b)
  unfolding variant_args
  variant_args-Goes true = search goes depth 30 fits 4000
  variant_args-Goes false = pure-Goes k _

  variant_pattern-Goes :
      (name : Text) (start : Span) → Goes free k (variant_pattern lib c name start)
  unfolding variant_pattern
  variant_pattern-Goes name start = search (goes, variant_args-Goes) depth 30 fits 4000

  named_pattern-Goes : (name : Text) (start : Span) → Goes free k (named_pattern lib c name start)
  unfolding named_pattern
  named_pattern-Goes name start =
      search (goes, variant_pattern-Goes, struct_pattern-Goes) depth 30 fits 4000

  rest_name-Goes : (pats : List (Pattern D)) → Goes free k (rest_name lib c pats)
  unfolding rest_name
  rest_name-Goes pats = search goes depth 30 fits 4000

  one_element-Goes : (pats : List (Pattern D)) → Goes advancing k (one_element lib c pats false)
  unfolding one_element
  one_element-Goes pats =
      spend advancing k _ _ advancing_le s.pattern (λ pat. search goes depth 30 fits 4000)

  element_round-Goes : (pats : List (Pattern D)) → Goes advancing k (element_round lib c pats)
  unfolding element_round one_element discriminant
  element_round-Goes pats =
      eat-Goes advancing k dot_dot _ advancing_le refl (rest_name-Goes pats) (one_element-Goes pats)

  elements_from-Goes : (here : TokenKind D) → Goes free k (elements_from lib c here)
  elements_from-Goes here = if_free k _ _ _ (pure-Goes k _) (repeat-Goes k _ [] element_round-Goes)

  vec_pattern-Goes : (start : Span) → Goes free k (vec_pattern lib c start)
  unfolding vec_pattern
  vec_pattern-Goes start =
      step free k _ _ (peek-Goes k)
        (λ here. step free k _ _ (elements_from-Goes here) (λ pats. search goes depth 30))

  negative-Good :
      (start : Span) (behind : TokenKind D) (p : Parser D)
      → p.here.kind ≡ minus
      → IsPlain p
      → left p < suc k
      → Good moving p (negative lib c start behind p)
  unfolding discriminant
  negative-Good start (int n) p e w l =
      consumed moving k minus _ p (λ a. omega arith) e refl (search goes depth 10) w l
  negative-Good start (decimal d) p e w l =
      consumed moving k minus _ p (λ a. omega arith) e refl (search goes depth 10) w l
  negative-Good start _ p e w l = (fail-Goes moving (suc k) _).at p w l

  str_pattern-Goes :
      (parts : List StrPart) (start : Span)
      → IsLiteral parts
      → Goes free k (str_pattern lib c parts start)
  unfolding str_pattern
  str_pattern-Goes parts start h =
      step free k _ _ (build_string_parts-Goes lib k c parts h) (λ lit. pure-Goes k _)

  atomic_of-Good :
      (start : Span) (kind : TokenKind D) (p : Parser D)
      → p.here.kind ≡ kind
      → IsPlain p
      → IsPlainKind kind
      → left p < suc k
      → Good moving p (atomic_of lib c start kind p)
  unfolding atomic_of discriminant peek_after ◌>>=◌
  atomic_of-Good start underscore p e w h l =
      consumed moving k underscore _ p (λ a. omega arith) e refl (pure-Goes k _) w l
  atomic_of-Good start (int n) p e w h l =
      consumed moving k (int n) _ p (λ a. omega arith) e refl (pure-Goes k _) w l
  atomic_of-Good start (decimal d) p e w h l =
      consumed moving k (decimal d) _ p (λ a. omega arith) e refl (pure-Goes k _) w l
  atomic_of-Good start (str parts) p e w h l =
      consumed moving k (str parts) _ p (λ a. omega arith) e refl (str_pattern-Goes parts start h) w
        l
  atomic_of-Good start (keyword true_kw) p e w h l =
      consumed moving k (keyword true_kw) _ p (λ a. omega arith) e refl (pure-Goes k _) w l
  atomic_of-Good start (keyword false_kw) p e w h l =
      consumed moving k (keyword false_kw) _ p (λ a. omega arith) e refl (pure-Goes k _) w l
  atomic_of-Good start (keyword nil_kw) p e w h l =
      consumed moving k (keyword nil_kw) _ p (λ a. omega arith) e refl (pure-Goes k _) w l
  atomic_of-Good start minus p e w h l =
      option_both
        (λ (o : Option (Result (TokenKind D) × Parser D)).
          Good moving p (and_then o (negative lib c start)))
        (get_elem? p.after 0) (negative-Good start eof p e w l)
        (λ t. negative-Good start t.kind p e w l)
  atomic_of-Good start (ident name) p e w h l =
      consumed moving k (ident name) _ p (λ a. omega arith) e refl (named_pattern-Goes name start) w
        l
  atomic_of-Good start l_bracket p e w h l =
      consumed moving k l_bracket _ p (λ a. omega arith) e refl (vec_pattern-Goes start) w l
  atomic_of-Good start l_brace p e w h l =
      consumed moving k l_brace _ p (λ a. omega arith) e refl (struct_pattern-Goes start) w l
  atomic_of-Good start other p e w h l = (fail-Goes moving (suc k) _).at p w l

  parse_pattern_atomic-Goes : Goes moving (suc k) (parse_pattern_atomic lib c)
  unfolding parse_pattern_atomic span_here peek ◌>>=◌
  parse_pattern_atomic-Goes = record {
    at = λ p w l. atomic_of-Good p.here.span p.here.kind p refl w (plain_here p w) l;
  }

  alternative_round-Goes :
      (alts : List (Pattern D)) → Goes advancing k (alternative_round lib c alts)
  unfolding alternative_round next_alternative discriminant
  alternative_round-Goes alts =
      if-bump-Goes advancing k pipe2 _ _ advancing_le refl
        (step free k _ _ (Goes-less free k _ (Goes-free moving (suc k) _ parse_pattern_atomic-Goes))
          (λ p. pure-Goes k _))
        (finish-Goes k alts)

  pub parse_pattern-Goes : Goes moving (suc k) (parse_pattern lib c)
  unfolding parse_pattern
  parse_pattern-Goes =
      step_moving moving k _ _ (λ a. omega arith) parse_pattern_atomic-Goes
        (λ first.
          step free k _ _ (repeat-Goes k _ [] alternative_round-Goes) (λ others. pure-Goes k _))

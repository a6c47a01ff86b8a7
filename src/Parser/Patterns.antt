-- ===== src/Parser/Patterns.antt =====
-- src/parser/mod.rs: patterns.
use y.Prelude.{if◌then◌else◌, Text, codes, Bool, true, false, List, [], ◌∷◌, ◌++◌}
use y.Prelude.Loop.{Round, again, finish}
use y.Source.{Span, union}
use y.Lexer.Token.{
  TokenKind, describe, int, decimal, str, ident, keyword, true_kw, false_kw, nil_kw, l_paren,
  r_paren, l_brace, r_brace, l_bracket, r_bracket, comma, colon, dot_dot, minus, pipe2, underscore,
}
use y.Ast.Types.{pos, negated}
use y.Ast.Tree.{Pattern, int_lit, decimal_lit, str_lit, bool_lit, nil_lit, patterns, field_patterns}
use y.Ast.Spans.{pattern_span}
use y.Parser.State.{Parse, ParserLibrary, pure, same_kind, is_ident}
use y.Parser.Cursor.{
  ◌>>=◌, ◌>>◌, peek, peek_after, span_here, bump, eat, expect, expect_ident, error_at, up_to_here,
  repeat, items_until,
}
use y.Parser.Calls.{Calls}
use y.Parser.Strings.{build_string_parts}

-- The span of the last pattern, or of the first one.
abbrev pub last_pattern : {D : Type 0} → Pattern D → List (Pattern D) → Pattern D
last_pattern p [] = p
last_pattern p (q ∷ qs) = last_pattern q qs

abbrev pub or_of : {D : Type 0} → Pattern D → List (Pattern D) → Pattern D
or_of first [] = first
or_of first (p ∷ ps) =
    Pattern.or (patterns (first ∷ p ∷ ps))
      (union (pattern_span first) (pattern_span (last_pattern p ps)))

-- The patterns read so far, and whether `..` ends them.
abbrev pub Partial : Type 0 → Type 0
Partial A = List A × Bool

abbrev pub after_item : {A : Type 0} → List A → Bool → Round (List A) (Partial A)
after_item items true = again items
after_item items false = finish (items, false)

-- `name.chars().next().map(|c| c.is_uppercase()).unwrap_or(false)`
abbrev pub starts_uppercase : {D : Type 0} → ParserLibrary D → Text → Bool
starts_uppercase lib [] = false
starts_uppercase lib (ch ∷ chs) = lib.is_uppercase ch

module _ {D : Type 0} (lib : ParserLibrary D) (c : Calls D) where
  -- A field without a pattern binds its own name.
  unfoldable pub field_pattern : Text → Span → Bool → Parse D (Pattern D)
  field_pattern name start true = c.parse_pattern
  field_pattern name start false = pure (Pattern.bind name start)

  unfoldable pub one_field :
      Span
      → List (Text × Pattern D)
      → Bool
      → Parse D (Round (List (Text × Pattern D)) (Partial (Text × Pattern D)))
  one_field start fields true = pure (finish (fields, true))
  one_field start fields false = do
    name ← expect_ident (codes "field name in struct pattern")
    has_pattern ← eat colon
    pat ← field_pattern name start has_pattern
    more ← eat comma
    pure (after_item (fields ++ (name, pat) ∷ []) more)

  unfoldable pub field_round :
      Span
      → List (Text × Pattern D)
      → Parse D (Round (List (Text × Pattern D)) (Partial (Text × Pattern D)))
  field_round start fields = do is_rest ← eat dot_dot; one_field start fields is_rest

  abbrev pub fields_from : Span → TokenKind D → Parse D (Partial (Text × Pattern D))
  fields_from start here =
      if same_kind here r_brace then pure ([], false) else repeat (field_round start) []

  -- Behind `{`.
  unfoldable pub struct_pattern : Span → Parse D (Pattern D)
  struct_pattern start = do
    here ← peek
    fields ← fields_from start here
    expect r_brace (codes "`}`")
    span ← up_to_here start
    pure (Pattern.struct (field_patterns fields.0) fields.1 span)

  unfoldable pub variant_args : Bool → Parse D (List (Pattern D))
  variant_args true = do
    args ← items_until r_paren c.parse_pattern
    expect r_paren (codes "`)`")
    pure args
  variant_args false = pure []

  unfoldable pub variant_pattern : Text → Span → Parse D (Pattern D)
  variant_pattern name start = do
    has_args ← eat l_paren
    args ← variant_args has_args
    span ← up_to_here start
    pure (Pattern.variant name (patterns args) span)

  abbrev pub uppercase_pattern : Text → Span → TokenKind D → Parse D (Pattern D)
  uppercase_pattern name start here =
      if same_kind here l_brace then bump >> struct_pattern start else variant_pattern name start

  unfoldable pub named_pattern : Text → Span → Parse D (Pattern D)
  named_pattern name start = do
    here ← peek
    if starts_uppercase lib name
        then uppercase_pattern name start here
        else pure (Pattern.bind name start)

  -- The name of the rest is read and dropped.
  unfoldable pub rest_name :
      List (Pattern D) → Parse D (Round (List (Pattern D)) (Partial (Pattern D)))
  rest_name pats = do
    here ← peek
    if is_ident here then bump >> pure (finish (pats, true)) else pure (finish (pats, true))

  unfoldable pub one_element :
      List (Pattern D) → Bool → Parse D (Round (List (Pattern D)) (Partial (Pattern D)))
  one_element pats true = rest_name pats
  one_element pats false = do
    pat ← c.parse_pattern
    more ← eat comma
    pure (after_item (pats ++ pat ∷ []) more)

  unfoldable pub element_round :
      List (Pattern D) → Parse D (Round (List (Pattern D)) (Partial (Pattern D)))
  element_round pats = do is_rest ← eat dot_dot; one_element pats is_rest

  abbrev pub elements_from : TokenKind D → Parse D (Partial (Pattern D))
  elements_from here =
      if same_kind here r_bracket then pure ([], false) else repeat element_round []

  -- Behind `[`.
  unfoldable pub vec_pattern : Span → Parse D (Pattern D)
  vec_pattern start = do
    here ← peek
    pats ← elements_from here
    expect r_bracket (codes "`]`")
    span ← up_to_here start
    pure (Pattern.vec (patterns pats.0) pats.1 span)

  abbrev pub unexpected : Span → TokenKind D → Parse D (Pattern D)
  unexpected start here =
      error_at start (codes "unexpected " ++ (describe here ++ codes " in pattern"))

  abbrev pub negative : Span → TokenKind D → Parse D (Pattern D)
  negative start (int n) = bump >> (bump >> pure (Pattern.lit (int_lit (negated n)) start))
  negative start (decimal d) =
      bump >> (bump >> pure (Pattern.lit (decimal_lit (lib.neg_decimal d)) start))
  negative start _ = unexpected start minus

  unfoldable pub str_pattern : List y.Lexer.Token.StrPart → Span → Parse D (Pattern D)
  str_pattern parts start = do
    lit ← build_string_parts lib c parts
    pure (Pattern.lit (str_lit lit) start)

  unfoldable pub atomic_of : Span → TokenKind D → Parse D (Pattern D)
  atomic_of start underscore = bump >> pure (Pattern.wildcard start)
  atomic_of start (int n) = bump >> pure (Pattern.lit (int_lit (pos n)) start)
  atomic_of start (decimal d) = bump >> pure (Pattern.lit (decimal_lit d) start)
  atomic_of start (str parts) = bump >> str_pattern parts start
  atomic_of start (keyword true_kw) = bump >> pure (Pattern.lit (bool_lit true) start)
  atomic_of start (keyword false_kw) = bump >> pure (Pattern.lit (bool_lit false) start)
  atomic_of start (keyword nil_kw) = bump >> pure (Pattern.lit nil_lit start)
  atomic_of start minus = do behind ← peek_after 0; negative start behind
  atomic_of start (ident name) = bump >> named_pattern name start
  atomic_of start l_bracket = bump >> vec_pattern start
  atomic_of start l_brace = bump >> struct_pattern start
  atomic_of start other = unexpected start other

  unfoldable pub parse_pattern_atomic : Parse D (Pattern D)
  parse_pattern_atomic = do start ← span_here; here ← peek; atomic_of start here

  unfoldable pub next_alternative :
      List (Pattern D) → Parse D (Round (List (Pattern D)) (List (Pattern D)))
  next_alternative alts = do bump; p ← parse_pattern_atomic; pure (again (alts ++ p ∷ []))

  unfoldable pub alternative_round :
      List (Pattern D) → Parse D (Round (List (Pattern D)) (List (Pattern D)))
  alternative_round alts = do
    here ← peek
    if same_kind here pipe2 then next_alternative alts else pure (finish alts)

  unfoldable pub parse_pattern : Parse D (Pattern D)
  parse_pattern = do
    first ← parse_pattern_atomic
    others ← repeat alternative_round []
    pure (or_of first others)

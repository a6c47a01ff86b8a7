-- ===== src/Parser/Annotations.antt =====
-- src/parser/mod.rs: `parse_type`, `parse_params` and `parse_type_params`.
use y.Prelude.{if◌then◌else◌, Text, codes, List, [], ◌∷◌, ◌++◌, Option}
use y.Prelude.Loop.{Round, again, finish}
use y.Source.{Span, union}
use y.Lexer.Token.{l_paren, r_paren, colon, arrow, lt, gt, pipe2, fn_kw}
use y.Ast.Types.{TypeAnnot, type_annots, type_span, Param}
use y.Parser.State.{Parse, pure, same_kind}
use y.Parser.Cursor.{
  ◌>>=◌, ◌>>◌, peek, span_here, bump, prev_span, eat, eat_kw, expect, expect_ident, up_to_here, opt,
  repeat, items_until,
}
use y.Parser.Calls.{Calls}

-- The span of the last type, or of the first one.
abbrev pub last_span : TypeAnnot → List TypeAnnot → Span
last_span t [] = type_span t
last_span t (u ∷ us) = last_span u us

-- A union, when types follow the first one.
abbrev pub union_of : TypeAnnot → List TypeAnnot → TypeAnnot
union_of first [] = first
union_of first (t ∷ ts) =
    TypeAnnot.union (type_annots (first ∷ t ∷ ts)) (union (type_span first) (last_span t ts))

module _ {D : Type 0} (c : Calls D) where
  unfoldable pub fn_type : Parse D TypeAnnot
  fn_type = do
    expect l_paren (codes "`(`")
    params ← items_until r_paren c.parse_type
    expect r_paren (codes "`)`")
    expect arrow (codes "`->`")
    ret ← c.parse_type
    span ← prev_span
    pure (TypeAnnot.fn (type_annots params) ret span)

  unfoldable pub generic_type : Text → Span → Parse D TypeAnnot
  generic_type name start = do
    args ← items_until gt c.parse_type
    expect gt (codes "`>`")
    span ← up_to_here start
    pure (TypeAnnot.generic name (type_annots args) span)

  -- A name, or a name with arguments.
  unfoldable pub type_atom : Parse D TypeAnnot
  type_atom = do
    start ← span_here
    name ← expect_ident (codes "type name")
    is_generic ← eat lt
    if is_generic then generic_type name start else pure (TypeAnnot.name name start)

  unfoldable pub next_variant : List TypeAnnot → Parse D (Round (List TypeAnnot) (List TypeAnnot))
  next_variant variants = do bump; v ← type_atom; pure (again (variants ++ v ∷ []))

  unfoldable pub variant_round : List TypeAnnot → Parse D (Round (List TypeAnnot) (List TypeAnnot))
  variant_round variants = do
    here ← peek
    if same_kind here pipe2 then next_variant variants else pure (finish variants)

  unfoldable pub union_type : Parse D TypeAnnot
  union_type = do first ← type_atom; others ← repeat variant_round []; pure (union_of first others)

  unfoldable pub parse_type : Parse D TypeAnnot
  parse_type = do is_fn ← eat_kw fn_kw; if is_fn then fn_type else union_type

  unfoldable pub param : Parse D Param
  param = do
    span ← span_here
    name ← expect_ident (codes "parameter name")
    is_typed ← eat colon
    annot ← opt is_typed c.parse_type
    pure (record { name = name; type_annot = annot; span = span })

  unfoldable pub parse_params : Parse D (List Param)
  parse_params = do
    expect l_paren (codes "`(`")
    params ← items_until r_paren param
    expect r_paren (codes "`)`")
    pure params

-- `-> T`, or nothing.
module _ {D : Type 0} (c : Calls D) where
  unfoldable pub return_type : Parse D (Option TypeAnnot)
  return_type = do is_there ← eat arrow; opt is_there c.parse_type

module _ {D : Type 0} where
  unfoldable pub some_type_params : Parse D (List Text)
  some_type_params = do
    params ← items_until gt (expect_ident (codes "type parameter"))
    expect gt (codes "`>`")
    pure params

  unfoldable pub parse_type_params : Parse D (List Text)
  parse_type_params = do is_there ← eat lt; if is_there then some_type_params else pure []

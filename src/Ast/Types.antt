-- ===== src/Ast/Types.antt =====
-- src/ast/mod.rs: operators, type annotations, and the declarations that hold no expression.
use y.Prelude.{ℕ, zero, suc, Text, Bool, List, [], ◌∷◌, Option}
use y.Source.{Span}

pub data BinOp : Type 0 where
  add sub mul div rem eq neq lt gt lte gte and or : BinOp

pub data UnaryOp : Type 0 where
  neg not : UnaryOp

mutual
  pub data TypeAnnot : Type 0 where
    name : Text → Span → TypeAnnot
    generic : Text → TypeAnnots → Span → TypeAnnot
    union : TypeAnnots → Span → TypeAnnot
    fn : TypeAnnots → TypeAnnot → Span → TypeAnnot

  pub data TypeAnnots : Type 0 where
    no_types : TypeAnnots
    type_and : TypeAnnot → TypeAnnots → TypeAnnots

abbrev pub type_annots : List TypeAnnot → TypeAnnots
type_annots [] = no_types
type_annots (t ∷ ts) = type_and t (type_annots ts)

abbrev pub type_span : TypeAnnot → Span
type_span (name _ s) = s
type_span (generic _ _ s) = s
type_span (union _ s) = s
type_span (fn _ _ s) = s

pub record Param : Type 0 where
  pub name : Text
  pub type_annot : Option TypeAnnot
  pub span : Span

pub record TypeDef : Type 0 where
  pub name : Text
  pub type_params : List Text
  pub fields : List (Text × TypeAnnot)
  pub span : Span

pub record VariantDef : Type 0 where
  pub name : Text
  pub fields : List TypeAnnot
  pub span : Span

pub record EnumDef : Type 0 where
  pub name : Text
  pub type_params : List Text
  pub variants : List VariantDef
  pub span : Span

pub record Import : Type 0 where
  pub path : Text
  pub alias : Option Text
  pub is_lazy : Bool
  pub span : Span

-- BigInt: `negsuc n` is `-(n + 1)`.
pub data ℤ : Type 0 where
  pos negsuc : ℕ → ℤ

abbrev pub negated : ℕ → ℤ
negated zero = pos 0
negated (suc n) = negsuc n

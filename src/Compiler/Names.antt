-- ===== src/Compiler/Names.antt =====
-- src/compiler/mod.rs: the names that a pattern binds.
use y.Prelude.{ℕ, Text, List, [], ◌∷◌, ◌++◌, length}
use y.Ast.Tree.{
  Pattern, Patterns, FieldPatterns, wildcard, lit, bind, no_patterns, pattern_and,
  no_field_patterns, field_and,
}

module _ {D : Type 0} where
  unfoldable mutual
    -- `collect_binding_names`, with the names found in place of those pushed.
    pub pattern_binding_names : Pattern D → List Text
    pattern_binding_names (wildcard s) = []
    pattern_binding_names (lit l s) = []
    pattern_binding_names (bind name s) = name ∷ []
    pattern_binding_names (Pattern.variant name args s) = names_of_all args
    pattern_binding_names (Pattern.struct fields rest s) = names_of_fields fields
    pattern_binding_names (Pattern.vec pats rest s) = names_of_all pats
    pattern_binding_names (Pattern.or pats s) = names_of_first pats
    pattern_binding_names (Pattern.guard pat e s) = pattern_binding_names pat

    pub names_of_all : Patterns D → List Text
    names_of_all no_patterns = []
    names_of_all (pattern_and p ps) = pattern_binding_names p ++ names_of_all ps

    pub names_of_first : Patterns D → List Text
    names_of_first no_patterns = []
    names_of_first (pattern_and p ps) = pattern_binding_names p

    pub names_of_fields : FieldPatterns D → List Text
    names_of_fields no_field_patterns = []
    names_of_fields (field_and f p fs) = pattern_binding_names p ++ names_of_fields fs

  unfoldable pub pattern_binding_count : Pattern D → ℕ
  pattern_binding_count p = length (pattern_binding_names p)

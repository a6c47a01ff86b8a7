-- ===== src/Parser/Imports.antt =====
-- src/parser/mod.rs: what `lazy` accepts in place of `import`.
use y.Prelude.{◌≡◌, refl, true}
use y.Source.{Span}
use y.Lexer.Token.{Keyword, keyword}
use y.Parser.State.{Parser, pure, discriminant}
use y.Parser.Cursor.{◌>>=◌, ◌>>◌, bump, peek, eat, expect}
use y.Parser.Statements.{lazy_import, import_path}

module _ {D : Type 0} where
  -- Behind `lazy` any keyword is read as `import`: it is consumed, no error is recorded, and the
  -- path of the module is expected next.
  pub lazy_import-keyword :
      (start : Span) (kw : Keyword) (p : Parser D)
      → p.here.kind ≡ keyword kw
      → lazy_import start p ≡ (bump >> import_path true start) p
  unfolding lazy_import expect eat peek pure discriminant bump ◌>>=◌
  lazy_import-keyword start kw p e = rw e refl

-- ===== src/Parser/Blocks.antt =====
-- src/parser/mod.rs: parenthesised expressions, blocks and maps, and the recovery from errors. Each
-- function but `resync` starts behind the opening bracket, which its caller consumes.
use y.Prelude.{if◌then◌else◌, ◌&&◌, Bool, true, false, List, [], ◌∷◌, Option, none, some}
use y.Prelude.Loop.{Round, again, finish}
use y.Lexer.Token.{
  Token, TokenKind, Keyword, ident, keyword, let_kw, shared_kw, fn_kw, type_kw, enum_kw, actor_kw,
  import_kw, lazy_kw, state_kw, on_kw, r_paren, r_brace, comma, semicolon, fat_arrow, eof,
}
use y.Parser.State.{Result, ok, Parser, Parse, pure, same_kind}
use y.Parser.Cursor.{◌>>=◌, ◌>>◌, peek, bump, repeat}

abbrev pub is_stmt_start : Keyword → Bool
is_stmt_start let_kw = true
is_stmt_start shared_kw = true
is_stmt_start fn_kw = true
is_stmt_start type_kw = true
is_stmt_start enum_kw = true
is_stmt_start actor_kw = true
is_stmt_start import_kw = true
is_stmt_start lazy_kw = true
is_stmt_start state_kw = true
is_stmt_start on_kw = true
is_stmt_start _ = false

module _ {D : Type 0} where
  -- `is_decl_start` is the same.
  abbrev pub starts_stmt : TokenKind D → Bool
  starts_stmt (keyword k) = is_stmt_start k
  starts_stmt _ = false

  abbrev pub resync_of : Bool → TokenKind D → Parse D (Round (Unit {0}) (Unit {0}))
  resync_of top_level here =
      if same_kind here eof
      then pure (finish tt)
      else if same_kind here semicolon
      then bump >> pure (finish tt)
      else if same_kind here r_brace
      then (if top_level then bump >> pure (again tt) else pure (finish tt))
      else if starts_stmt here
      then pure (finish tt)
      else bump >> pure (again tt)

  unfoldable pub resync_round : Bool → Parse D (Round (Unit {0}) (Unit {0}))
  resync_round top_level = do here ← peek; resync_of top_level here

  unfoldable pub resync : Bool → Parse D (Unit {0})
  resync top_level = repeat (λ u. resync_round top_level) tt

  -- A statement, or the error that it ends with.
  abbrev pub caught :
      {A : Type 0} → Option (Result A × Parser D) → Option (Result (Result A) × Parser D)
  caught none = none
  caught (some (r, p)) = some (ok r, p)

  unfoldable pub attempt : {A : Type 0} → Parse D A → Parse D (Result A)
  attempt m p = caught (m p)

  -- `ident (, ident)* ) =>`, with the tokens from the current one on.
  unfoldable pub arrow_params : List (Token D) → Bool
  arrow_params (t ∷ u ∷ ts) = elim t.kind [
    | ident s ↦
        let more = arrow_params ts in
        if same_kind u.kind comma then more else same_kind u.kind r_paren && starts_with_arrow ts
    | _ ↦ false
  ]
    where
      starts_with_arrow : List (Token D) → Bool
      starts_with_arrow [] = false
      starts_with_arrow (t ∷ ts) = same_kind t.kind fat_arrow
  arrow_params _ = false

  abbrev pub arrow_here : TokenKind D → List (Token D) → Token D → Bool
  arrow_here here [] t = false
  arrow_here here (u ∷ us) t =
      if same_kind here r_paren then same_kind u.kind fat_arrow else arrow_params (t ∷ u ∷ us)

  unfoldable pub looks_like_arrow_fn : Parse D Bool
  looks_like_arrow_fn p = some (ok (arrow_here p.here.kind p.after p.here), p)

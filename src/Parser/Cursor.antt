-- ===== src/Parser/Cursor.antt =====
-- src/parser/mod.rs: sequencing, the cursor operations, and the loops.
use y.Prelude.{
  ℕ, zero, suc, if◌then◌else◌, Text, codes, Bool, true, false, List, [], ◌∷◌, ◌++◌, Option, none,
  some, get_elem?, length,
}
use y.Prelude.Loop.{Round, again, finish}
use y.Source.{Span, union}
use y.Lexer.Token.{Token, TokenKind, Keyword, describe, ident, comma, eof}
use y.Parser.State.{
  ParseError, said, ok, Parser, Parse, same_kind, is_keyword, and_then, pure, fail,
}

-- A list goes on behind a comma.
abbrev pub go_on : {A : Type 0} → List A → Bool → Round (List A) (List A)
go_on items true = again items
go_on items false = finish items

module _ {D : Type 0} where
  infixl 5 ◌>>=◌ ◌>>◌
  unfoldable pub ◌>>=◌ : {A B : Type 0} → Parse D A → (A → Parse D B) → Parse D B
  (m >>= f) p = and_then (m p) f

  abbrev pub ◌>>◌ : {A B : Type 0} → Parse D A → Parse D B → Parse D B
  m >> n = m >>= λ _. n

  unfoldable pub peek : Parse D (TokenKind D)
  peek p = some (ok p.here.kind, p)

  -- `peek_at(n + 1)`.
  unfoldable pub peek_after : ℕ → Parse D (TokenKind D)
  peek_after n p = elim (get_elem? p.after n) [
    | none ↦ some (ok eof, p)
    | some t ↦ some (ok t.kind, p)
  ]

  unfoldable pub span_here : Parse D Span
  span_here p = some (ok p.here.span, p)

  abbrev advanced : List (Token D) → Parser D → Parser D
  advanced [] p = p
  advanced (t ∷ ts) p = record p { before = p.here ∷ p.before; here = t; after = ts }

  -- The last token is never left.
  unfoldable pub bump : Parse D (Unit {0})
  bump p = some (ok tt, advanced p.after p)

  abbrev last_span : List (Token D) → Token D → Span
  last_span [] here = here.span
  last_span (t ∷ ts) here = t.span

  -- The span of the token before the current one.
  unfoldable pub prev_span : Parse D Span
  prev_span p = some (ok (last_span p.before p.here), p)

  unfoldable pub error : Span → Text → Parse D (Unit {0})
  error span message p = some (
    ok tt,
    record p {
      errors = p.errors ++ record { span = span; message = said message; hint = none } ∷ [];
    },
  )

  abbrev pub error_at : {A : Type 0} → Span → Text → Parse D A
  error_at span message = fail (record { span = span; message = said message; hint = none })

  -- `self.errors.push(e)`.
  unfoldable pub push_error : ParseError → Parse D (Unit {0})
  push_error e p = some (ok tt, record p { errors = p.errors ++ e ∷ [] })

  -- `if test { bump; true } else { false }`.
  abbrev pub bump_if : Bool → Parse D Bool
  bump_if test = if test then (do bump; pure true) else pure false

  unfoldable pub eat : TokenKind D → Parse D Bool
  eat kind = do here ← peek; bump_if (same_kind here kind)

  unfoldable pub at_kw : Keyword → Parse D Bool
  at_kw kw = do here ← peek; pure (is_keyword kw here)

  unfoldable pub eat_kw : Keyword → Parse D Bool
  eat_kw kw = do here ← peek; bump_if (is_keyword kw here)

  abbrev pub expected : Text → TokenKind D → Text
  expected what found = codes "expected " ++ (what ++ (codes ", found " ++ describe found))

  abbrev pub check_eaten : Text → Bool → Parse D (Unit {0})
  check_eaten what true = pure tt
  check_eaten what false = do span ← span_here; found ← peek; error span (expected what found)

  -- The parser goes on without the token.
  unfoldable pub expect : TokenKind D → Text → Parse D (Unit {0})
  expect kind what = do eaten ← eat kind; check_eaten what eaten

  unfoldable pub expect_kw : Keyword → Text → Parse D (Unit {0})
  expect_kw kw what = do eaten ← eat_kw kw; check_eaten what eaten

  unfoldable pub ident_or_fail : Text → TokenKind D → Parse D Text
  ident_or_fail what (ident s) = do bump; pure s
  ident_or_fail what other = do span ← span_here; error_at span (expected what other)

  unfoldable pub expect_ident : Text → Parse D Text
  expect_ident what = do here ← peek; ident_or_fail what here

  -- `start.union(self.prev_span())`
  unfoldable pub up_to_here : Span → Parse D Span
  up_to_here start = do end ← prev_span; pure (union start end)

  -- `if test { Some(m?) } else { None }`.
  abbrev pub opt : {A : Type 0} → Bool → Parse D A → Parse D (Option A)
  opt true m = do a ← m; pure (some a)
  opt false m = pure none

  -- A loop, whose rounds go on with a state or leave with a result, on fuel; what is left is
  -- below the fuel given at first.
  abbrev pub next : {S A : Type 0} → (S → Parse D A) → Round S A → Parse D A
  next go (again s) = go s
  next go (finish a) = pure a

  unfoldable pub rounds : {S A : Type 0} → (S → Parse D (Round S A)) → ℕ → S → Parse D A
  rounds body zero s p = none
  rounds body (suc fuel) s p = (body s >>= next (rounds body fuel)) p

  unfoldable pub repeat : {S A : Type 0} → (S → Parse D (Round S A)) → S → Parse D A
  repeat body s p = rounds body (suc (length p.after)) s p

  -- `loop { items.push(item()?); if !self.eat(&Comma) { break } }`
  unfoldable pub one_or_more : {A : Type 0} → Parse D A → Parse D (List A)
  one_or_more item =
      repeat (λ items. do i ← item; more ← eat comma; pure (go_on (items ++ i ∷ []) more)) []

  abbrev pub none_or_more : {A : Type 0} → TokenKind D → Parse D A → TokenKind D → Parse D (List A)
  none_or_more closing item here = if same_kind here closing then pure [] else one_or_more item

  -- The items of a list up to its closing token, which is expected but not read.
  unfoldable pub items_until : {A : Type 0} → TokenKind D → Parse D A → Parse D (List A)
  items_until closing item = do here ← peek; none_or_more closing item here

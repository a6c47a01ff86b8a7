-- ===== src/Parser/State.antt =====
-- src/parser/mod.rs: the parser's state and cursor, and the errors. The vector of tokens with its
-- index is the token at the index, the ones behind it, and the ones before it, the latest first.
use y.Prelude.{ℕ, ◌==◌, Text, Bool, false, List, [], Option, none, some}
use y.Source.{Span}
use y.Lexer.Token.{
  Token, TokenKind, Keyword, int, decimal, str, ident, keyword, l_paren, r_paren, l_brace, r_brace,
  l_bracket, r_bracket, hash_brace, comma, colon, double_colon, semicolon, dot, dot_dot, arrow,
  fat_arrow, pipe, bang, question, assign, eq, neq, lt, gt, lte, gte, plus, minus, star, slash,
  percent, plus_assign, minus_assign, star_assign, slash_assign, percent_assign, and, or, pipe2,
  underscore, eof, as_str,
}
use y.Lexer.State.{Library, Message}
use y.Prelude.{same_text}

-- The text of a diagnostic: one of the lexer's, which an interpolation passes on, or the text.
pub data ParseMessage : Type 0 where
  lexical : Message → ParseMessage
  said : Text → ParseMessage

pub record ParseError : Type 0 where
  pub span : Span
  pub message : ParseMessage
  pub hint : Option Text

pub data Result {ℓ} (A : Type ℓ) : Type ℓ where
  ok : A → Result A
  err : ParseError → Result A

pub record Parser (D : Type 0) : Type 0 where
  pub before : List (Token D)
  pub here : Token D
  pub after : List (Token D)
  pub errors : List ParseError

-- What the parser calls in other crates and in Unicode's tables, the lexer's included.
pub record ParserLibrary (D : Type 0) : Type 0 where
  pub lexing : Library D
  pub neg_decimal : D → D
  pub is_uppercase : ℕ → Bool

-- `none` stands for a lack of fuel.
abbrev pub Parse : Type 0 → Type 0 → Type 0
Parse D A = Parser D → Option (Result A × Parser D)

abbrev pub new : {D : Type 0} → Token D → List (Token D) → Parser D
new first rest = record { before = []; here = first; after = rest; errors = [] }

-- The number of the constructor, for `std::mem::discriminant`.
unfoldable pub discriminant : {D : Type 0} → TokenKind D → ℕ
discriminant (int _) = 0
discriminant (decimal _) = 1
discriminant (str _) = 2
discriminant (ident _) = 3
discriminant (keyword _) = 4
discriminant l_paren = 5
discriminant r_paren = 6
discriminant l_brace = 7
discriminant r_brace = 8
discriminant l_bracket = 9
discriminant r_bracket = 10
discriminant hash_brace = 11
discriminant comma = 12
discriminant colon = 13
discriminant double_colon = 14
discriminant semicolon = 15
discriminant dot = 16
discriminant dot_dot = 17
discriminant arrow = 18
discriminant fat_arrow = 19
discriminant pipe = 20
discriminant bang = 21
discriminant question = 22
discriminant assign = 23
discriminant eq = 24
discriminant neq = 25
discriminant lt = 26
discriminant gt = 27
discriminant lte = 28
discriminant gte = 29
discriminant plus = 30
discriminant minus = 31
discriminant star = 32
discriminant slash = 33
discriminant percent = 34
discriminant plus_assign = 35
discriminant minus_assign = 36
discriminant star_assign = 37
discriminant slash_assign = 38
discriminant percent_assign = 39
discriminant and = 40
discriminant or = 41
discriminant pipe2 = 42
discriminant underscore = 43
discriminant eof = 44

module _ {D : Type 0} where
  -- `matches!(a, b)` for a kind without payload.
  abbrev pub same_kind : TokenKind D → TokenKind D → Bool
  same_kind a b = discriminant a == discriminant b

  -- Keywords are told apart by their texts, which differ.
  abbrev pub is_keyword : Keyword → TokenKind D → Bool
  is_keyword kw (keyword k) = same_text (as_str k) (as_str kw)
  is_keyword kw _ = false

  abbrev pub is_ident : TokenKind D → Bool
  is_ident kind = discriminant kind == 3

  -- Combining parsers.
  abbrev pub and_then :
      {A B : Type 0} → Option (Result A × Parser D) → (A → Parse D B) → Option (Result B × Parser D)
  and_then none f = none
  and_then (some (ok a, p)) f = f a p
  and_then (some (err e, p)) f = some (err e, p)

  unfoldable pub pure : {A : Type 0} → A → Parse D A
  pure a p = some (ok a, p)

  unfoldable pub fail : {A : Type 0} → ParseError → Parse D A
  fail e p = some (err e, p)

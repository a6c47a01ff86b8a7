-- ===== src/Lexer/Punct.antt =====
-- src/lexer/mod.rs: the punctuation arms of `next_token`, as one table. An arm is the characters
-- that may follow, in the order in which they are tested, with the token that each completes, and
-- what a character alone is: a token or an error.
use y.Prelude.{ℕ, ◌==◌, if◌then◌else◌, List, [], ◌∷◌, Option, none, some}
use y.Source.{Pos, span_of}
use y.Lexer.Token.{
  Token, TokenKind, l_paren, r_paren, l_brace, r_brace, l_bracket, r_bracket, hash_brace, comma,
  colon, double_colon, semicolon, dot, dot_dot, arrow, fat_arrow, pipe, bang, question, assign, eq,
  neq, lt, gt, lte, gte, plus, minus, star, slash, percent, plus_assign, minus_assign, star_assign,
  slash_assign, percent_assign, and, or, pipe2,
}
use y.Lexer.State.{Lexer, Message, peek, skip, report, tok, is_char, bare_ampersand, bare_hash}

pub data Alone (D : Type 0) : Type 0 where
  token : TokenKind D → Alone D
  error : Message → Alone D

pub record Arm (D : Type 0) : Type 0 where
  pub pairs : List (ℕ × TokenKind D)
  pub alone : Alone D

-- What one pass of the loop of `next_token` decides: a token, or to go on (`continue`).
pub data Pass (D : Type 0) : Type 0 where
  emit : Token D × Lexer → Pass D
  go_on : Lexer → Pass D

module _ {D : Type 0} where
  abbrev single : TokenKind D → Option (Arm D)
  single k = some (record { pairs = []; alone = token k })

  abbrev double : ℕ → TokenKind D → TokenKind D → Option (Arm D)
  double c k₂ k₁ = some (record { pairs = (c, k₂) ∷ []; alone = token k₁ })

  abbrev only_pair : ℕ → TokenKind D → Message → Option (Arm D)
  only_pair c k m = some (record { pairs = (c, k) ∷ []; alone = error m })

  abbrev double₂ : ℕ → TokenKind D → ℕ → TokenKind D → TokenKind D → Option (Arm D)
  double₂ c k d j k₁ = some (record { pairs = (c, k) ∷ (d, j) ∷ []; alone = token k₁ })

  unfoldable pub brackets : ℕ → Option (Arm D)
  brackets c =
      if c == b'('
      then single l_paren
      else if c == b')'
      then single r_paren
      else if c == b'{'
      then single l_brace
      else if c == b'}'
      then single r_brace
      else if c == b'['
      then single l_bracket
      else if c == b']'
      then single r_bracket
      else if c == b','
      then single comma
      else if c == b';'
      then single semicolon
      else if c == b':'
      then double b':' double_colon colon
      else if c == b'.'
      then double b'.' dot_dot dot
      else none

  unfoldable pub operators : ℕ → Option (Arm D)
  operators c =
      if c == b'-'
      then double₂ b'>' arrow b'=' minus_assign minus
      else if c == b'='
      then double₂ b'>' fat_arrow b'=' eq assign
      else if c == b'!'
      then double b'=' neq bang
      else if c == b'?'
      then single question
      else if c == b'<'
      then double b'=' lte lt
      else if c == b'>'
      then double b'=' gte gt
      else if c == b'+'
      then double b'=' plus_assign plus
      else if c == b'*'
      then double b'=' star_assign star
      else if c == b'/'
      then double b'=' slash_assign slash
      else if c == b'%'
      then double b'=' percent_assign percent
      else if c == b'&'
      then only_pair b'&' and bare_ampersand
      else if c == b'|'
      then double₂ b'|' or b'>' pipe pipe2
      else if c == b'#'
      then only_pair b'{' hash_brace bare_hash
      else none

  abbrev pub or_else : Option (Arm D) → Option (Arm D) → Option (Arm D)
  or_else none o = o
  or_else (some a) o = some a

  unfoldable pub punctuation : ℕ → Option (Arm D)
  unfolding brackets operators
  punctuation c = or_else (brackets c) (operators c)

  -- The arm run just behind its first character.
  unfoldable pub run_arm : Pos → List (ℕ × TokenKind D) → Alone D → Lexer → Pass D
  run_arm start [] (token k) lx = emit (tok start k lx)
  run_arm start [] (error m) lx = go_on (report (span_of start lx.pos) m lx)
  run_arm start ((c, k) ∷ pairs) alone lx =
      if is_char (peek lx) c then emit (tok start k (skip lx)) else run_arm start pairs alone lx

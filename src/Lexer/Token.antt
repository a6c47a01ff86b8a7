-- ===== src/Lexer/Token.antt =====
-- src/lexer/token.rs: tokens, keywords and their names. `D` stands for the BigDecimal of the
-- bigdecimal crate.
use y.Prelude.{ℕ, Text, codes, same_text, List, [], ◌∷◌, ◌++◌, Option, none, some, if◌then◌else◌}
use y.Source.{Span}

-- One piece of an interpolated string.
pub data StrPart : Type 0 where
  literal : Text → StrPart
  expr : Text → Span → StrPart

pub data Keyword : Type 0 where
  let_kw fn_kw if_kw else_kw match_kw while_kw : Keyword
  for_kw in_kw break_kw continue_kw loop_kw enum_kw : Keyword
  type_kw struct_kw actor_kw state_kw on_kw spawn_kw : Keyword
  reply_kw yield_kw await_kw shared_kw transact_kw retry_kw : Keyword
  import_kw lazy_kw as_kw raise_kw try_kw rescue_kw : Keyword
  ensure_kw return_kw true_kw false_kw nil_kw and_kw : Keyword
  or_kw not_kw : Keyword

pub data TokenKind (D : Type 0) : Type 0 where
  int : ℕ → TokenKind D
  decimal : D → TokenKind D
  str : List StrPart → TokenKind D
  ident : Text → TokenKind D
  keyword : Keyword → TokenKind D
  l_paren r_paren l_brace r_brace l_bracket r_bracket : TokenKind D
  hash_brace comma colon double_colon semicolon dot : TokenKind D
  dot_dot arrow fat_arrow pipe bang question : TokenKind D
  assign eq neq lt gt lte : TokenKind D
  gte plus minus star slash percent : TokenKind D
  plus_assign minus_assign star_assign slash_assign percent_assign and : TokenKind D
  or pipe2 underscore : TokenKind D
  eof : TokenKind D

pub record Token (D : Type 0) : Type 0 where
  pub kind : TokenKind D
  pub span : Span

unfoldable pub as_str : Keyword → Text
as_str let_kw = codes "let"
as_str fn_kw = codes "fn"
as_str if_kw = codes "if"
as_str else_kw = codes "else"
as_str match_kw = codes "match"
as_str while_kw = codes "while"
as_str for_kw = codes "for"
as_str in_kw = codes "in"
as_str break_kw = codes "break"
as_str continue_kw = codes "continue"
as_str loop_kw = codes "loop"
as_str enum_kw = codes "enum"
as_str type_kw = codes "type"
as_str struct_kw = codes "struct"
as_str actor_kw = codes "actor"
as_str state_kw = codes "state"
as_str on_kw = codes "on"
as_str spawn_kw = codes "spawn"
as_str reply_kw = codes "reply"
as_str yield_kw = codes "yield"
as_str await_kw = codes "await"
as_str shared_kw = codes "shared"
as_str transact_kw = codes "transact"
as_str retry_kw = codes "retry"
as_str import_kw = codes "import"
as_str lazy_kw = codes "lazy"
as_str as_kw = codes "as"
as_str raise_kw = codes "raise"
as_str try_kw = codes "try"
as_str rescue_kw = codes "rescue"
as_str ensure_kw = codes "ensure"
as_str return_kw = codes "return"
as_str true_kw = codes "true"
as_str false_kw = codes "false"
as_str nil_kw = codes "nil"
as_str and_kw = codes "and"
as_str or_kw = codes "or"
as_str not_kw = codes "not"

-- The arms of the `match` of `from_ident`, in order.
abbrev pub reserved : List (Text × Keyword)
reserved =
    (codes "let", let_kw)
    ∷ (codes "fn", fn_kw)
    ∷ (codes "if", if_kw)
    ∷ (codes "else", else_kw)
    ∷ (codes "match", match_kw)
    ∷ (codes "while", while_kw)
    ∷ (codes "for", for_kw)
    ∷ (codes "in", in_kw)
    ∷ (codes "break", break_kw)
    ∷ (codes "continue", continue_kw)
    ∷ (codes "loop", loop_kw)
    ∷ (codes "enum", enum_kw)
    ∷ (codes "type", type_kw)
    ∷ (codes "struct", struct_kw)
    ∷ (codes "actor", actor_kw)
    ∷ (codes "state", state_kw)
    ∷ (codes "on", on_kw)
    ∷ (codes "spawn", spawn_kw)
    ∷ (codes "reply", reply_kw)
    ∷ (codes "yield", yield_kw)
    ∷ (codes "await", await_kw)
    ∷ (codes "shared", shared_kw)
    ∷ (codes "transact", transact_kw)
    ∷ (codes "retry", retry_kw)
    ∷ (codes "import", import_kw)
    ∷ (codes "lazy", lazy_kw)
    ∷ (codes "as", as_kw)
    ∷ (codes "raise", raise_kw)
    ∷ (codes "try", try_kw)
    ∷ (codes "rescue", rescue_kw)
    ∷ (codes "ensure", ensure_kw)
    ∷ (codes "return", return_kw)
    ∷ (codes "true", true_kw)
    ∷ (codes "false", false_kw)
    ∷ (codes "nil", nil_kw)
    ∷ (codes "and", and_kw)
    ∷ (codes "or", or_kw)
    ∷ (codes "not", not_kw)
    ∷ []

-- The first arm whose text is the scrutinee.
unfoldable pub first_arm : Text → List (Text × Keyword) → Option Keyword
first_arm s [] = none
first_arm s ((t, k) ∷ arms) = if same_text s t then some k else first_arm s arms

unfoldable pub from_ident : Text → Option Keyword
unfolding first_arm
from_ident s = first_arm s reserved

module _ {D : Type 0} where
  unfoldable pub describe : TokenKind D → Text
  unfolding as_str
  describe (int _) = codes "integer"
  describe (decimal _) = codes "decimal"
  describe (str _) = codes "string"
  describe (ident s) = codes "identifier `" ++ (s ++ codes "`")
  describe (keyword k) = codes "keyword `" ++ (as_str k ++ codes "`")
  describe l_paren = codes "`(`"
  describe r_paren = codes "`)`"
  describe l_brace = codes "`{`"
  describe r_brace = codes "`}`"
  describe l_bracket = codes "`[`"
  describe r_bracket = codes "`]`"
  describe hash_brace = codes "`#{`"
  describe comma = codes "`,`"
  describe colon = codes "`:`"
  describe double_colon = codes "`::`"
  describe semicolon = codes "`;`"
  describe dot = codes "`.`"
  describe dot_dot = codes "`..`"
  describe arrow = codes "`->`"
  describe fat_arrow = codes "`=>`"
  describe pipe = codes "`|>`"
  describe bang = codes "`!`"
  describe question = codes "`?`"
  describe assign = codes "`=`"
  describe eq = codes "`==`"
  describe neq = codes "`!=`"
  describe lt = codes "`<`"
  describe gt = codes "`>`"
  describe lte = codes "`<=`"
  describe gte = codes "`>=`"
  describe plus = codes "`+`"
  describe minus = codes "`-`"
  describe star = codes "`*`"
  describe slash = codes "`/`"
  describe percent = codes "`%`"
  describe plus_assign = codes "`+=`"
  describe minus_assign = codes "`-=`"
  describe star_assign = codes "`*=`"
  describe slash_assign = codes "`/=`"
  describe percent_assign = codes "`%=`"
  describe and = codes "`&&`"
  describe or = codes "`||`"
  describe pipe2 = codes "`|`"
  describe underscore = codes "`_`"
  describe eof = codes "end of file"

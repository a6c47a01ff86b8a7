-- ===== src/Lexer/Keywords.antt =====
-- src/lexer/token.rs: `from_ident` and `as_str` are inverse to each other.
use mathlib.Core.Bool.{and-eq-true_iff}
use y.Prelude.{
  Text, same_text, same_text→≡, List, [], ◌∷◌, All, Bool, true, ◌&&◌, some, ◌≡◌, ◌↔◌, refl, arith,
}
use y.Lexer.Token.{Keyword, let_kw, as_str, first_arm, reserved, from_ident}

-- Every reserved word is read back as its own keyword.
pub from_ident-as_str : (k : Keyword) → from_ident (as_str k) ≡ some k
unfolding from_ident as_str
from_ident-as_str let_kw = refl
from_ident-as_str _ = refl

first_arm_sound :
    (s : Text) (arms : List (Text × Keyword)) (k : Keyword)
    → All (λ a. a.0 ≡ as_str a.1) arms
    → first_arm s arms ≡ some k
    → s ≡ as_str k
unfolding first_arm
first_arm_sound s [] k h e = ground arith
first_arm_sound s ((t, j) ∷ arms) k h e =
    ground (arith, same_text→≡ s t, first_arm_sound s arms k h.1, h.0)

agree : List (Text × Keyword) → Bool
agree [] = true
agree ((t, k) ∷ arms) = same_text t (as_str k) && agree arms

agree_sound : (arms : List (Text × Keyword)) → agree arms ≡ true → All (λ a. a.0 ≡ as_str a.1) arms
unfolding agree
agree_sound [] h = tt
agree_sound ((t, k) ∷ arms) h =
    let (here, later) = (and-eq-true_iff _ _).0 h in
    (same_text→≡ t (as_str k) here, agree_sound arms later)

reserved-agree : agree reserved ≡ true
unfolding agree as_str
reserved-agree = refl

from_ident_sound : (s : Text) (k : Keyword) → from_ident s ≡ some k → s ≡ as_str k
unfolding from_ident
from_ident_sound s k = first_arm_sound s reserved k (agree_sound reserved reserved-agree)

-- `from_ident` answers a keyword exactly on that keyword's own text: every keyword is read back
-- from its text, and no other word is reserved.
pub from_ident_iff : (s : Text) (k : Keyword) → (from_ident s ≡ some k) ↔ (s ≡ as_str k)
from_ident_iff s k = (from_ident_sound s k, λ e. rw e (from_ident-as_str k))

-- ===== src/Domain/Parse/Laws.antt =====
-- What the readers accept: a reader that finds no problem has read a value of its type.
use autonomous_agent.Common.{
  ◌≡◌, ◌≢◌, refl, String, List, [], ◌∷◌, ◌++◌, ◌===◌, arith, Bool-cases, inl, inr, eq_iff, some,
}
use autonomous_agent.Domain.Value.{
  Value, num, str, bool, undefined, null, unserializable, obj, arr, Elements, no_elements, element,
}
use autonomous_agent.Domain.Parse.{text_or_error, text_elements}

pub append-ne-nil {ℓ} : {A : Type ℓ} (xs : List A) (x : A) → xs ++ x ∷ [] ≢ []
append-ne-nil [] x = λ h. cc
append-ne-nil (y ∷ xs) x = λ h. cc

-- a reader of texts that adds no problem has read a text, and not the empty one
pub text_or_error-nonempty :
    (v : Value) (key : String) → (text_or_error v key []).1 ≡ [] → (text_or_error v key []).0 ≢ ""
text_or_error-nonempty (str s) key h = elim (Bool-cases (s === "")) [
  | inl e ↦ ground (arith, e, h)
  | inr e ↦ ground (arith, e, eq_iff s "")
]
text_or_error-nonempty (num n) key h = cc
text_or_error-nonempty (bool b) key h = cc
text_or_error-nonempty undefined key h = cc
text_or_error-nonempty null key h = cc
text_or_error-nonempty unserializable key h = cc
text_or_error-nonempty (obj fs) key h = cc
text_or_error-nonempty (arr xs) key h = cc

pub text_or_error-str :
    (s key : String) (errors : List String)
    → s ≢ ""
    → text_or_error (str s) key errors ≡ (s, errors)
text_or_error-str s key errors h = elim (Bool-cases (s === "")) [
  | inl e ↦ absurd (h ((eq_iff s "").0 e))
  | inr e ↦ rw e refl
]

-- the array that holds these texts
unfoldable pub texts : List String → Elements
texts [] = no_elements
texts (s ∷ ss) = element (str s) (texts ss)

pub text_elements-texts : (ss : List String) → text_elements (texts ss) ≡ some ss
unfolding text_elements texts
text_elements-texts [] = refl
text_elements-texts (s ∷ ss) = rw (text_elements-texts ss) refl

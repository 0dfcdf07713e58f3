-- ===== src/Common/Lists.antt =====
-- Lists measured by native numbers, Boolean searches, and a predicate on all elements.
use Prim.Native.Nat.{ℕ, zero, suc, ◌+◌, ◌≤◌, min}
use mathlib.Core.Path.{◌≡◌, refl, sym, ap, subst, ◌∙◌}
use mathlib.Core.Bool.{Bool, true, false, not, ◌&&◌, ◌||◌}
use mathlib.Core.Logic.{◌↔◌}
use mathlib.Core.List.{List, [], ◌∷◌, ◌++◌, map}
use mathlib.Core.Option.{Option, none, some}
use native.Mathlib.Omega.{arith}

module _ {ℓ} {A : Type ℓ} where
  abbrev pub length : List A → ℕ
  length [] = 0
  length (x ∷ xs) = suc (length xs)

  abbrev pub take : ℕ → List A → List A
  take zero xs = []
  take (suc n) [] = []
  take (suc n) (x ∷ xs) = x ∷ take n xs

  abbrev pub drop : ℕ → List A → List A
  drop zero xs = xs
  drop (suc n) [] = []
  drop (suc n) (x ∷ xs) = drop n xs

  -- `xs.at(-1)`
  abbrev pub last? : List A → Option A
  last? [] = none
  last? (x ∷ []) = some x
  last? (x ∷ y ∷ ys) = last? (y ∷ ys)

  -- `xs[0]`
  abbrev pub first? : List A → Option A
  first? [] = none
  first? (x ∷ xs) = some x

  -- `xs.find(p)`
  abbrev pub find : (A → Bool) → List A → Option A
  find p [] = none
  find p (x ∷ xs) = elim (p x) [ true ↦ some x | false ↦ find p xs ]

  -- `xs.some(p)`
  abbrev pub any : (A → Bool) → List A → Bool
  any p [] = false
  any p (x ∷ xs) = p x || any p xs

  -- `xs.every(p)`
  abbrev pub all : (A → Bool) → List A → Bool
  all p [] = true
  all p (x ∷ xs) = p x && all p xs

  -- `xs.filter(p)`
  abbrev pub keep : (A → Bool) → List A → List A
  keep p [] = []
  keep p (x ∷ xs) = elim (p x) [ true ↦ x ∷ keep p xs | false ↦ keep p xs ]

  pub length-append : (xs ys : List A) → length (xs ++ ys) ≡ length xs + length ys
  length-append [] ys = omega arith
  length-append (x ∷ xs) ys = omega (arith, length-append xs ys)

  pub length-take : (n : ℕ) (xs : List A) → length (take n xs) ≡ min n (length xs)
  length-take zero xs = omega arith
  length-take (suc n) [] = omega arith
  length-take (suc n) (x ∷ xs) = omega (arith, length-take n xs)

  pub keep-append : (p : A → Bool) (xs ys : List A) → keep p (xs ++ ys) ≡ keep p xs ++ keep p ys
  keep-append p [] ys = refl
  keep-append p (x ∷ xs) ys = ground (arith, keep-append p xs ys)

  pub length-keep-le : (p : A → Bool) (xs : List A) → length (keep p xs) ≤ length xs
  length-keep-le p [] = omega arith
  length-keep-le p (x ∷ xs) = ground (arith, length-keep-le p xs)

module _ {ℓ κ} {A : Type ℓ} where
  abbrev pub All : (A → Type κ) → List A → Type κ
  All P [] = Unit
  All P (x ∷ xs) = P x × All P xs

  pub All-append : (P : A → Type κ) (xs ys : List A) → All P xs → All P ys → All P (xs ++ ys)
  All-append P [] ys h k = k
  All-append P (x ∷ xs) ys (p, h) k = (p, All-append P xs ys h k)

module _ {ℓ κ} {A : Type ℓ} {B : Type κ} where
  pub length-map : (f : A → B) (xs : List A) → length (map f xs) ≡ length xs
  length-map f [] = refl
  length-map f (x ∷ xs) = ap suc (length-map f xs)

module _ {ℓ} {A : Type ℓ} where
  pub keep-All : (p : A → Bool) (xs : List A) → All (λ x. p x ≡ true) xs → keep p xs ≡ xs
  keep-All p [] h = refl
  keep-All p (x ∷ xs) (e, h) = rw (keep, e) (ap (λ l. x ∷ l) (keep-All p xs h))

  pub keep-not_iff :
      (p : A → Bool) (xs : List A) → (keep (λ x. not (p x)) xs ≡ []) ↔ (all p xs ≡ true)
  keep-not_iff p [] = (λ _. refl, λ _. refl)
  keep-not_iff p (x ∷ xs) = ground (arith, keep-not_iff p xs)

module _ {ℓ} {A : Type ℓ} where
  -- what `find` answers: the first element that passes, with those before it
  pub record Found (p : A → Bool) (xs : List A) (x : A) : Type ℓ where
    pub before : List A
    pub rest : List A
    pub splits : xs ≡ before ++ x ∷ rest
    pub passes : p x ≡ true
    pub skipped : All (λ y. p y ≡ false) before

  All-same :
      (p q : A → Bool) (xs : List A)
      → ((x : A) → p x ≡ q x)
      → All (λ x. p x ≡ false) xs
      → All (λ x. q x ≡ false) xs
  All-same p q [] h a = tt
  All-same p q (x ∷ xs) h (e, a) = (sym (h x) ∙ e, All-same p q xs h a)

  pub Found-same :
      (p q : A → Bool) (xs : List A) (x : A) → ((y : A) → p y ≡ q y) → Found p xs x → Found q xs x
  Found-same p q xs x h f = record {
    before = f.before;
    rest = f.rest;
    splits = f.splits;
    passes = sym (h x) ∙ f.passes;
    skipped = All-same p q f.before h f.skipped;
  }

  pub find-Found : (p : A → Bool) (xs : List A) (x : A) → find p xs ≡ some x → Found p xs x
  find-Found p [] x h = cc
  find-Found p (y ∷ ys) x h = at (p y) refl h (find-Found p ys x)
    where
      at :
          (b : Bool)
          → p y ≡ b
          → (elim b as (λ _. Option A) [ true ↦ some y | false ↦ find p ys ]) ≡ some x
          → (find p ys ≡ some x → Found p ys x)
          → Found p (y ∷ ys) x
      at true e k later = record {
        before = [];
        rest = ys;
        splits = ap (λ z. z ∷ ys) same;
        passes = subst (λ z. p z ≡ true) same e;
        skipped = tt;
      }
        where
          same : y ≡ x
          same = cc
      at false e k later =
          let f = later k in
          record {
            before = y ∷ f.before;
            rest = f.rest;
            splits = ap (λ l. y ∷ l) f.splits;
            passes = f.passes;
            skipped = (e, f.skipped);
          }

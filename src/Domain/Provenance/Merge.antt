-- ===== src/Domain/Provenance/Merge.antt =====
-- What `mergeProvenance` keeps: the union of each key's values, each once.
use autonomous_agent.Common.{
  String, ◌≡◌, refl, sym, ◌∙◌, ap, subst, Bool, true, false, ◌||◌, ◌===◌, Option, none, some, List,
  [], ◌∷◌, ◌++◌, map, any, includes, or_else, eq_iff, if◌then◌else◌, arith, Bool-cases, inl, inr,
}
use autonomous_agent.Domain.Provenance.{Provenance, add_new, merge_values, merge_key, when_any}

includes-append :
    (xs ys : List String) (v : String) → includes (xs ++ ys) v ≡ includes xs v || includes ys v
includes-append [] ys v = refl
includes-append (x ∷ xs) ys v = ground (arith, includes-append xs ys v)

-- pushing a value that is not there yet
abbrev pub pushed : List String → String → List String
pushed m x = if includes m x then m else m ++ x ∷ []

pushed_again :
    (m : List String) (x v : String)
    → includes m x ≡ true
    → includes m v ≡ includes m v || (x === v)
pushed_again m x v h = elim (Bool-cases (x === v)) [
  | inl e ↦
      let same : x ≡ v = (eq_iff x v).0 e in
      subst (λ w. includes m w ≡ includes m w || (x === w)) same (rw h refl)
  | inr e ↦ ground (arith, e)
]

pub includes-pushed :
    (m : List String) (x v : String) → includes (pushed m x) v ≡ includes m v || (x === v)
includes-pushed m x v = elim (Bool-cases (includes m x)) [
  | inl h ↦ rw h (pushed_again m x v h)
  | inr h ↦ rw h (ground (arith, includes-append m (x ∷ []) v))
]

or_assoc : (a b c : Bool) → (a || b) || c ≡ a || (b || c)
or_assoc a b c = ground arith

pub includes-add_new :
    (vs m : List String) (v : String) → includes (add_new m vs) v ≡ includes m v || includes vs v
unfolding add_new
includes-add_new [] m v = ground arith
includes-add_new (x ∷ vs) m v =
    includes-add_new vs (pushed m x) v
    ∙ ap (λ b. b || includes vs v) (includes-pushed m x v)
    ∙ or_assoc (includes m v) (x === v) (includes vs v)

-- a part's value for the key
abbrev pub has_value : String → Option (List String) → Bool
has_value v values = includes (or_else values []) v

pub includes-merge_values :
    (parts : List (Option (List String))) (m : List String) (v : String)
    → includes (merge_values m parts) v ≡ includes m v || any (has_value v) parts
unfolding merge_values
includes-merge_values [] m v = ground arith
includes-merge_values (none ∷ parts) m v = includes-merge_values parts m v
includes-merge_values (some vs ∷ parts) m v =
    includes-merge_values parts (add_new m vs) v
    ∙ ap (λ b. b || any (has_value v) parts) (includes-add_new vs m v)
    ∙ or_assoc (includes m v) (includes vs v) (any (has_value v) parts)

-- A value is under a merged key exactly when one of the parts has it under the key.
pub includes-merge_key :
    (key : Provenance → Option (List String)) (parts : List Provenance) (v : String)
    → includes (or_else (merge_key key parts) []) v
      ≡ any (λ p. includes (or_else (key p) []) v) parts
unfolding merge_key
includes-merge_key key parts v =
    or_else_when_any (merge_values [] (map key parts))
    ∙ includes-merge_values (map key parts) [] v
    ∙ any-map parts
  where
    or_else_when_any : (l : List String) → includes (or_else (when_any l) []) v ≡ includes l v
    or_else_when_any [] = refl
    or_else_when_any (x ∷ l) = refl

    any-map :
        (ps : List Provenance)
        → any (has_value v) (map key ps) ≡ any (λ p. includes (or_else (key p) []) v) ps
    any-map [] = refl
    any-map (p ∷ ps) = ap (λ b. includes (or_else (key p) []) v || b) (any-map ps)

-- no text stands twice
abbrev pub IsDistinct : List String → Type 0
IsDistinct [] = Unit
IsDistinct (x ∷ xs) = (includes xs x ≡ false) × IsDistinct xs

differ_sym : (x y : String) → (x === y) ≡ false → (y === x) ≡ false
differ_sym x y h = elim (Bool-cases (y === x)) [
  | inl e ↦
      subst (λ w. (w === x) ≡ false) (sym ((eq_iff y x).0 e))
        (subst (λ w. (x === w) ≡ false) ((eq_iff y x).0 e) h)
  | inr e ↦ e
]

neither : (a b : Bool) → a || b ≡ false → (a ≡ false) × (b ≡ false)
neither a b h = ground (arith, h)

both_lost : (a b : Bool) → a ≡ false → b ≡ false → a || (b || false) ≡ false
both_lost a b h k = ground (arith, h, k)

append-IsDistinct :
    (m : List String) (x : String) → IsDistinct m → includes m x ≡ false → IsDistinct (m ++ x ∷ [])
append-IsDistinct [] x d h = (refl, tt)
append-IsDistinct (y ∷ m) x (h0, d) h =
    let (apart, fresh) = neither (y === x) (includes m x) h in
    (
      includes-append m (x ∷ []) y ∙ both_lost (includes m y) (x === y) h0 (differ_sym y x apart),
      append-IsDistinct m x d fresh,
    )

pushed-IsDistinct : (m : List String) (x : String) → IsDistinct m → IsDistinct (pushed m x)
pushed-IsDistinct m x d = elim (Bool-cases (includes m x)) [
  | inl h ↦ rw h d
  | inr h ↦ rw h (append-IsDistinct m x d h)
]

add_new-IsDistinct : (vs m : List String) → IsDistinct m → IsDistinct (add_new m vs)
unfolding add_new
add_new-IsDistinct [] m d = d
add_new-IsDistinct (x ∷ vs) m d = add_new-IsDistinct vs (pushed m x) (pushed-IsDistinct m x d)

pub merge_values-IsDistinct :
    (parts : List (Option (List String))) (m : List String)
    → IsDistinct m
    → IsDistinct (merge_values m parts)
unfolding merge_values
merge_values-IsDistinct [] m d = d
merge_values-IsDistinct (none ∷ parts) m d = merge_values-IsDistinct parts m d
merge_values-IsDistinct (some vs ∷ parts) m d =
    merge_values-IsDistinct parts (add_new m vs) (add_new-IsDistinct vs m d)

-- No value stands twice under a merged key, whatever the parts repeat.
pub merge_key-IsDistinct :
    (key : Provenance → Option (List String)) (parts : List Provenance)
    → IsDistinct (or_else (merge_key key parts) [])
unfolding merge_key
merge_key-IsDistinct key parts =
    kept (merge_values [] (map key parts)) (merge_values-IsDistinct (map key parts) [] tt)
  where
    kept : (l : List String) → IsDistinct l → IsDistinct (or_else (when_any l) [])
    kept [] d = tt
    kept (x ∷ l) d = d

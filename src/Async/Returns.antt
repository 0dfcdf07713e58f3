-- ===== src/Async/Returns.antt =====
-- What a method settles to, when it does not throw.
use autonomous_agent.Async.{Async, Settled, fulfilled, rejected, pure, proceed, ◌>>=◌}

module _ {A : Type 0} where
  abbrev pub Good : (A → Type 0) → Settled A → Type 0
  Good P (fulfilled a) = P a
  Good P (rejected e) = Unit

pub record Returns {S A : Type 0} (P : A → Type 0) (m : Async S A) : Type 0 where
  pub at : (s : S) → Good P (m s).0

module _ {S A : Type 0} where
  pub Returns-pure : (P : A → Type 0) (a : A) → P a → Returns {S = S} P (pure a)
  unfolding pure
  Returns-pure P a h = record { at = λ s. h }

  -- nothing is known of the value
  pub Returns-any : (m : Async S A) → Returns (λ _. Unit) m
  Returns-any m = record { at = λ s. any_good (m s).0 }
    where
      any_good : (r : Settled A) → Good (λ _. Unit) r
      any_good (fulfilled a) = tt
      any_good (rejected e) = tt

module _ {S A B : Type 0} where
  proceed-Returns :
      (P : A → Type 0) (Q : B → Type 0) (r : Settled A) (k : A → Async S B) (s : S)
      → Good P r
      → ((a : A) → P a → Returns Q (k a))
      → Good Q (proceed r k s).0
  proceed-Returns P Q (fulfilled a) k s h hk = (hk a h).at s
  proceed-Returns P Q (rejected e) k s h hk = tt

  pub Returns-bind :
      (P : A → Type 0) (Q : B → Type 0) (m : Async S A) (k : A → Async S B)
      → Returns P m
      → ((a : A) → P a → Returns Q (k a))
      → Returns Q (m >>= k)
  unfolding ◌>>=◌
  Returns-bind P Q m k h hk = record { at = λ s. proceed-Returns P Q (m s).0 k (m s).1 (h.at s) hk }

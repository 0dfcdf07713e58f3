-- ===== src/Async/Always.antt =====
-- A method that never throws, and what it settles to.
use autonomous_agent.Domain.Thrown.{Thrown}
use autonomous_agent.Async.{
  Async, Settled, fulfilled, rejected, pure, settle, catch, proceed, recover, ◌>>=◌,
}

module _ {A : Type 0} where
  abbrev pub Sure : (A → Type 0) → Settled A → Type 0
  Sure P (fulfilled a) = P a
  Sure P (rejected e) = ⊥

pub record Always {S A : Type 0} (P : A → Type 0) (m : Async S A) : Type 0 where
  pub at : (s : S) → Sure P (m s).0

module _ {S A : Type 0} where
  pub Always-pure : (P : A → Type 0) (a : A) → P a → Always {S = S} P (pure a)
  unfolding pure
  Always-pure P a h = record { at = λ s. h }

  pub Always-settle : (P : A → Type 0) (r : Settled A) → Sure P r → Always {S = S} P (settle r)
  unfolding settle
  Always-settle P r h = record { at = λ s. h }

  recover-Always :
      (P : A → Type 0) (r : Settled A) (handler : Thrown → Async S A) (s : S)
      → (P-any : (a : A) → P a) → ((e : Thrown) → Always P (handler e))
      → Sure P (recover r handler s).0
  recover-Always P (fulfilled a) handler s any h = any a
  recover-Always P (rejected e) handler s any h = (h e).at s

  -- a handler that never throws
  pub Always-catch :
      (m : Async S A) (handler : Thrown → Async S A)
      → ((e : Thrown) → Always (λ _. Unit) (handler e))
      → Always (λ _. Unit) (catch m handler)
  unfolding catch
  Always-catch m handler h = record {
    at = λ s. recover-Always (λ _. Unit) (m s).0 handler (m s).1 (λ a. tt) h;
  }

module _ {S A B : Type 0} where
  proceed-Always :
      (P : A → Type 0) (Q : B → Type 0) (r : Settled A) (k : A → Async S B) (s : S)
      → Sure P r
      → ((a : A) → P a → Always Q (k a))
      → Sure Q (proceed r k s).0
  proceed-Always P Q (fulfilled a) k s h hk = (hk a h).at s
  proceed-Always P Q (rejected e) k s h hk = elim h [ ]

  pub Always-bind :
      (P : A → Type 0) (Q : B → Type 0) (m : Async S A) (k : A → Async S B)
      → Always P m
      → ((a : A) → P a → Always Q (k a))
      → Always Q (m >>= k)
  unfolding ◌>>=◌
  Always-bind P Q m k h hk = record { at = λ s. proceed-Always P Q (m s).0 k (m s).1 (h.at s) hk }

module _ {A : Type 0} where
  Sure-weaken : (P Q : A → Type 0) (r : Settled A) → ((a : A) → P a → Q a) → Sure P r → Sure Q r
  Sure-weaken P Q (fulfilled a) h p = h a p
  Sure-weaken P Q (rejected e) h p = elim p [ ]

module _ {S A : Type 0} where
  pub Always-weaken :
      (P Q : A → Type 0) (m : Async S A) → ((a : A) → P a → Q a) → Always P m → Always Q m
  Always-weaken P Q m h p = record { at = λ s. Sure-weaken P Q (m s).0 h (p.at s) }

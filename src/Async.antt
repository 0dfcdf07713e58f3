-- ===== src/Async.antt =====
-- Asynchronous methods: a method awaits its calls one after the other, changes a state and settles
-- to a value or a thrown error. What was changed before an error stays changed.
pub mod Moves
pub mod Returns
pub mod Always
use autonomous_agent.Common.{Bool, true, false, Option, none, some, List, [], ◌∷◌, String}
use autonomous_agent.Domain.Thrown.{Thrown, plain_error}

pub data Settled {ℓ} (A : Type ℓ) : Type ℓ where
  fulfilled : A → Settled A
  rejected : Thrown → Settled A

abbrev pub Async : Type 0 → Type 0 → Type 0
Async S A = S → Settled A × S

-- `new Error(message)`
abbrev pub error_of : String → Thrown
error_of message = record { class = plain_error; message = message; errors = none }

module _ {S A : Type 0} where
  unfoldable pub pure : A → Async S A
  pure a s = (fulfilled a, s)

  unfoldable pub throw : Thrown → Async S A
  throw e s = (rejected e, s)

  unfoldable pub settle : Settled A → Async S A
  settle r s = (r, s)

  unfoldable pub gets : (S → A) → Async S A
  gets f s = (fulfilled (f s), s)

module _ {S : Type 0} where
  unfoldable pub modify : (S → S) → Async S (Unit {0})
  modify f s = (fulfilled tt, f s)

module _ {S A B : Type 0} where
  abbrev pub proceed : Settled A → (A → Async S B) → Async S B
  proceed (fulfilled a) k s = k a s
  proceed (rejected e) k s = (rejected e, s)

  infixl 10 ◌>>=◌ ◌>>◌
  -- opening this opens `pure`, `throw`, `settle`, `gets` and `modify` too
  unfoldable pub ◌>>=◌ : Async S A → (A → Async S B) → Async S B
  unfolding pure throw settle gets modify
  ◌>>=◌ m k s = let (r, t) = m s in proceed r k t

  abbrev pub ◌>>◌ : Async S A → Async S B → Async S B
  m >> n = m >>= λ _. n

module _ {S A : Type 0} where
  abbrev pub recover : Settled A → (Thrown → Async S A) → Async S A
  recover (fulfilled a) handler s = (fulfilled a, s)
  recover (rejected e) handler s = handler e s

  -- `try { m } catch (e) { handler(e) }`
  unfoldable pub catch : Async S A → (Thrown → Async S A) → Async S A
  catch m handler s = let (r, t) = m s in recover r handler t

module _ {S A : Type 0} where
  -- `for (const x of xs) await body(x)`
  unfoldable pub for_each : List A → (A → Async S (Unit {0})) → Async S (Unit {0})
  unfolding ◌>>=◌
  for_each [] body = pure tt
  for_each (x ∷ xs) body = body x >> for_each xs body

module _ {S A : Type 0} where
  -- `if (x) await f(x)` for an optional value
  unfoldable pub when_some : Option A → (A → Async S (Unit {0})) → Async S (Unit {0})
  unfolding pure
  when_some none f = pure tt
  when_some (some a) f = f a

module _ {S : Type 0} where
  -- `if (test) await m`
  unfoldable pub when_true : Bool → Async S (Unit {0}) → Async S (Unit {0})
  unfolding pure
  when_true true m = m
  when_true false m = pure tt

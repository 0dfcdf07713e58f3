-- ===== src/Async/Moves.antt =====
-- A relation between the states before and after a method, one rule for each way to build a method.
use autonomous_agent.Common.{
  ◌≡◌, refl, List, [], ◌∷◌, Bool, true, false, if◌then◌else◌, Option, none, some,
}
use autonomous_agent.Domain.Thrown.{Thrown}
use autonomous_agent.Async.{
  Settled, fulfilled, rejected, Async, pure, throw, settle, gets, proceed, ◌>>=◌, recover, catch,
  for_each, when_some, when_true,
}

pub record Moves {S A : Type 0} (R : S → S → Type 0) (m : Async S A) : Type 0 where
  pub at : (s : S) → R s (m s).1

pub record IsPreorder {S : Type 0} (R : S → S → Type 0) : Type 0 where
  pub same : (s : S) → R s s
  pub chain : (s t u : S) → R s t → R t u → R s u

module _ {S A : Type 0} {R : S → S → Type 0} (order : IsPreorder R) where
  pub Moves-settle : (r : Settled A) → Moves R (settle r)
  unfolding settle
  Moves-settle r = record { at = order.same }

  pub Moves-pure : (a : A) → Moves R (pure a)
  unfolding pure
  Moves-pure a = record { at = order.same }

  pub Moves-throw : (e : Thrown) → Moves {A = A} R (throw e)
  unfolding throw
  Moves-throw e = record { at = order.same }

  pub Moves-gets : (f : S → A) → Moves R (gets f)
  unfolding gets
  Moves-gets f = record { at = order.same }

  pub Moves-if :
      (b : Bool) (m n : Async S A)
      → (b ≡ true → Moves R m)
      → (b ≡ false → Moves R n)
      → Moves R (if b then m else n)
  Moves-if true m n hm hn = hm refl
  Moves-if false m n hm hn = hn refl

  pub Moves-option {ℓ} :
      {B : Type ℓ} (o : Option B) (m : Async S A) (f : B → Async S A)
      → Moves R m
      → ((b : B) → Moves R (f b))
      → Moves R (elim o as (λ _. Async S A) [ none ↦ m | some b ↦ f b ])
  Moves-option none m f hm hf = hm
  Moves-option (some b) m f hm hf = hf b

module _ {S A B : Type 0} {R : S → S → Type 0} (order : IsPreorder R) where
  proceed-Moves :
      (r : Settled A) (k : A → Async S B) (s : S)
      → ((a : A) → Moves R (k a))
      → R s (proceed r k s).1
  proceed-Moves (fulfilled a) k s hk = (hk a).at s
  proceed-Moves (rejected e) k s hk = order.same s

  pub Moves-bind :
      (m : Async S A) (k : A → Async S B)
      → Moves R m
      → ((a : A) → Moves R (k a))
      → Moves R (m >>= k)
  unfolding ◌>>=◌
  Moves-bind m k hm hk = record {
    at = λ s. order.chain s (m s).1 _ (hm.at s) (proceed-Moves (m s).0 k (m s).1 hk);
  }

module _ {S A : Type 0} {R : S → S → Type 0} (order : IsPreorder R) where
  recover-Moves :
      (r : Settled A) (handler : Thrown → Async S A) (s : S)
      → ((e : Thrown) → Moves R (handler e))
      → R s (recover r handler s).1
  recover-Moves (fulfilled a) handler s hh = order.same s
  recover-Moves (rejected e) handler s hh = (hh e).at s

  pub Moves-catch :
      (m : Async S A) (handler : Thrown → Async S A)
      → Moves R m
      → ((e : Thrown) → Moves R (handler e))
      → Moves R (catch m handler)
  unfolding catch
  Moves-catch m handler hm hh = record {
    at = λ s. order.chain s (m s).1 _ (hm.at s) (recover-Moves (m s).0 handler (m s).1 hh);
  }

  pub Moves-for_each :
      (xs : List A) (body : A → Async S (Unit {0}))
      → ((x : A) → Moves R (body x))
      → Moves R (for_each xs body)
  unfolding for_each
  Moves-for_each [] body hb = Moves-pure order tt
  Moves-for_each (x ∷ xs) body hb =
      Moves-bind order (body x) (λ _. for_each xs body) (hb x) (λ _. Moves-for_each xs body hb)

  pub Moves-when_some :
      (o : Option A) (f : A → Async S (Unit {0}))
      → ((a : A) → Moves R (f a))
      → Moves R (when_some o f)
  unfolding when_some
  Moves-when_some none f hf = Moves-pure order tt
  Moves-when_some (some a) f hf = hf a

module _ {S : Type 0} {R : S → S → Type 0} (order : IsPreorder R) where
  pub Moves-when_true : (b : Bool) (m : Async S (Unit {0})) → Moves R m → Moves R (when_true b m)
  unfolding when_true
  Moves-when_true true m hm = hm
  Moves-when_true false m hm = Moves-pure order tt

pub ruleset moves_rules = (
  Moves-settle, Moves-pure, Moves-throw, Moves-gets, Moves-if, Moves-bind, Moves-for_each,
  Moves-when_some, Moves-when_true,
)

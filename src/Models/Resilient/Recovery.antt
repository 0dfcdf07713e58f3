-- ===== src/Models/Resilient/Recovery.antt =====
-- What the retries answer, against a description of it on the provider's outcomes in their order.
use autonomous_agent.Common.{
  ℕ, zero, suc, ◌+◌, ◌≡◌, refl, ap, ◌∙◌, true, false, List, [], ◌∷◌, ◌++◌, length, arith,
}
use autonomous_agent.Async.{Async, Settled, fulfilled, rejected, throw, catch, error_of, ◌>>=◌}
use autonomous_agent.Domain.Thrown.{Thrown}
use autonomous_agent.Models.Contracts.{is_retryable_model_error}
use autonomous_agent.Models.Resilient.{
  ResilienceOptions, Counted, call_next, retry_after_sleep, retry_loop, with_retries,
}

-- a provider that answers as the script says, and the attempts that it was told, the newest first
pub record Scripted (A : Type 0) : Type 0 where
  pub ahead : List (Settled A)
  pub attempts : List ℕ

module _ {A : Type 0} where
  abbrev pub answer : List (Settled A) → List ℕ → ℕ → Settled A × Scripted A
  answer [] told n =
      (rejected (error_of "the script is over"), record { ahead = []; attempts = n ∷ told })
  answer (r ∷ rs) told n = (r, record { ahead = rs; attempts = n ∷ told })

  unfoldable pub scripted : ℕ → Async (Scripted A) A
  scripted n s = answer s.ahead s.attempts n

  -- the attempts start + 1, …, start + n, the newest first
  abbrev pub numbered_after : ℕ → List (Settled A) → List ℕ → List ℕ
  numbered_after start [] told = told
  numbered_after start (r ∷ rs) told = numbered_after (start + 1) rs ((start + 1) ∷ told)

  -- the outcomes up to the first one that ends the retries
  pub data Course : ℕ → List (Settled A) → Settled A → Type 0 where
    answered : {left : ℕ} (a : A) → Course left (fulfilled a ∷ []) (fulfilled a)
    refused :
        {left : ℕ} (e : Thrown)
        → is_retryable_model_error e ≡ false
        → Course left (rejected e ∷ []) (rejected e)
    exhausted : (r : Settled A) → Course 0 (r ∷ []) r
    retried :
        {left : ℕ} (e : Thrown) {rs : List (Settled A)} {r : Settled A}
        → is_retryable_model_error e ≡ true
        → Course left rs r
        → Course (suc left) (rejected e ∷ rs) r

module _ {A : Type 0} (options : ResilienceOptions (Scripted A)) where
  -- the state of the loop after the outcomes `rs`
  abbrev pub after : ℕ → List (Settled A) → List (Settled A) → List ℕ → Counted (Scripted A)
  after start rs later told = record {
    current = start + length rs;
    inner = record { ahead = later; attempts = numbered_after start rs told };
  }

  retry_loop-Course :
      (left retry start : ℕ) (rs later : List (Settled A)) (r : Settled A) (told : List ℕ)
      → ((ms : ℕ) (s : Scripted A) → options.sleep ms s ≡ (fulfilled tt, s))
      → Course left rs r
      → retry_loop options left retry scripted
          (record { current = start; inner = record { ahead = rs ++ later; attempts = told } })
        ≡ (r, after start rs later told)
  unfolding retry_loop call_next scripted catch retry_after_sleep throw ◌>>=◌
  retry_loop-Course zero retry start rs later r told quiet (answered a) = refl
  retry_loop-Course (suc left) retry start rs later r told quiet (answered a) = refl
  retry_loop-Course zero retry start rs later r told quiet (refused e no_retry) = refl
  retry_loop-Course (suc left) retry start rs later r told quiet (refused e no_retry) =
      rw (retry_after_sleep, no_retry) refl
  retry_loop-Course zero retry start rs later r told quiet (exhausted q) = refl
  retry_loop-Course (suc left) retry start rs later r told quiet (retried e {rs = ts} again c) =
      rw (retry_after_sleep, again, quiet)
        (retry_loop-Course left (suc retry) (start + 1) ts later r _ quiet c
          ∙ ap
              (λ n. (
                r,
                record {
                  current = n;
                  inner = record {
                    ahead = later;
                    attempts = numbered_after (start + 1) ts ((start + 1) ∷ told);
                  };
                },
              ))
              (omega arith))

  -- The retries answer with the first outcome that is not a transient failure, within the first
  -- `max_retries + 1` outcomes, or else with the last of these; they consume exactly the outcomes up
  -- to there, and number the attempts one after the other.
  pub with_retries-Course :
      (start : ℕ) (rs later : List (Settled A)) (r : Settled A) (told : List ℕ)
      → ((ms : ℕ) (s : Scripted A) → options.sleep ms s ≡ (fulfilled tt, s))
      → Course options.max_retries rs r
      → with_retries options scripted
          (record { current = start; inner = record { ahead = rs ++ later; attempts = told } })
        ≡ (r, after start rs later told)
  unfolding with_retries
  with_retries-Course start = retry_loop-Course options.max_retries 0 start

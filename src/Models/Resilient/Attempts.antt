-- ===== src/Models/Resilient/Attempts.antt =====
-- How often the inner provider is called.
use autonomous_agent.Common.{
  ℕ, ◌-◌, or_else, zero, suc, ◌+◌, ◌*◌, ◌^◌, ◌≤◌, Option, none, some, List, arith, min, Bool-cases,
  inl, inr,
}
use autonomous_agent.Async.{
  Async, Settled, fulfilled, rejected, proceed, recover, throw, catch, settle, pure, ◌>>=◌,
}
use autonomous_agent.Domain.Thrown.{Thrown}
use autonomous_agent.Models.Contracts.{
  ModelMessage, StructuredModelRequest, StructuredModelResponse, ToolActionRequest,
  ToolActionResponse, ModelProvider, is_retryable_model_error, parse_ok, parse_fail, ParseResult,
}
use autonomous_agent.Models.Resilient.{
  ResilienceOptions, Counted, delay_for, call_next, retry_after_sleep, retry_loop, with_retries,
  retry_after, ask_loop, accept_or_ask_again, ask_action_again, action_loop, inside, render_raw,
  structured_generate, is_reaskable, with_correction,
}

-- No wait is longer than the limit.
pub delay_for_le :
    {S : Type 0} (options : ResilienceOptions S) (retry : ℕ) (e : Thrown)
    → delay_for options retry e ≤ options.max_delay_ms
unfolding delay_for
delay_for_le options retry e = at (retry_after e)
  where
    at :
        (o : Option ℕ)
        → (elim o [
          | some after ↦ min after options.max_delay_ms
          | none ↦ min (options.base_delay_ms * 2 ^ retry) options.max_delay_ms
        ])
          ≤ options.max_delay_ms
    at none = omega arith
    at (some after) = omega arith

-- `calls` counts in the state of the inner provider how often the provider was called: a method of the
-- provider that adds at most `n` to it
pub record Costs {S A : Type 0} (calls : S → ℕ) (n : ℕ) (m : Async S A) : Type 0 where
  pub upper : (s : S) → calls (m s).1 ≤ calls s + n

module _ {S A : Type 0} (calls : S → ℕ) where
  -- a method over the provider that adds at most `n`
  pub record AtMost (n : ℕ) (m : Async (Counted S) A) : Type 0 where
    pub upper : (s : Counted S) → calls (m s).1.inner ≤ calls s.inner + n

  AtMost-inside : (n : ℕ) (m : Async S A) → Costs calls n m → AtMost n (inside m)
  AtMost-inside n m c = record { upper = λ s. omega (arith, c.upper s.inner) }

  AtMost-settle : (r : Settled A) → AtMost 0 (settle r)
  unfolding settle
  AtMost-settle r = record { upper = λ s. omega arith }

  AtMost-throw : (e : Thrown) → AtMost 0 (throw e)
  unfolding throw
  AtMost-throw e = record { upper = λ s. omega arith }

  AtMost-pure : (a : A) → AtMost 0 (pure a)
  unfolding pure
  AtMost-pure a = record { upper = λ s. omega arith }

  AtMost-call_next :
      (call : ℕ → Async S A) → ((n : ℕ) → Costs calls 1 (call n)) → AtMost 1 (call_next call)
  unfolding call_next
  AtMost-call_next call c = record { upper = λ s. (c (s.current + 1)).upper s.inner }

  AtMost-more : {n : ℕ} (k : ℕ) {m : Async (Counted S) A} → n ≤ k → AtMost n m → AtMost k m
  AtMost-more k h p = record { upper = λ s. omega (arith, p.upper s) }

  recover-AtMost :
      (n : ℕ) (r : Settled A) (h : Thrown → Async (Counted S) A)
      → ((e : Thrown) → AtMost n (h e))
      → AtMost n (recover r h)
  recover-AtMost n (fulfilled a) h p = record { upper = λ s. omega arith }
  recover-AtMost n (rejected e) h p = p e

  AtMost-catch :
      (k n : ℕ) (m : Async (Counted S) A) (h : Thrown → Async (Counted S) A)
      → AtMost k m
      → ((e : Thrown) → AtMost n (h e))
      → AtMost (k + n) (catch m h)
  unfolding catch
  AtMost-catch k n m h p q = record {
    upper = λ s. omega (arith, p.upper s, (recover-AtMost n (m s).0 h q).upper (m s).1);
  }

module _ {S A B : Type 0} (calls : S → ℕ) where
  proceed-AtMost :
      (n : ℕ) (r : Settled A) (f : A → Async (Counted S) B)
      → ((a : A) → AtMost calls n (f a))
      → AtMost calls n (proceed r f)
  proceed-AtMost n (fulfilled a) f p = p a
  proceed-AtMost n (rejected e) f p = record { upper = λ s. omega arith }

  AtMost-bind :
      (k n : ℕ) (m : Async (Counted S) A) (f : A → Async (Counted S) B)
      → AtMost calls k m
      → ((a : A) → AtMost calls n (f a))
      → AtMost calls (k + n) (m >>= f)
  unfolding ◌>>=◌
  AtMost-bind k n m f p q = record {
    upper = λ s. omega (arith, p.upper s, (proceed-AtMost n (m s).0 f q).upper (m s).1);
  }

module _ {S A : Type 0} (calls : S → ℕ) (options : ResilienceOptions S)
    (sleeps : (ms : ℕ) → Costs calls 0 (options.sleep ms)) where
  AtMost-retry_after_sleep :
      (n retry : ℕ) (again : Async (Counted S) A) (e : Thrown)
      → AtMost calls n again
      → AtMost calls n (retry_after_sleep options retry again e)
  unfolding retry_after_sleep
  AtMost-retry_after_sleep n retry again e p = elim (Bool-cases (is_retryable_model_error e)) [
    | inl y ↦ rw y (
        AtMost-more calls n (omega arith)
          (AtMost-bind calls 0 n _ _ (AtMost-inside calls 0 _ (sleeps _)) (λ _. p)))
    | inr w ↦ rw w (AtMost-more calls n (omega arith) (AtMost-throw calls e))
  ]

  AtMost-retry_loop :
      (left retry : ℕ) (call : ℕ → Async S A)
      → ((n : ℕ) → Costs calls 1 (call n))
      → AtMost calls (suc left) (retry_loop options left retry call)
  unfolding retry_loop
  AtMost-retry_loop zero retry call c = AtMost-call_next calls call c
  AtMost-retry_loop (suc left) retry call c = AtMost-more calls (suc (suc left)) (omega arith) (
      AtMost-catch calls 1 (suc left) _ _ (AtMost-call_next calls call c) (λ e.
        AtMost-retry_after_sleep (suc left) retry _ e (AtMost-retry_loop left (suc retry) call c)))

  -- One logical call is made at most once and `max_retries` times again.
  pub AtMost-with_retries :
      (call : ℕ → Async S A)
      → ((n : ℕ) → Costs calls 1 (call n))
      → AtMost calls (options.max_retries + 1) (with_retries options call)
  unfolding with_retries
  AtMost-with_retries call c =
      AtMost-more calls _ (omega arith) (AtMost-retry_loop options.max_retries 0 call c)

module _ {S T : Type 0} (calls : S → ℕ) (options : ResilienceOptions S) (inner : ModelProvider S T)
    (sleeps : (ms : ℕ) → Costs calls 0 (options.sleep ms)) where
  AtMost-accept :
      (n : ℕ) (again : List ModelMessage → Async (Counted S) (StructuredModelResponse T))
      (messages : List ModelMessage) (response : StructuredModelResponse T)
      → ((ms : List ModelMessage) → AtMost calls n (again ms))
      → AtMost calls n (accept_or_ask_again options inner again messages response)
  unfolding accept_or_ask_again
  AtMost-accept n again messages response p = at response.parsed
    where
      at :
          (o : ParseResult T)
          → AtMost calls n (elim o as (λ _. Async (Counted S) (StructuredModelResponse T)) [
            | parse_ok _ ↦ pure response
            | parse_fail errors ↦ settle (render_raw response.raw) >>= λ answer.
                again (with_correction messages answer errors)
          ])
      at (parse_ok v) = AtMost-more calls n (omega arith) (AtMost-pure calls response)
      at (parse_fail errors) =
          AtMost-more calls n (omega arith)
            (AtMost-bind calls 0 n _ _ (AtMost-settle calls _) (λ _. p _))

  module _
      (once : (r : StructuredModelRequest T) → Costs calls 1 (inner.structured_generate r)) where
    AtMost-ask_loop :
        (left : ℕ) (r : StructuredModelRequest T) (messages : List ModelMessage)
        → AtMost calls
            ((left + 1) * (options.max_retries + 1))
            (ask_loop options inner left r messages)
    unfolding ask_loop
    AtMost-ask_loop zero r messages =
        AtMost-more calls _ (grind arith) (AtMost-with_retries calls options sleeps _ (λ n. once _))
    AtMost-ask_loop (suc left) r messages = AtMost-more calls _ (grind arith) (
        AtMost-bind calls _ _ _ _ (AtMost-with_retries calls options sleeps _ (λ n. once _))
          (λ response.
            AtMost-accept ((left + 1) * (options.max_retries + 1)) _ messages response
              (AtMost-ask_loop left r)))

    -- A structured call calls the inner provider at most (max_reasks + 1) * (max_retries + 1) times, if
    -- one call of it counts as at most one and sleeping calls it not at all.
    pub structured_generate-Costs :
        (r : StructuredModelRequest T)
        → Costs calls
            ((options.max_reasks + 1) * (options.max_retries + 1))
            (structured_generate options inner r)
    unfolding structured_generate
    structured_generate-Costs r = record {
      upper = λ s.
          (AtMost-ask_loop options.max_reasks r r.request.messages).upper
            (record { current = or_else r.request.attempt 1 - 1; inner = s });
    }

  AtMost-action_again :
      (n : ℕ) (again : List ModelMessage → Async (Counted S) ToolActionResponse)
      (messages : List ModelMessage) (e : Thrown)
      → ((ms : List ModelMessage) → AtMost calls n (again ms))
      → AtMost calls n (ask_action_again options inner again messages e)
  unfolding ask_action_again
  AtMost-action_again n again messages e p = elim (Bool-cases (is_reaskable e)) [
    | inl y ↦ rw y (p _)
    | inr w ↦ rw w (AtMost-more calls n (omega arith) (AtMost-throw calls e))
  ]

  module _ (once : (r : ToolActionRequest) → Costs calls 1 (inner.request_tool_action r)) where
    -- So does a request for a tool action.
    AtMost-action_loop :
        (left : ℕ) (r : ToolActionRequest) (messages : List ModelMessage)
        → AtMost calls
            ((left + 1) * (options.max_retries + 1))
            (action_loop options inner left r messages)
    unfolding action_loop
    AtMost-action_loop zero r messages =
        AtMost-more calls _ (grind arith) (AtMost-with_retries calls options sleeps _ (λ n. once _))
    AtMost-action_loop (suc left) r messages = AtMost-more calls _ (grind arith) (
        AtMost-catch calls _ _ _ _ (AtMost-with_retries calls options sleeps _ (λ n. once _)) (λ e.
          AtMost-action_again ((left + 1) * (options.max_retries + 1)) _ messages e
            (AtMost-action_loop left r)))

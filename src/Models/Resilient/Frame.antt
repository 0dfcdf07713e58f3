-- ===== src/Models/Resilient/Frame.antt =====
-- The recovery around a provider changes the state only through the provider and through its sleeps:
-- any preorder that these keep to, it keeps to.
use autonomous_agent.Common.{ℕ, zero, suc, ◌+◌, ◌≡◌, ◌⊎◌, inl, inr, refl, String, Option, List}
use autonomous_agent.Async.{Async}
use autonomous_agent.Async.Moves.{
  Moves, IsPreorder, Moves-bind, Moves-pure, Moves-throw, Moves-settle, Moves-catch, Moves-if,
}
use autonomous_agent.Domain.Thrown.{Thrown}
use autonomous_agent.Models.Contracts.{
  ModelMessage, ModelProvider, StructuredModelRequest, StructuredModelResponse, ToolActionRequest,
  ToolActionResponse, ParseResult, parse_ok, parse_fail, is_retryable_model_error,
}
use autonomous_agent.Models.Resilient.{
  ResilienceOptions, Counted, call_next, inside, counted_from, retry_after_sleep, retry_loop,
  with_retries, accept_or_ask_again, ask_loop, structured_generate, ask_action_again, action_loop,
  request_tool_action, is_reaskable,
}

ParseResult-cases :
    {T : Type 0} (r : ParseResult T)
    → ((value : T) × (r ≡ parse_ok value)) ⊎ ((errors : List String) × (r ≡ parse_fail errors))
ParseResult-cases (parse_ok value) = inl (value, refl)
ParseResult-cases (parse_fail errors) = inr (errors, refl)

module _ {S : Type 0} (R : S → S → Type 0) where
  -- the relation on what the inner provider works on
  abbrev Inner : Counted S → Counted S → Type 0
  Inner s t = R s.inner t.inner

module _ {S : Type 0} {R : S → S → Type 0} (order : IsPreorder R) where
  lift_order : IsPreorder (Inner R)
  lift_order = record {
    same = λ s. order.same s.inner;
    chain = λ s t u p q. order.chain s.inner t.inner u.inner p q;
  }

  module _ {A : Type 0} where
    inside-Moves : (m : Async S A) → Moves R m → Moves (Inner R) (inside m)
    inside-Moves m h = record { at = λ s. h.at s.inner }

    call_next-Moves :
        (call : ℕ → Async S A) → ((n : ℕ) → Moves R (call n)) → Moves (Inner R) (call_next call)
    unfolding call_next
    call_next-Moves call h = record { at = λ s. (h (s.current + 1)).at s.inner }

    counted_from-Moves :
        (start : Option ℕ) (m : Async (Counted S) A)
        → Moves (Inner R) m
        → Moves R (counted_from start m)
    counted_from-Moves start m h = record { at = λ s. h.at _ }

  module _ (options : ResilienceOptions S) (calm : (ms : ℕ) → Moves R (options.sleep ms)) where
    retry_after_sleep-Moves :
        {A : Type 0} (retry : ℕ) (again : Async (Counted S) A) (e : Thrown)
        → Moves (Inner R) again
        → Moves (Inner R) (retry_after_sleep options retry again e)
    unfolding retry_after_sleep
    retry_after_sleep-Moves retry again e h =
        Moves-if lift_order (is_retryable_model_error e) _ _
          (λ _. Moves-bind lift_order _ _ (inside-Moves _ (calm _)) (λ _. h))
          (λ _. Moves-throw lift_order e)

    retry_loop-Moves :
        {A : Type 0} (left retry : ℕ) (call : ℕ → Async S A)
        → ((n : ℕ) → Moves R (call n))
        → Moves (Inner R) (retry_loop options left retry call)
    unfolding retry_loop
    retry_loop-Moves zero retry call h = call_next-Moves call h
    retry_loop-Moves (suc left) retry call h =
        Moves-catch lift_order _ _ (call_next-Moves call h)
          (λ e. retry_after_sleep-Moves retry _ e (retry_loop-Moves left (suc retry) call h))

    with_retries-Moves :
        {A : Type 0} (call : ℕ → Async S A)
        → ((n : ℕ) → Moves R (call n))
        → Moves (Inner R) (with_retries options call)
    unfolding with_retries
    with_retries-Moves call h = retry_loop-Moves options.max_retries 0 call h

    module _ {T : Type 0} (inner : ModelProvider S T) where
      accept-Moves :
          (again : List ModelMessage → Async (Counted S) (StructuredModelResponse T))
          (messages : List ModelMessage) (response : StructuredModelResponse T)
          → ((ms : List ModelMessage) → Moves (Inner R) (again ms))
          → Moves (Inner R) (accept_or_ask_again options inner again messages response)
      unfolding accept_or_ask_again
      accept-Moves again messages response h = elim (ParseResult-cases response.parsed) [
        | inl (value, e) ↦ rw (accept_or_ask_again, e) (Moves-pure lift_order _)
        | inr (errors, e) ↦
            rw (accept_or_ask_again, e)
              (Moves-bind lift_order _ _ (Moves-settle lift_order _) (λ answer. h _))
      ]

      ask_loop-Moves :
          ((r : StructuredModelRequest T) → Moves R (inner.structured_generate r))
          → (left : ℕ) (r : StructuredModelRequest T) (messages : List ModelMessage)
          → Moves (Inner R) (ask_loop options inner left r messages)
      unfolding ask_loop
      ask_loop-Moves quiet zero r messages = with_retries-Moves _ (λ n. quiet _)
      ask_loop-Moves quiet (suc left) r messages =
          Moves-bind lift_order _ _ (with_retries-Moves _ (λ n. quiet _))
            (λ response. accept-Moves _ messages response (ask_loop-Moves quiet left r))

      pub structured_generate-Moves :
          ((r : StructuredModelRequest T) → Moves R (inner.structured_generate r))
          → (r : StructuredModelRequest T) → Moves R (structured_generate options inner r)
      unfolding structured_generate
      structured_generate-Moves quiet r =
          counted_from-Moves r.request.attempt _ (ask_loop-Moves quiet _ r _)

      ask_action_again-Moves :
          (again : List ModelMessage → Async (Counted S) ToolActionResponse)
          (messages : List ModelMessage) (e : Thrown)
          → ((ms : List ModelMessage) → Moves (Inner R) (again ms))
          → Moves (Inner R) (ask_action_again options inner again messages e)
      unfolding ask_action_again
      ask_action_again-Moves again messages e h =
          Moves-if lift_order (is_reaskable e) _ _ (λ _. h _) (λ _. Moves-throw lift_order e)

      action_loop-Moves :
          ((r : ToolActionRequest) → Moves R (inner.request_tool_action r))
          → (left : ℕ) (r : ToolActionRequest) (messages : List ModelMessage)
          → Moves (Inner R) (action_loop options inner left r messages)
      unfolding action_loop
      action_loop-Moves quiet zero r messages = with_retries-Moves _ (λ n. quiet _)
      action_loop-Moves quiet (suc left) r messages =
          Moves-catch lift_order _ _ (with_retries-Moves _ (λ n. quiet _))
            (λ e. ask_action_again-Moves _ messages e (action_loop-Moves quiet left r))

      pub request_tool_action-Moves :
          ((r : ToolActionRequest) → Moves R (inner.request_tool_action r))
          → (r : ToolActionRequest) → Moves R (request_tool_action options inner r)
      unfolding request_tool_action
      request_tool_action-Moves quiet r =
          counted_from-Moves r.request.attempt _ (action_loop-Moves quiet _ r _)

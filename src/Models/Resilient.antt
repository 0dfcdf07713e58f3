-- ===== src/Models/Resilient.antt =====
-- `ResilientModelProvider` of src/models/resilient-provider.ts. Its two loops recurse on what is left
-- of their budgets: `retries` and `reasks` count the budget down.
pub mod Attempts
pub mod Recovery
pub mod Frame
use autonomous_agent.Common.{
  ℕ, zero, suc, ◌+◌, ◌-◌, ◌*◌, ◌^◌, min, String, Bool, true, false, Option, none, some, List, [],
  ◌∷◌, ◌++◌, map, join, or_else, ltb, text_length, text_take, ◌<>◌, if◌then◌else◌,
}
use autonomous_agent.Async.{
  Async, Settled, fulfilled, rejected, pure, throw, settle, gets, modify, catch, error_of, ◌>>=◌,
  ◌>>◌,
}
use autonomous_agent.Domain.Value.{Value, undefined, null, str, stringify, text, absent, throws}
use autonomous_agent.Domain.Thrown.{Thrown, model_error, invalid_response, ModelErrorKind}
use autonomous_agent.Models.Contracts.{
  ModelMessage, ModelRole, ModelRequest, ModelResponse, StructuredModelRequest,
  StructuredModelResponse, ToolActionRequest, ToolActionResponse, ModelProvider,
  is_retryable_model_error, parse_ok, parse_fail, ParseResult,
}

pub record ResilienceOptions (S : Type 0) : Type 0 where
  pub max_retries : ℕ
  pub max_reasks : ℕ
  pub base_delay_ms : ℕ
  pub max_delay_ms : ℕ
  pub sleep : ℕ → Async S (Unit {0})

-- `Partial<ResilienceOptions>`: `none` is a key that is not there
pub record PartialResilienceOptions (S : Type 0) : Type 0 where
  pub max_retries : Option ℕ
  pub max_reasks : Option ℕ
  pub base_delay_ms : Option ℕ
  pub max_delay_ms : Option ℕ
  pub sleep : Option (ℕ → Async S (Unit {0}))

-- `timer` is the `setTimeout` of the platform, that the default `sleep` awaits
module _ {S : Type 0} (timer : ℕ → Async S (Unit {0})) where
  abbrev pub default_resilience : ResilienceOptions S
  default_resilience = record {
    max_retries = 2;
    max_reasks = 1;
    base_delay_ms = 500;
    max_delay_ms = 8000;
    sleep = timer;
  }

  -- `{ ...DEFAULT_RESILIENCE, ...options }`
  unfoldable pub resilience_of : PartialResilienceOptions S → ResilienceOptions S
  resilience_of options = record {
    max_retries = or_else options.max_retries default_resilience.max_retries;
    max_reasks = or_else options.max_reasks default_resilience.max_reasks;
    base_delay_ms = or_else options.base_delay_ms default_resilience.base_delay_ms;
    max_delay_ms = or_else options.max_delay_ms default_resilience.max_delay_ms;
    sleep = or_else options.sleep default_resilience.sleep;
  }

-- the state of a call: `AttemptCounter`, and what the inner provider works on
pub record Counted (S : Type 0) : Type 0 where
  pub current : ℕ
  pub inner : S

module _ {S A : Type 0} where
  abbrev pub inside : Async S A → Async (Counted S) A
  inside m s = let (r, t) = m s.inner in (r, record s { inner = t })

  -- `call(attempts.next())`
  unfoldable pub call_next : (ℕ → Async S A) → Async (Counted S) A
  call_next call s = inside (call (s.current + 1)) (record s { current = s.current + 1 })

  -- a method that makes its own counter, `new AttemptCounter(start)`
  abbrev pub counted_from : Option ℕ → Async (Counted S) A → Async S A
  counted_from start m s =
      let (r, t) = m (record { current = or_else start 1 - 1; inner = s }) in (r, t.inner)

-- `error.retryAfterMs`
unfoldable pub retry_after : Thrown → Option ℕ
retry_after e = elim e.class [ model_error _ after ↦ after | _ ↦ none ]

-- `isReaskable`
unfoldable pub is_reaskable : Thrown → Bool
is_reaskable e = elim e.class [
  | model_error kind _ ↦ elim kind [ invalid_response ↦ true | _ ↦ false ]
  | _ ↦ false
]

-- `renderRaw`
abbrev cap_raw : String → String
cap_raw t = if ltb 4000 (text_length t) then text_take 4000 t <> "…" else t

unfoldable pub render_raw : Value → Settled (Option String)
render_raw undefined = fulfilled none
render_raw null = fulfilled none
render_raw (str s) = fulfilled (some (cap_raw s))
render_raw v = elim (stringify v) [
  | text t ↦ fulfilled (some (cap_raw t))
  | absent ↦ fulfilled none
  | throws ↦ rejected (error_of "the raw answer cannot be serialized")
]

abbrev rejected_turn : Option String → List ModelMessage
rejected_turn none = []
rejected_turn (some answer) =
    record { role = ModelRole.assistant; content = answer; tool_call_id = none } ∷ []

-- `withCorrection`
unfoldable pub with_correction : List ModelMessage → Option String → List String → List ModelMessage
with_correction messages answer errors =
    messages
    ++ rejected_turn answer
    ++ record {
      role = ModelRole.user;
      content = join "\n" (
          "Your previous answer was rejected by validation:" ∷ map (λ e. "- " <> e) errors
          ++ "Answer again, correcting these problems. Return only the requested structure." ∷ []);
      tool_call_id = none;
    }
      ∷ []

module _ {S : Type 0} (options : ResilienceOptions S) where
  -- `delayFor`
  unfoldable pub delay_for : ℕ → Thrown → ℕ
  delay_for retry e = elim (retry_after e) [
    | some after ↦ min after options.max_delay_ms
    | none ↦ min (options.base_delay_ms * 2 ^ retry) options.max_delay_ms
  ]

module _ {S A : Type 0} (options : ResilienceOptions S) where
  -- the handler of `withRetries`, when a retry is left and `again` is the rest of the loop
  unfoldable pub retry_after_sleep : ℕ → Async (Counted S) A → Thrown → Async (Counted S) A
  retry_after_sleep retry again e =
      if is_retryable_model_error e
      then inside (options.sleep (delay_for options retry e)) >> again
      else throw e

  -- the loop of `withRetries`: `left` retries are left and `retry` are made
  unfoldable pub retry_loop : ℕ → ℕ → (ℕ → Async S A) → Async (Counted S) A
  retry_loop zero retry call = call_next call
  retry_loop (suc left) retry call =
      catch (call_next call) (retry_after_sleep retry (retry_loop left (suc retry) call))

  unfoldable pub with_retries : (ℕ → Async S A) → Async (Counted S) A
  with_retries call = retry_loop options.max_retries 0 call

module _ {S T : Type 0} (options : ResilienceOptions S) (inner : ModelProvider S T) where
  unfoldable pub generate : ModelRequest → Async S ModelResponse
  generate request =
      counted_from request.attempt (
        with_retries options
          (λ attempt. inner.generate (record request { attempt = some attempt })))

  abbrev with_messages : StructuredModelRequest T → List ModelMessage → ℕ → StructuredModelRequest T
  with_messages r messages attempt = record r {
    request = record (r.request) { messages = messages; attempt = some attempt };
  }

  -- one pass of the loop of `structuredGenerate`
  abbrev pub ask :
      StructuredModelRequest T → List ModelMessage → Async (Counted S) (StructuredModelResponse T)
  ask r messages =
      with_retries options (λ attempt. inner.structured_generate (with_messages r messages attempt))

  -- what `structuredGenerate` does with a response, when a re-ask is left and `again` is the rest of
  -- the loop
  unfoldable pub accept_or_ask_again :
      (List ModelMessage → Async (Counted S) (StructuredModelResponse T))
      → List ModelMessage
      → StructuredModelResponse T
      → Async (Counted S) (StructuredModelResponse T)
  accept_or_ask_again again messages response = elim response.parsed [
    | parse_ok _ ↦ pure response
    | parse_fail errors ↦ (do
      answer ← settle (render_raw response.raw)
      again (with_correction messages answer errors))
  ]

  -- the loop of `structuredGenerate`: `left` re-asks are left
  unfoldable pub ask_loop :
      ℕ
      → StructuredModelRequest T
      → List ModelMessage
      → Async (Counted S) (StructuredModelResponse T)
  ask_loop zero r messages = ask r messages
  ask_loop (suc left) r messages = ask r messages >>= accept_or_ask_again (ask_loop left r) messages

  unfoldable pub structured_generate :
      StructuredModelRequest T → Async S (StructuredModelResponse T)
  structured_generate r =
      counted_from r.request.attempt (ask_loop options.max_reasks r r.request.messages)

  abbrev with_turns : ToolActionRequest → List ModelMessage → ℕ → ToolActionRequest
  with_turns r messages attempt = record r {
    request = record (r.request) { messages = messages; attempt = some attempt };
  }

  -- the body of the `try` of `requestToolAction`
  abbrev pub ask_action :
      ToolActionRequest → List ModelMessage → Async (Counted S) ToolActionResponse
  ask_action r messages =
      with_retries options (λ attempt. inner.request_tool_action (with_turns r messages attempt))

  -- its handler, when a re-ask is left and `again` is the rest of the loop
  unfoldable pub ask_action_again :
      (List ModelMessage → Async (Counted S) ToolActionResponse)
      → List ModelMessage
      → Thrown
      → Async (Counted S) ToolActionResponse
  ask_action_again again messages e =
      if is_reaskable e then again (with_correction messages none (e.message ∷ [])) else throw e

  -- the loop of `requestToolAction`
  unfoldable pub action_loop :
      ℕ → ToolActionRequest → List ModelMessage → Async (Counted S) ToolActionResponse
  action_loop zero r messages = ask_action r messages
  action_loop (suc left) r messages =
      catch (ask_action r messages) (ask_action_again (action_loop left r) messages)

  unfoldable pub request_tool_action : ToolActionRequest → Async S ToolActionResponse
  request_tool_action r =
      counted_from r.request.attempt (action_loop options.max_reasks r r.request.messages)

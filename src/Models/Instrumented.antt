-- ===== src/Models/Instrumented.antt =====
-- `InstrumentedModelProvider` of src/models/instrumented-provider.ts, with the callbacks that
-- `createAutonomousRun` (src/agent/runtime/create-run.ts) gives it: the session's recorders. The inner
-- provider's calls run in the same shared state.
pub mod Laws
use autonomous_agent.Common.{ℕ, ◌-◌, String, Option, or_else}
use autonomous_agent.Async.{Async, pure, throw, catch, ◌>>=◌, ◌>>◌}
use autonomous_agent.Domain.Thrown.{Thrown}
use autonomous_agent.Events.{ModelCallId}
use autonomous_agent.Session.Core.{
  Host, Shared, next_id, clock_now, clock_ms, record_model_call_started, record_model_call,
  record_model_call_failed,
}
use autonomous_agent.Models.Contracts.{
  ModelDescriptor, ModelProvider, ModelRequest, ModelResponse, ModelResponseBase,
  StructuredModelResponse, ToolActionResponse, error_kind_of, is_retryable_model_error,
}

-- the identity of a call: its purpose, its attempt, the provider and the model
abbrev pub call_id : String → ModelRequest → ModelDescriptor → ModelCallId
call_id id request descriptor = record {
  model_call_id = id;
  purpose = request.purpose;
  provider = descriptor.provider;
  model = descriptor.model;
  attempt = or_else request.attempt 1;
}

-- a response type `R`: its base, and the response with another `modelCallId`
pub record ResponseLike (R : Type 0) : Type 0 where
  pub base : R → ModelResponseBase
  pub renamed : String → R → R

abbrev pub rename_base : String → ModelResponseBase → ModelResponseBase
rename_base id b = record b { model_call_id = id }

module _ {X R : Type 0} (host : Host X) (like : ResponseLike R) where
  -- `onCall`, and the response under the identifier of the call
  unfoldable pub observe_response : String → ModelRequest → R → Async (Shared X) R
  observe_response id request response = do
    record_model_call host (call_id id request (like.base response).descriptor)
        (like.base response).usage.input_tokens (like.base response).usage.output_tokens
        (like.base response).usage.reported (like.base response).latency_ms
        (like.base response).finish_reason
    pure (like.renamed id response)

  -- `onFailed`; the error is thrown again
  unfoldable pub observe_failure : ModelCallId → ℕ → Thrown → Async (Shared X) R
  observe_failure call started_ms e = do
    ms ← clock_ms host
    record_model_call_failed host call (ms - started_ms) (error_kind_of e) e.message
        (is_retryable_model_error e)
    throw e

  unfoldable pub observe : ModelDescriptor → ModelRequest → Async (Shared X) R → Async (Shared X) R
  observe descriptor request call = do
    id ← next_id host "mc"
    _ ← clock_now host
    started_ms ← clock_ms host
    record_model_call_started host (call_id id request descriptor)
    catch (call >>= observe_response id request)
        (observe_failure (call_id id request descriptor) started_ms)

abbrev pub plain_like : ResponseLike ModelResponse
plain_like = record {
  base = λ r. r.base;
  renamed = λ id r. record r { base = rename_base id r.base };
}

abbrev pub structured_like : {T : Type 0} → ResponseLike (StructuredModelResponse T)
structured_like = record {
  base = λ r. r.base;
  renamed = λ id r. record r { base = rename_base id r.base };
}

abbrev pub action_like : ResponseLike ToolActionResponse
action_like = record {
  base = λ r. r.base;
  renamed = λ id r. record r { base = rename_base id r.base };
}

module _ {X T : Type 0} (host : Host X) where
  unfoldable pub instrumented : ModelProvider (Shared X) T → ModelProvider (Shared X) T
  instrumented inner = record {
    descriptor = inner.descriptor;
    generate = λ r. observe host plain_like inner.descriptor r (inner.generate r);
    structured_generate =
        λ r. observe host structured_like inner.descriptor r.request (inner.structured_generate r);
    request_tool_action =
        λ r. observe host action_like inner.descriptor r.request (inner.request_tool_action r);
  }

-- ===== src/Models/Instrumented/Laws.antt =====
-- The telemetry of a model call.
use autonomous_agent.Common.{
  ℕ, ◌+◌, ◌-◌, ◌≡◌, refl, ap, ◌∙◌, String, Bool, true, Option, List, ◌∷◌, map, or_else,
}
use autonomous_agent.Async.{Async, Settled, fulfilled, rejected, catch, recover, proceed, ◌>>=◌}
use autonomous_agent.Async.Moves.{Moves, Moves-bind, Moves-pure, Moves-throw, Moves-catch}
use autonomous_agent.Domain.Thrown.{ModelErrorKind}
use autonomous_agent.Events.{
  ModelCallId, FinishReason, Payload, model_call_started, model_call_completed, model_call_failed,
}
use autonomous_agent.Session.Usage.{model_calls, increment, add_tokens}
use autonomous_agent.Session.Core.{
  Host, Shared, next_id, clock_now, clock_ms, record_model_call_started, record_model_call,
  record_model_call_failed, count_one, on_session, emit,
}
use autonomous_agent.Models.Contracts.{
  ModelDescriptor, ModelRequest, error_kind_of, is_retryable_model_error,
}
use autonomous_agent.Models.Instrumented.{
  call_id, ResponseLike, observe_response, observe_failure, observe,
}
use autonomous_agent.Runtime.Frame.Quiet.{Quiet, Quiet-order}
use autonomous_agent.Runtime.Frame.Methods.{
  next_id-Quiet, clock_now-Quiet, clock_ms-Quiet, emit-Quiet, count_one-Quiet, usage-Quiet,
}

module _ {X : Type 0} (host : Host X) where
  started-Quiet : (call : ModelCallId) → Moves Quiet (record_model_call_started host call)
  unfolding record_model_call_started
  started-Quiet call =
      Moves-bind Quiet-order _ _ (count_one-Quiet model_calls tt) λ _. emit-Quiet host _ _ refl

  completed-Quiet :
      (call : ModelCallId) (input output : ℕ) (reported : Option Bool) (latency : ℕ)
      (reason : FinishReason)
      → Moves Quiet (record_model_call host call input output reported latency reason)
  unfolding record_model_call add_tokens
  completed-Quiet call input output reported latency reason =
      Moves-bind Quiet-order _ _ (usage-Quiet _ (λ u. refl) (λ u. refl) (λ u. refl))
        λ _. emit-Quiet host _ _ refl

  failed-Quiet :
      (call : ModelCallId) (latency : ℕ) (kind : ModelErrorKind) (message : String)
      (retryable : Bool)
      → Moves Quiet (record_model_call_failed host call latency kind message retryable)
  unfolding record_model_call_failed
  failed-Quiet call latency kind message retryable = emit-Quiet host _ _ refl

module _ {X R : Type 0} (host : Host X) (like : ResponseLike R) where
  -- Observing a call keeps to the runtime's contract if the call does.
  pub observe-Quiet :
      (descriptor : ModelDescriptor) (request : ModelRequest) (call : Async (Shared X) R)
      → Moves Quiet call
      → Moves Quiet (observe host like descriptor request call)
  unfolding observe observe_response observe_failure
  observe-Quiet descriptor request call q =
      Moves-bind Quiet-order _ _ (next_id-Quiet host "mc") λ id.
        Moves-bind Quiet-order _ _ (clock_now-Quiet host) λ time.
          Moves-bind Quiet-order _ _ (clock_ms-Quiet host) λ ms.
            Moves-bind Quiet-order _ _ (started-Quiet host _) λ _.
              Moves-catch Quiet-order _ _
                (Moves-bind Quiet-order _ _ q λ response.
                  Moves-bind Quiet-order _ _ (completed-Quiet host _ _ _ _ _ _)
                    λ _. Moves-pure Quiet-order _)
                (λ e. Moves-bind Quiet-order _ _ (clock_ms-Quiet host) λ now.
                  Moves-bind Quiet-order _ _ (failed-Quiet host _ _ _ _ _)
                    λ _. Moves-throw Quiet-order _)

-- what is told of a call that settles to an outcome, after so many milliseconds
unfoldable pub told :
    {R : Type 0} → ResponseLike R → ModelCallId → ModelRequest → ℕ → Settled R → Payload
told like call request latency (fulfilled r) =
    model_call_completed (call_id call.model_call_id request (like.base r).descriptor)
      (like.base r).usage.input_tokens (like.base r).usage.output_tokens
      (or_else (like.base r).usage.reported true) (like.base r).latency_ms
      (like.base r).finish_reason
told like call request latency (rejected e) =
    model_call_failed call latency (error_kind_of e) e.message (is_retryable_model_error e)

-- the caller gets the response under the identifier of the call, or the error
unfoldable pub answer_of : {R : Type 0} → ResponseLike R → String → Settled R → Settled R
answer_of like id (fulfilled r) = fulfilled (like.renamed id r)
answer_of like id (rejected e) = rejected e

abbrev pub payloads : {X : Type 0} → Shared X → List Payload
payloads s = map (λ e. e.payload) s.session.emitted

abbrev calls : {X : Type 0} → Shared X → ℕ
calls s = s.session.usage.model_calls

module _ {X R : Type 0} (host : Host X) (like : ResponseLike R) (request : ModelRequest)
    (descriptor : ModelDescriptor) where
  -- what follows the start of a call
  record Ended (id : String) (outcome : Settled R) (s : Shared X) (out : Settled R × Shared X)
      : Type 0 where
    pub latency : ℕ
    pub events :
        payloads out.1
        ≡ told like (call_id id request descriptor) request latency outcome ∷ payloads s
    pub counted : calls out.1 ≡ calls s
    pub answer : out.0 ≡ answer_of like id outcome

  call_conclusion :
      (id : String) (ms : ℕ) (s t : Shared X) (outcome : Settled R)
      → t.session ≡ s.session
      → Ended id outcome s (
          let (r, u) = proceed outcome (observe_response host like id request) t in
          recover r (observe_failure host like (call_id id request descriptor) ms) u)
  unfolding observe_response observe_failure record_model_call record_model_call_failed on_session
      emit ◌>>=◌ clock_ms add_tokens told answer_of
  call_conclusion id ms s t (fulfilled response) same = record {
    latency = 0;
    events =
        ap
          (λ r.
            told like (call_id id request descriptor) request 0 (fulfilled response)
            ∷ map (λ e. e.payload) r.emitted)
          same;
    counted = ap (λ r. r.usage.model_calls) same;
    answer = refl;
  }
  call_conclusion id ms s t (rejected e) same = record {
    latency = (host.monotonic_ms t.outside).0 - ms;
    events =
        ap
          (λ r.
            told like (call_id id request descriptor) request ((host.monotonic_ms t.outside).0 - ms)
              (rejected e)
            ∷ map (λ e. e.payload) r.emitted)
          same;
    counted = ap (λ r. r.usage.model_calls) same;
    answer = refl;
  }

  -- the outside world when the call is made: an identifier was taken, the clocks were read and the
  -- event of the start was stamped
  abbrev pub before_call : X → X
  before_call x =
      (host.now (host.next "evt" (host.monotonic_ms (host.now (host.next "mc" x).1).1).1).1).1

  -- what a call leaves behind: it was made once, in the state `started`, with its start announced
  pub record Observed (call : Async (Shared X) R) (s : Shared X) (out : Settled R × Shared X)
      : Type 0 where
    pub started : Shared X
    pub outside : started.outside ≡ before_call s.outside
    pub begun :
        payloads started
        ≡ model_call_started (call_id (host.next "mc" s.outside).0 request descriptor) ∷ payloads s
    pub latency : ℕ
    pub events :
        payloads out.1
        ≡ told like
            (call_id (host.next "mc" s.outside).0 request descriptor)
            request
            latency
            (call started).0
          ∷ model_call_started (call_id (host.next "mc" s.outside).0 request descriptor)
          ∷ payloads s
    pub counted : calls out.1 ≡ calls s + 1
    pub answer : out.0 ≡ answer_of like (host.next "mc" s.outside).0 (call started).0

  after_the_start :
      (call : Async (Shared X) R)
      → ((s : Shared X) → (call s).1.session ≡ s.session)
      → (ms : ℕ) (s0 s : Shared X) → s.outside ≡ before_call s0.outside
      → payloads s
        ≡ model_call_started (call_id (host.next "mc" s0.outside).0 request descriptor)
          ∷ payloads s0
      → calls s ≡ calls s0 + 1
      → Observed call s0 (
          catch
            (call >>= observe_response host like (host.next "mc" s0.outside).0 request)
            (observe_failure host like
              (call_id (host.next "mc" s0.outside).0 request descriptor)
              ms)
            s)
  unfolding catch ◌>>=◌
  after_the_start call apart ms s0 s beyond begun one_more =
      let id = (host.next "mc" s0.outside).0 in
      let e : Ended id (call s).0 s (
          catch (call >>= observe_response host like id request)
            (observe_failure host like (call_id id request descriptor) ms) s) =
        call_conclusion id ms s (call s).1 (call s).0 (apart s) in
      record {
        started = s;
        outside = beyond;
        begun = begun;
        latency = e.latency;
        events =
            e.events
            ∙ ap (λ l. told like (call_id id request descriptor) request e.latency (call s).0 ∷ l)
                begun;
        counted = e.counted ∙ one_more;
        answer = e.answer;
      }

  -- An observed call of a provider that leaves the session alone is made after its start is announced,
  -- is counted once, and is announced again under the same identifier, as completed or as failed, as
  -- it settled. The caller gets the call's response under that identifier, or the call's own error.
  pub observe-Observed :
      (call : Async (Shared X) R)
      → ((s : Shared X) → (call s).1.session ≡ s.session)
      → (s : Shared X) → Observed call s (observe host like descriptor request call s)
  unfolding observe catch ◌>>=◌ next_id clock_now clock_ms record_model_call_started count_one
      increment on_session emit
  observe-Observed call apart s =
      after_the_start call apart (host.monotonic_ms (host.now (host.next "mc" s.outside).1).1).0 s _
        refl refl refl

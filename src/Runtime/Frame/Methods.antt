-- ===== src/Runtime/Frame/Methods.antt =====
-- The methods of the runtime that do not end the run are steady.
use autonomous_agent.Common.{◌≡◌, refl, sym, ap, subst, ◌∙◌, String, none, some, List, arith}
use autonomous_agent.Async.{Async, modify}
use autonomous_agent.Async.Moves.{Moves, Moves-bind}
use autonomous_agent.Events.{Payload, EventCorrelation}
use autonomous_agent.Domain.Run.{RunUsage}
use autonomous_agent.Session.Usage.{
  Counter, increment, iterations, tool_calls, model_calls, memory_reads, memory_writes, retries,
  strategy_changes,
}
use autonomous_agent.Session.Working.{Working}
use autonomous_agent.Session.Core.{
  Host, Shared, emit, next_id, clock_now, clock_ms, on_working, on_session, count_one,
}
use autonomous_agent.Session.Log.{IsNumbered, endings, ending_of}
use autonomous_agent.Agent.Contracts.{TaskAttempt}
use autonomous_agent.Domain.Plan.{Plan}
use autonomous_agent.Runtime.State.{
  AgentState, on_shared, count, put_plan, require_plan, announce, push_lesson, store_attempts,
}
use autonomous_agent.Runtime.Frame.Quiet.{Quiet, IsTallied, Steady, Steady-order}

-- the counters that neither the tally nor the bound on the iterations reads
abbrev pub IsFree : Counter → Type 0
IsFree iterations = ⊥
IsFree memory_reads = ⊥
IsFree memory_writes = ⊥
IsFree _ = Unit

module _ {X A : Type 0} where
  -- What is quiet for the components is steady for the runtime.
  pub on_shared-Steady : (m : Async (Shared X) A) → Moves Quiet m → Moves Steady (on_shared m)
  unfolding on_shared
  on_shared-Steady m h = record {
    at = λ s.
        let q = h.at s.shared in
        record {
          status = q.status;
          limits = q.limits;
          iterations = q.iterations;
          endings = q.endings;
          numbered = q.numbered;
          tallied =
              λ k. record { reads = q.memory_reads ∙ k.reads; writes = q.memory_writes ∙ k.writes };
        };
  }

module _ {X : Type 0} (host : Host X) where
  pub clock_now-Quiet : Moves Quiet (clock_now host)
  unfolding clock_now
  clock_now-Quiet = record {
    at = λ s. record {
      status = refl;
      limits = refl;
      iterations = refl;
      memory_reads = refl;
      memory_writes = refl;
      endings = refl;
      numbered = λ h. h;
    };
  }

  pub clock_ms-Quiet : Moves Quiet (clock_ms host)
  unfolding clock_ms
  clock_ms-Quiet = record {
    at = λ s. record {
      status = refl;
      limits = refl;
      iterations = refl;
      memory_reads = refl;
      memory_writes = refl;
      endings = refl;
      numbered = λ h. h;
    };
  }

  pub next_id-Quiet : (prefix : String) → Moves Quiet (next_id host prefix)
  unfolding next_id
  next_id-Quiet prefix = record {
    at = λ s. record {
      status = refl;
      limits = refl;
      iterations = refl;
      memory_reads = refl;
      memory_writes = refl;
      endings = refl;
      numbered = λ h. h;
    };
  }

  -- An event that announces no end is quiet.
  pub emit-Quiet :
      (p : Payload) (k : EventCorrelation) → ending_of p ≡ none → Moves Quiet (emit host p k)
  unfolding emit endings
  emit-Quiet p k e = record {
    at = λ s. record {
      status = refl;
      limits = refl;
      iterations = refl;
      memory_reads = refl;
      memory_writes = refl;
      endings = rw e refl;
      numbered = λ h. record {
        counted = omega (arith, h.counted);
        sequenced = (omega (arith, h.counted), h.sequenced);
      };
    };
  }

  pub announce-Steady :
      (p : Payload) (k : EventCorrelation) → ending_of p ≡ none → Moves Steady (announce host p k)
  unfolding announce
  announce-Steady p k e = on_shared-Steady (emit host p k) (emit-Quiet p k e)

  pub next_id-Steady : (prefix : String) → Moves Steady (on_shared (next_id host prefix))
  next_id-Steady prefix = on_shared-Steady (next_id host prefix) (next_id-Quiet prefix)

module _ {X : Type 0} where
  on_working-Quiet : (f : Working → Working) → Moves {S = Shared X} Quiet (on_working f)
  unfolding on_working on_session
  on_working-Quiet f = record {
    at = λ s. record {
      status = refl;
      limits = refl;
      iterations = refl;
      memory_reads = refl;
      memory_writes = refl;
      endings = refl;
      numbered = λ h. record { counted = h.counted; sequenced = h.sequenced };
    };
  }

  pub on_working-Steady :
      (f : Working → Working) → Moves {S = AgentState X} Steady (on_shared (on_working f))
  on_working-Steady f = on_shared-Steady (on_working f) (on_working-Quiet f)

  -- A change of the runtime's own fields is steady where the tally stays.
  pub modify-Steady :
      (f : AgentState X → AgentState X)
      → ((s : AgentState X) → (f s).shared ≡ s.shared)
      → ((s : AgentState X) → IsTallied s → IsTallied (f s))
      → Moves Steady (modify f)
  unfolding modify
  modify-Steady f same tally = record {
    at = λ s. record {
      status = ap (λ (r : Shared X). r.session.status) (same s);
      limits = ap (λ (r : Shared X). r.session.limits) (same s);
      iterations = ap (λ (r : Shared X). r.session.usage.iterations) (same s);
      endings = ap (λ (r : Shared X). endings r.session.emitted) (same s);
      numbered = subst (λ (r : Shared X). IsNumbered r.session) (sym (same s));
      tallied = tally s;
    };
  }

  pub put_plan-Steady : (plan : Plan) → Moves {S = AgentState X} Steady (put_plan plan)
  unfolding put_plan
  put_plan-Steady plan =
      Moves-bind Steady-order (modify (λ s. record s { plan = some plan })) _
        (modify-Steady _ (λ s. refl) (λ s h. record { reads = h.reads; writes = h.writes }))
        (λ _. on_working-Steady _)

  pub push_lesson-Steady : (id : String) → Moves {S = AgentState X} Steady (push_lesson id)
  unfolding push_lesson
  push_lesson-Steady id =
      modify-Steady _ (λ s. refl) (λ s h. record { reads = h.reads; writes = h.writes })

  pub store_attempts-Steady :
      (id : String) (tried : List TaskAttempt)
      → Moves {S = AgentState X} Steady (store_attempts id tried)
  unfolding store_attempts
  store_attempts-Steady id tried =
      modify-Steady _ (λ s. refl) (λ s h. record { reads = h.reads; writes = h.writes })

  pub require_plan-Steady : Moves {S = AgentState X} Steady require_plan
  unfolding require_plan
  require_plan-Steady = record { at = λ s. Steady-order.same s }

  -- a change of the counters other than those of the iterations and of memory
  pub usage-Quiet :
      (f : RunUsage → RunUsage)
      → ((u : RunUsage) → (f u).iterations ≡ u.iterations)
      → ((u : RunUsage) → (f u).memory_reads ≡ u.memory_reads)
      → ((u : RunUsage) → (f u).memory_writes ≡ u.memory_writes)
      → Moves {S = Shared X} Quiet (on_session (λ r. record r { usage = f r.usage }))
  unfolding on_session
  usage-Quiet f hi hr hw = record {
    at = λ s. record {
      status = refl;
      limits = refl;
      iterations = hi s.session.usage;
      memory_reads = hr s.session.usage;
      memory_writes = hw s.session.usage;
      endings = refl;
      numbered = λ h. record { counted = h.counted; sequenced = h.sequenced };
    };
  }

  pub count_one-Quiet : (k : Counter) → IsFree k → Moves {S = Shared X} Quiet (count_one k)
  unfolding count_one increment
  count_one-Quiet tool_calls h = usage-Quiet _ (λ u. refl) (λ u. refl) (λ u. refl)
  count_one-Quiet model_calls h = usage-Quiet _ (λ u. refl) (λ u. refl) (λ u. refl)
  count_one-Quiet retries h = usage-Quiet _ (λ u. refl) (λ u. refl) (λ u. refl)
  count_one-Quiet strategy_changes h = usage-Quiet _ (λ u. refl) (λ u. refl) (λ u. refl)
  count_one-Quiet iterations h = absurd h
  count_one-Quiet memory_reads h = absurd h
  count_one-Quiet memory_writes h = absurd h

  pub count-Steady : (k : Counter) → IsFree k → Moves {S = AgentState X} Steady (count k)
  unfolding count
  count-Steady k h = on_shared-Steady (count_one k) (count_one-Quiet k h)

-- ===== src/Runtime/Frame/Quiet.antt =====
-- The contract of a component: it may use the outside world, count model and tool calls, and emit
-- events, and it neither ends the run nor counts iterations nor changes the limits.
use autonomous_agent.Common.{◌≡◌, refl, ◌∙◌, some, String, length}
use autonomous_agent.Async.{Async}
use autonomous_agent.Async.Moves.{Moves, IsPreorder}
use autonomous_agent.Session.Core.{Shared}
use autonomous_agent.Session.Log.{IsNumbered, endings}
use autonomous_agent.Agent.Environment.{ExecutionEnvironment}
use autonomous_agent.Agent.Contracts.{
  RuntimeComponents, PlanningInput, RevisionInput, ActionSelectionInput, EvaluationScope,
  LearningInput, IngestionInput, IngestionOutput,
}
use autonomous_agent.Domain.Tool.{AgentAction}
use autonomous_agent.Memory.Records.{MemoryRecord}
use autonomous_agent.Memory.Retrieval.{RetrievalQuery}
use autonomous_agent.Runtime.State.{AgentState}

module _ {X : Type 0} where
  pub record Quiet (s t : Shared X) : Type 0 where
    pub status : t.session.status ≡ s.session.status
    pub limits : t.session.limits ≡ s.session.limits
    pub iterations : t.session.usage.iterations ≡ s.session.usage.iterations
    pub memory_reads : t.session.usage.memory_reads ≡ s.session.usage.memory_reads
    pub memory_writes : t.session.usage.memory_writes ≡ s.session.usage.memory_writes
    pub endings : endings t.session.emitted ≡ endings s.session.emitted
    pub numbered : IsNumbered s.session → IsNumbered t.session

  pub Quiet-order : IsPreorder Quiet
  Quiet-order = record {
    same = λ s. record {
      status = refl;
      limits = refl;
      iterations = refl;
      memory_reads = refl;
      memory_writes = refl;
      endings = refl;
      numbered = λ h. h;
    };
    chain = λ s t u p q. record {
      status = q.status ∙ p.status;
      limits = q.limits ∙ p.limits;
      iterations = q.iterations ∙ p.iterations;
      memory_reads = q.memory_reads ∙ p.memory_reads;
      memory_writes = q.memory_writes ∙ p.memory_writes;
      endings = q.endings ∙ p.endings;
      numbered = λ h. q.numbered (p.numbered h);
    };
  }

  -- the counters of memory are the lengths of the runtime's lists
  pub record IsTallied (s : AgentState X) : Type 0 where
    pub reads : s.session.usage.memory_reads ≡ length s.retrievals
    pub writes : s.session.usage.memory_writes ≡ length s.written

  pub record Steady (s t : AgentState X) : Type 0 where
    pub status : t.session.status ≡ s.session.status
    pub limits : t.session.limits ≡ s.session.limits
    pub iterations : t.session.usage.iterations ≡ s.session.usage.iterations
    pub endings : endings t.session.emitted ≡ endings s.session.emitted
    pub numbered : IsNumbered s.session → IsNumbered t.session
    pub tallied : IsTallied s → IsTallied t

  pub Steady-order : IsPreorder Steady
  Steady-order = record {
    same = λ s. record {
      status = refl;
      limits = refl;
      iterations = refl;
      endings = refl;
      numbered = λ h. h;
      tallied = λ h. h;
    };
    chain = λ s t u p q. record {
      status = q.status ∙ p.status;
      limits = q.limits ∙ p.limits;
      iterations = q.iterations ∙ p.iterations;
      endings = q.endings ∙ p.endings;
      numbered = λ h. q.numbered (p.numbered h);
      tallied = λ h. q.tallied (p.tallied h);
    };
  }

  pub record IsCalm (e : ExecutionEnvironment (Shared X)) : Type 0 where
    pub file_exists : (path : String) → Moves Quiet (e.file_exists path)
    pub read_file : (path : String) → Moves Quiet (e.read_file path)
    pub run_command : (command : String) → Moves Quiet (e.run_command command)

  pub record IsQuiet (c : RuntimeComponents X) : Type 0 where
    pub create_plan : (i : PlanningInput) → Moves Quiet (c.create_plan i)
    pub revise_plan : (i : RevisionInput) → Moves Quiet (c.revise_plan i)
    pub select_next : (i : ActionSelectionInput) → Moves Quiet (c.select_next i)
    pub execute : (a : AgentAction) → Moves Quiet (c.execute a)
    pub evaluate :
        (i : EvaluationScope (Shared X))
        → i.environment ≡ some c.environment
        → Moves Quiet (c.evaluate i)
    pub learn : (i : LearningInput) → Moves Quiet (c.learn i)
    pub ingest :
        (f : IngestionInput → Async (Shared X) IngestionOutput)
        → c.ingest ≡ some f
        → (i : IngestionInput) → Moves Quiet (f i)
    pub put : (r : MemoryRecord) → Moves Quiet (c.put r)
    pub retrieve : (q : RetrievalQuery) → Moves Quiet (c.retrieve q)
    pub surroundings : IsCalm c.environment

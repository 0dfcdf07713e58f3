-- ===== src/Agent/Planner/Frame.antt =====
-- The planner keeps to the runtime's contract for a planner.
use autonomous_agent.Common.{String, List, [], ◌∷◌}
use autonomous_agent.Async.{Async}
use autonomous_agent.Async.Moves.{
  Moves, Moves-bind, Moves-pure, Moves-throw, Moves-if, Moves-option, moves_rules,
}
use autonomous_agent.Domain.Plan.{PlanTask, Strategy}
use autonomous_agent.Session.Core.{Host, Shared}
use autonomous_agent.Models.Contracts.{
  ModelProvider, StructuredModelRequest, ParseResult, parse_ok, parse_fail,
}
use autonomous_agent.Agent.Contracts.{PlanningInput, RevisionInput}
use autonomous_agent.Agent.Proposal.{TaskProposal, PlanProposal, RevisionProposal}
use autonomous_agent.Agent.Planner.{
  materialise_task, materialise_tasks, kept_task, plan_from, revised_strategy, revision_from,
  accepted, create_plan, revise_plan,
}
use autonomous_agent.Runtime.Frame.Quiet.{Quiet, Quiet-order}
use autonomous_agent.Runtime.Frame.Methods.{next_id-Quiet, clock_now-Quiet}

-- a model whose structured answers neither end the run nor touch what the runtime counts
abbrev pub IsQuietModel : {X T : Type 0} → ModelProvider (Shared X) T → Type 0
IsQuietModel {T = T} model =
    (request : StructuredModelRequest T) → Moves Quiet (model.structured_generate request)

module _ {X A B : Type 0} where
  accepted-Quiet :
      (message : String) (r : ParseResult A) (k : A → Async (Shared X) B)
      → ((a : A) → Moves Quiet (k a))
      → Moves Quiet (accepted message r k)
  unfolding accepted
  accepted-Quiet message (parse_ok a) k h = h a
  accepted-Quiet message (parse_fail errors) k h = Moves-throw Quiet-order _

module _ {X : Type 0} (host : Host X) where
  materialise_task-Quiet :
      (existing : List PlanTask) (p : TaskProposal) → Moves Quiet (materialise_task host existing p)
  unfolding materialise_task
  materialise_task-Quiet existing p =
      Moves-option Quiet-order (kept_task existing p) _ _
        (Moves-bind Quiet-order _ _ (next_id-Quiet host "task") (λ id. Moves-pure Quiet-order _))
        (λ kept. Moves-pure Quiet-order _)

  materialise_tasks-Quiet :
      (existing : List PlanTask) (ps : List TaskProposal)
      → Moves Quiet (materialise_tasks host existing ps)
  unfolding materialise_tasks
  materialise_tasks-Quiet existing [] = Moves-pure Quiet-order _
  materialise_tasks-Quiet existing (p ∷ ps) =
      Moves-bind Quiet-order _ _ (materialise_task-Quiet existing p) λ t.
        Moves-bind Quiet-order _ _ (materialise_tasks-Quiet existing ps)
          λ ts. Moves-pure Quiet-order _

  plan_from-Quiet :
      (input : PlanningInput) (p : PlanProposal) → Moves Quiet (plan_from host input p)
  unfolding plan_from
  plan_from-Quiet input p =
      search (moves_rules, Quiet-order, next_id-Quiet, clock_now-Quiet, materialise_tasks-Quiet)
        depth 12

  revised_strategy-Quiet :
      (old : Strategy) (p : RevisionProposal) → Moves Quiet (revised_strategy host old p)
  unfolding revised_strategy
  revised_strategy-Quiet old p =
      Moves-if Quiet-order p.strategy_changed _ _
        (λ _.
          Moves-bind Quiet-order _ _ (next_id-Quiet host "strat") (λ id. Moves-pure Quiet-order _))
        (λ _. Moves-pure Quiet-order _)

  revision_from-Quiet :
      (input : RevisionInput) (p : RevisionProposal) → Moves Quiet (revision_from host input p)
  unfolding revision_from
  revision_from-Quiet input p = Moves-bind Quiet-order _ _ (revised_strategy-Quiet _ p) λ strategy.
      Moves-bind Quiet-order _ _ (materialise_tasks-Quiet _ _) λ revised.
        Moves-bind Quiet-order _ _ (next_id-Quiet host "plan")
          λ id. Moves-bind Quiet-order _ _ (clock_now-Quiet host) λ now. Moves-pure Quiet-order _

  pub create_plan-Quiet :
      (model : ModelProvider (Shared X) PlanProposal) (input : PlanningInput)
      → IsQuietModel model
      → Moves Quiet (create_plan host model input)
  unfolding create_plan
  create_plan-Quiet model input q =
      Moves-bind Quiet-order _ _ (q _) λ r. accepted-Quiet _ r.parsed _ (plan_from-Quiet input)

  pub revise_plan-Quiet :
      (reviser : ModelProvider (Shared X) RevisionProposal) (input : RevisionInput)
      → IsQuietModel reviser
      → Moves Quiet (revise_plan host reviser input)
  unfolding revise_plan
  revise_plan-Quiet reviser input q =
      Moves-bind Quiet-order _ _ (q _) λ r. accepted-Quiet _ r.parsed _ (revision_from-Quiet input)

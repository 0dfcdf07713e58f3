-- ===== src/Agent/Planner.antt =====
-- `ModelPlanner` of src/agent/planner.ts. `structuredGenerate` of its one model is generic in the result:
-- `model` stands for it at a plan, `reviser` at a revision.
pub mod Laws
pub mod Cited
pub mod Frame
pub mod Plans
use autonomous_agent.Common.{
  ℕ, ◌+◌, String, Bool, true, false, not, Option, none, some, List, [], ◌∷◌, ◌++◌, map, keep, join,
  includes, or_else, truthy, ◌===◌, if◌then◌else◌,
}
use autonomous_agent.Async.{Async, pure, throw, ◌>>=◌}
use autonomous_agent.Domain.Value.{str}
use autonomous_agent.Domain.Thrown.{Thrown, plain_error}
use autonomous_agent.Domain.Provenance.{Provenance, empty_provenance, merge_provenance}
use autonomous_agent.Domain.Plan.{Plan, PlanTask, Strategy, pending}
use autonomous_agent.Session.Core.{Host, Shared, next_id, clock_now}
use autonomous_agent.Events.{ModelCallPurpose}
use autonomous_agent.Models.Contracts.{
  ModelMessage, ModelRequest, ModelProvider, StructuredModelRequest, system, user, ParseResult,
  parse_ok, parse_fail,
}
use autonomous_agent.Agent.Contracts.{PlanningInput, RevisionInput}
use autonomous_agent.Agent.Prompting.{
  PresentedMemory, presented_memory, record_id_of, render_goal, render_tools, render_memory,
  render_plan, render_evaluation,
}
use autonomous_agent.Agent.Proposal.{
  TaskProposal, PlanProposal, RevisionProposal, plan_schema, revision_schema, parse_plan_proposal,
  parse_revision_proposal,
}
use autonomous_agent.Runtime.PlanTasks.{is_completed}

-- `new PlannerError(message, errors)`
abbrev pub planner_error : String → List String → Thrown
planner_error message errors = record {
  class = plain_error;
  message = message;
  errors = some (map str errors);
}

abbrev pub message_of : String → ModelMessage
message_of content = record { role = user; content = content; tool_call_id = none }

abbrev system_message : ModelMessage
system_message = record {
  role = system;
  content =
      "You are the planning component of an autonomous agent. Respond only with the requested JSON object. Be concrete; every task must have checkable evidence.";
  tool_call_id = none;
}

abbrev pub request_for : ModelCallPurpose → List ModelMessage → ModelRequest
request_for purpose messages = record {
  purpose = purpose;
  messages = messages;
  temperature = none;
  max_output_tokens = none;
  attempt = none;
}

abbrev pub plan_request : PlanningInput → StructuredModelRequest PlanProposal
plan_request input = record {
  request = request_for ModelCallPurpose.create_plan (
      system_message
      ∷ message_of (
          join "\n\n" (
            render_goal input.goal
            ∷ render_tools input.available_tools
            ∷ render_memory (presented_memory input.retrievals)
            ∷ "Produce a plan: a one-sentence strategy and an ordered list of tasks, each with the evidence that would prove it done."
            ∷ []))
      ∷ []);
  schema = plan_schema;
  parse = parse_plan_proposal;
}

abbrev pub revision_request : RevisionInput → StructuredModelRequest RevisionProposal
revision_request input = record {
  request = request_for ModelCallPurpose.revise_plan (
      system_message
      ∷ message_of (
          join "\n\n" (
            render_goal input.planning.goal
            ∷ render_plan input.previous_plan
            ∷ "The following evaluation(s) found the current approach inadequate:"
            ∷ (map render_evaluation input.triggering_evaluations
                ++ render_tools input.planning.available_tools
                  ∷ render_memory (presented_memory input.planning.retrievals)
                  ∷ "Diagnose why the approach fell short and revise the plan. Set strategyChanged=true only if the overall approach changes, and explain changeReason. Keep a task by echoing its taskId; omit completed tasks — they are preserved automatically."
                  ∷ [])))
      ∷ []);
  schema = revision_schema;
  parse = parse_revision_proposal;
}

-- `existing.get(id)` of the map of the tasks by their identifiers: the last task of that identifier
unfoldable pub task_with_id : List PlanTask → String → Option PlanTask
task_with_id [] id = none
task_with_id (t ∷ ts) id = elim (task_with_id ts id) [
  | some later ↦ some later
  | none ↦ if t.task_id === id then some t else none
]

-- the task that a proposal echoes, unless it is completed
abbrev open_one : Option PlanTask → Option PlanTask
open_one none = none
open_one (some t) = if not (is_completed t.status) then some t else none

abbrev looked_up : List PlanTask → Option String → Option PlanTask
looked_up existing none = none
looked_up existing (some id) = task_with_id existing id

unfoldable pub kept_task : List PlanTask → TaskProposal → Option PlanTask
kept_task existing proposal = open_one (looked_up existing (truthy proposal.task_id))

abbrev pub updated_task : PlanTask → TaskProposal → PlanTask
updated_task kept proposal = record kept {
  description = proposal.description;
  expected_evidence = proposal.expected_evidence;
}

abbrev pub new_task : String → TaskProposal → PlanTask
new_task id proposal = record {
  task_id = id;
  description = proposal.description;
  status = pending;
  depends_on = [];
  expected_evidence = proposal.expected_evidence;
}

-- a list under a key only if it is not empty
abbrev pub when_listed : List String → Option (List String)
when_listed [] = none
when_listed (v ∷ vs) = some (v ∷ vs)

-- what `provenanceFor` merges: cited records count only if they were presented
abbrev pub provenance_parts : PresentedMemory → List String → Provenance → List Provenance
provenance_parts memory cited extra =
    record empty_provenance { retrieval_ids = when_listed memory.retrieval_ids }
    ∷ record empty_provenance {
      memory_record_ids = when_listed (keep (includes (map record_id_of memory.records)) cited);
    }
    ∷ extra
    ∷ []

unfoldable pub provenance_for : PresentedMemory → List String → Provenance → Provenance
provenance_for memory cited extra = merge_provenance (provenance_parts memory cited extra)

module _ {X : Type 0} (host : Host X) where
  -- one proposal of the loop of `materialiseTasks`
  unfoldable pub materialise_task : List PlanTask → TaskProposal → Async (Shared X) PlanTask
  unfolding kept_task
  materialise_task existing proposal = elim (kept_task existing proposal) [
    | some kept ↦ pure (updated_task kept proposal)
    | none ↦ do id ← next_id host "task"; pure (new_task id proposal)
  ]

  unfoldable pub materialise_tasks :
      List PlanTask → List TaskProposal → Async (Shared X) (List PlanTask)
  materialise_tasks existing [] = pure []
  materialise_tasks existing (p ∷ ps) = do
    task ← materialise_task existing p
    tasks ← materialise_tasks existing ps
    pure (task ∷ tasks)

  -- what follows the answer of the model
  unfoldable pub plan_from : PlanningInput → PlanProposal → Async (Shared X) Plan
  plan_from input proposal = do
    strategy_id ← next_id host "strat"
    plan_id ← next_id host "plan"
    tasks ← materialise_tasks [] proposal.tasks
    now ← clock_now host
    pure (record {
      plan_id = plan_id;
      run_id = input.goal.run_id;
      goal_id = input.goal.goal_id;
      version = 1;
      strategy = record {
        strategy_id = strategy_id;
        summary = proposal.strategy_summary;
        version = 1;
        supersedes = none;
        change_reason = none;
      };
      tasks = tasks;
      informed_by =
          provenance_for (presented_memory input.retrievals) proposal.cited_memory_record_ids
            empty_provenance;
      created_at = now;
      revision_reason = none;
    })

  -- the strategy of a revision
  unfoldable pub revised_strategy : Strategy → RevisionProposal → Async (Shared X) Strategy
  revised_strategy previous proposal =
      if proposal.strategy_changed
      then (do
        id ← next_id host "strat"
        pure (record {
          strategy_id = id;
          summary = proposal.plan.strategy_summary;
          version = previous.version + 1;
          supersedes = some previous.strategy_id;
          change_reason = some (or_else proposal.change_reason proposal.revision_reason);
        }))
      else pure previous

  unfoldable pub revision_from : RevisionInput → RevisionProposal → Async (Shared X) Plan
  revision_from input proposal = do
    strategy ← revised_strategy input.previous_plan.strategy proposal
    revised ← materialise_tasks input.previous_plan.tasks proposal.plan.tasks
    plan_id ← next_id host "plan"
    now ← clock_now host
    pure (record {
      plan_id = plan_id;
      run_id = input.previous_plan.run_id;
      goal_id = input.previous_plan.goal_id;
      version = input.previous_plan.version + 1;
      strategy = strategy;
      tasks =
          keep (λ t. is_completed t.status) input.previous_plan.tasks
          ++ keep (λ t. not (is_completed t.status)) revised;
      informed_by =
          provenance_for (presented_memory input.planning.retrievals)
            proposal.plan.cited_memory_record_ids
            (record empty_provenance {
              plan_ids = some (input.previous_plan.plan_id ∷ []);
              evaluation_ids = some (map (λ e. e.evaluation_id) input.triggering_evaluations);
            });
      created_at = now;
      revision_reason = some proposal.revision_reason;
    })

module _ {X A B : Type 0} where
  -- the value of a parsed answer, or a `PlannerError`
  unfoldable pub accepted : String → ParseResult A → (A → Async (Shared X) B) → Async (Shared X) B
  accepted message (parse_ok value) k = k value
  accepted message (parse_fail errors) k = throw (planner_error message errors)

module _ {X : Type 0} (host : Host X) where
  unfoldable pub create_plan :
      ModelProvider (Shared X) PlanProposal → PlanningInput → Async (Shared X) Plan
  create_plan model input = do
    response ← model.structured_generate (plan_request input)
    accepted "Model returned an invalid plan" response.parsed (plan_from host input)

  unfoldable pub revise_plan :
      ModelProvider (Shared X) RevisionProposal → RevisionInput → Async (Shared X) Plan
  revise_plan reviser input = do
    response ← reviser.structured_generate (revision_request input)
    accepted "Model returned an invalid plan revision" response.parsed (revision_from host input)

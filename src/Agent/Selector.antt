-- ===== src/Agent/Selector.antt =====
-- `ModelActionSelector` of src/agent/action-selector.ts
pub mod Laws
use autonomous_agent.Common.{
  ℕ, ◌+◌, String, Option, none, some, List, [], ◌∷◌, ◌++◌, map, join, decimal, last?, length,
  or_else, ◌<>◌,
}
use autonomous_agent.Async.{Async, pure, ◌>>=◌}
use autonomous_agent.Domain.Provenance.{
  Provenance, RunCorrelation, empty_provenance, merge_provenance,
}
use autonomous_agent.Domain.Outcome.{DecisionOutcome}
use autonomous_agent.Domain.Tool.{AgentAction}
use autonomous_agent.Domain.Value.{Value}
use autonomous_agent.Events.{ModelCallPurpose}
use autonomous_agent.Memory.Records.{
  MemoryRecord, base_of, kind_of, DecisionOption, EvidenceReference,
}
use autonomous_agent.Session.Core.{Host, Shared, next_id, clock_now}
use autonomous_agent.Models.Contracts.{
  ModelProvider, ModelMessage, ToolActionRequest, ToolActionProposal, ProposalAlternative, system,
  call_tool,
}
use autonomous_agent.Agent.Contracts.{
  ActionSelectionInput, ActionSelection, act, DecisionRecord, TaskAttempt,
}
use autonomous_agent.Agent.Prompting.{
  PresentedMemory, presented_memory, record_id_of, render_goal, render_plan, render_attempts,
  render_memory, kind_word, verdict_word,
}
use autonomous_agent.Agent.Planner.{message_of, request_for, when_listed}

abbrev selector_message : ModelMessage
selector_message = record {
  role = system;
  content =
      "You are the action-selection component of an autonomous agent. Choose exactly one tool call that makes progress on the CURRENT TASK, or finish if the goal is demonstrably complete, or give up if no useful continuation exists. Do not repeat an approach that already failed unless you change something material.";
  tool_call_id = none;
}

abbrev pub action_request : ActionSelectionInput → ToolActionRequest
action_request input = record {
  request = request_for ModelCallPurpose.select_action (
      selector_message
      ∷ message_of (
          join "\n\n" (
            render_goal input.goal
            ∷ render_plan input.plan
            ∷ ("CURRENT TASK: ["
                <> input.task.task_id
                <> "] "
                <> input.task.description
                <> "\nEXPECTED EVIDENCE: "
                <> join "; " input.task.expected_evidence)
            ∷ render_attempts input.previous_attempts
            ∷ render_memory (presented_memory input.retrievals)
            ∷ []))
      ∷ []);
  tools = input.available_tools;
}

-- `alternatives.map(…)`, from an index on
unfoldable pub alternative_options : ℕ → List ProposalAlternative → List DecisionOption
unfolding decimal
alternative_options index [] = []
alternative_options index (alt ∷ alts) =
    record {
      option_id = "alternative-" <> decimal (index + 1);
      description = alt.description;
      assessment = alt.why_not;
    }
    ∷ alternative_options (index + 1) alts

abbrev pub memory_evidence : MemoryRecord → EvidenceReference
memory_evidence r = record {
  description = kind_word (kind_of r) <> ": " <> (base_of r).summary;
  memory_record_id = some (record_id_of r);
  observation_id = none;
  url = none;
}

abbrev pub attempt_evidence : TaskAttempt → EvidenceReference
attempt_evidence a = record {
  description =
      "attempt " <> decimal a.action.attempt <> " evaluated " <> verdict_word a.evaluation.verdict;
  memory_record_id = none;
  observation_id = some a.observation.observation_id;
  url = none;
}

-- `plan` with the memory that was shown and the attempts that were made
abbrev pub decision_parts : ActionSelectionInput → PresentedMemory → List Provenance
decision_parts input memory =
    record empty_provenance { plan_ids = some (input.plan.plan_id ∷ []) }
    ∷ record empty_provenance { retrieval_ids = when_listed memory.retrieval_ids }
    ∷ record empty_provenance { memory_record_ids = when_listed (map record_id_of memory.records) }
    ∷ record empty_provenance {
      action_ids = when_listed (map (λ a. a.action.action_id) input.previous_attempts);
      evaluation_ids = when_listed (map (λ a. a.evaluation.evaluation_id) input.previous_attempts);
    }
    ∷ []

abbrev retried : Option TaskAttempt → Option String
retried none = none
retried (some a) = some a.action.action_id

-- the fields of the proposal of a tool call
pub record ToolProposal : Type 0 where
  pub tool_name : String
  pub input : Value
  pub rationale : String
  pub alternatives : Option (List ProposalAlternative)
  pub confidence : Option ℕ

module _ (input : ActionSelectionInput) (proposal : ToolProposal) (memory : PresentedMemory) where
  -- the decision and the action, by the identifiers and the time that they get
  abbrev pub decision_of : String → String → String → String → DecisionRecord
  decision_of now action_id decision_id record_id = record {
    base = record {
      record_id = record_id;
      run_id = input.goal.run_id;
      goal_id = some input.goal.goal_id;
      task_id = some input.task.task_id;
      created_at = now;
      summary = "Use " <> proposal.tool_name <> " for task " <> input.task.task_id;
      tags = proposal.tool_name ∷ "action-selection" ∷ [];
      provenance = merge_provenance (decision_parts input memory);
      preconditions = none;
    };
    body = record {
      decision_id = decision_id;
      context = input.task.description;
      options_considered =
          record {
            option_id = "selected";
            description = proposal.tool_name <> ": " <> proposal.rationale;
            assessment = "selected";
          }
          ∷ alternative_options 0 (or_else proposal.alternatives []);
      selected_option_id = "selected";
      evidence = map memory_evidence memory.records ++ map attempt_evidence input.previous_attempts;
      reason = proposal.rationale;
      confidence = proposal.confidence;
      action_id = some action_id;
      outcome = DecisionOutcome.pending;
      lesson_ids = [];
    };
  }

  abbrev pub action_of : String → String → String → AgentAction
  action_of now action_id decision_id = record {
    action_id = action_id;
    correlation = record {
      run_id = input.goal.run_id;
      goal_id = input.goal.goal_id;
      task_id = some input.task.task_id;
    };
    plan_id = input.plan.plan_id;
    decision_id = some decision_id;
    tool_name = proposal.tool_name;
    input = proposal.input;
    attempt = length input.previous_attempts + 1;
    retry_of = retried (last? input.previous_attempts);
    intent = proposal.rationale;
    derived_from = record empty_provenance {
      plan_ids = some (input.plan.plan_id ∷ []);
      decision_ids = some (decision_id ∷ []);
    };
    requested_at = now;
  }

module _ {X : Type 0} (host : Host X) where
  unfoldable pub to_action :
      ActionSelectionInput → ToolProposal → PresentedMemory → Async (Shared X) ActionSelection
  to_action input proposal memory = do
    now ← clock_now host
    action_id ← next_id host "act"
    decision_id ← next_id host "dec"
    record_id ← next_id host "mem"
    pure (
        act (action_of input proposal memory now action_id decision_id)
          (some (decision_of input proposal memory now action_id decision_id record_id)))

  -- the switch on the kind of proposal
  unfoldable pub selection_of :
      ActionSelectionInput → ToolActionProposal → Async (Shared X) ActionSelection
  selection_of input (ToolActionProposal.finish summary _) = pure (ActionSelection.finish summary)
  selection_of input (ToolActionProposal.give_up reason) = pure (ActionSelection.give_up reason)
  selection_of input (call_tool name tool_input rationale alternatives confidence) =
      to_action input
        (record {
          tool_name = name;
          input = tool_input;
          rationale = rationale;
          alternatives = alternatives;
          confidence = confidence;
        })
        (presented_memory input.retrievals)

module _ {X T : Type 0} (host : Host X) (model : ModelProvider (Shared X) T) where
  unfoldable pub select_next : ActionSelectionInput → Async (Shared X) ActionSelection
  select_next input = do
    response ← model.request_tool_action (action_request input)
    selection_of host input response.proposal

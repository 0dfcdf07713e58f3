-- ===== src/Agent/Selector/Laws.antt =====
-- What an action that the selector proposes is traced to.
use autonomous_agent.Common.{
  ℕ, ◌+◌, ◌≡◌, refl, ap, ◌∙◌, String, none, some, [], map, includes, or_else, last?, length,
  length-append, length-map,
}
use autonomous_agent.Async.Moves.{Moves, Moves-bind, Moves-pure, moves_rules}
use autonomous_agent.Async.Returns.{Returns, Returns-pure, Returns-any, Returns-bind}
use autonomous_agent.Domain.Provenance.{merge_provenance}
use autonomous_agent.Domain.Provenance.Merge.{includes-merge_key}
use autonomous_agent.Domain.Tool.{AgentAction}
use autonomous_agent.Session.Core.{Host, Shared}
use autonomous_agent.Models.Contracts.{
  ModelProvider, ToolActionRequest, ToolActionProposal, call_tool,
}
use autonomous_agent.Agent.Contracts.{ActionSelectionInput, ActionSelection, act, DecisionRecord}
use autonomous_agent.Agent.Prompting.{PresentedMemory, presented_memory}
use autonomous_agent.Agent.Prompting.Laws.{shown_ids}
use autonomous_agent.Agent.Planner.Cited.{or_else-when_listed, or-false}
use autonomous_agent.Agent.Selector.{
  memory_evidence, attempt_evidence, decision_parts, ToolProposal, retried, to_action, selection_of,
  select_next,
}
use autonomous_agent.Runtime.Frame.Quiet.{Quiet, Quiet-order}
use autonomous_agent.Runtime.Frame.Methods.{next_id-Quiet, clock_now-Quiet}

-- the action that is proposed, with its decision
pub record IsLinked (input : ActionSelectionInput) (action : AgentAction) (d : DecisionRecord)
    : Type 0 where
  pub placed : action.correlation.task_id ≡ some input.task.task_id
  pub of_plan : action.plan_id ≡ input.plan.plan_id
  pub numbered : action.attempt ≡ length input.previous_attempts + 1
  pub retry : action.retry_of ≡ retried (last? input.previous_attempts)
  pub decided : action.decision_id ≡ some d.body.decision_id
  pub decides : d.body.action_id ≡ some action.action_id
  pub informed :
      (v : String)
      → includes (or_else d.base.provenance.memory_record_ids []) v
        ≡ includes (shown_ids (presented_memory input.retrievals)) v
  pub evidence :
      length d.body.evidence
      ≡ length (presented_memory input.retrievals).records + length input.previous_attempts

-- an action with its decision, or no action
abbrev pub Selects : ActionSelectionInput → ActionSelection → Type 0
Selects input (act action none) = ⊥
Selects input (act action (some d)) = IsLinked input action d
Selects input _ = Unit

decision_memory :
    (input : ActionSelectionInput) (memory : PresentedMemory) (v : String)
    → includes (or_else (merge_provenance (decision_parts input memory)).memory_record_ids []) v
      ≡ includes (shown_ids memory) v
unfolding merge_provenance
decision_memory input memory v =
    includes-merge_key (λ p. p.memory_record_ids) (decision_parts input memory) v
    ∙ rw (or_else-when_listed (shown_ids memory)) (or-false (includes (shown_ids memory) v))

module _ {X : Type 0} (host : Host X) where
  to_action-Selects :
      (input : ActionSelectionInput) (proposal : ToolProposal)
      → Returns (Selects input) (to_action host input proposal (presented_memory input.retrievals))
  unfolding to_action
  to_action-Selects input proposal =
      Returns-bind (λ _. Unit) _ _ _ (Returns-any _)
        λ now _.
          Returns-bind (λ _. Unit) _ _ _ (Returns-any _)
            λ action_id _.
              Returns-bind (λ _. Unit) _ _ _ (Returns-any _)
                λ decision_id _.
                  Returns-bind (λ _. Unit) _ _ _ (Returns-any _)
                    λ record_id _. Returns-pure _ _ (record {
                      placed = refl;
                      of_plan = refl;
                      numbered = refl;
                      retry = refl;
                      decided = refl;
                      decides = refl;
                      informed = decision_memory input (presented_memory input.retrievals);
                      evidence =
                          length-append
                            (map memory_evidence (presented_memory input.retrievals).records)
                            (map attempt_evidence input.previous_attempts)
                          ∙ ap
                              (λ (n : ℕ). n + length (map attempt_evidence input.previous_attempts))
                              (length-map memory_evidence
                                (presented_memory input.retrievals).records)
                          ∙ ap (λ (n : ℕ). length (presented_memory input.retrievals).records + n)
                              (length-map attempt_evidence input.previous_attempts);
                    })

  selection_of-Selects :
      (input : ActionSelectionInput) (p : ToolActionProposal)
      → Returns (Selects input) (selection_of host input p)
  unfolding selection_of
  selection_of-Selects input (ToolActionProposal.finish summary r) = Returns-pure _ _ tt
  selection_of-Selects input (ToolActionProposal.give_up reason) = Returns-pure _ _ tt
  selection_of-Selects input (call_tool name value rationale alternatives confidence) =
      to_action-Selects input _

  to_action-Quiet :
      (input : ActionSelectionInput) (p : ToolProposal) (memory : PresentedMemory)
      → Moves Quiet (to_action host input p memory)
  unfolding to_action
  to_action-Quiet input p memory =
      search (moves_rules, Quiet-order, next_id-Quiet, clock_now-Quiet) depth 14

  selection_of-Quiet :
      (input : ActionSelectionInput) (p : ToolActionProposal)
      → Moves Quiet (selection_of host input p)
  unfolding selection_of
  selection_of-Quiet input (ToolActionProposal.finish summary r) = Moves-pure Quiet-order _
  selection_of-Quiet input (ToolActionProposal.give_up reason) = Moves-pure Quiet-order _
  selection_of-Quiet input (call_tool name value rationale alternatives confidence) =
      to_action-Quiet input _ _

module _ {X T : Type 0} (host : Host X) (model : ModelProvider (Shared X) T) where
  -- An action that is selected comes with its decision, each naming the other; it belongs to the
  -- current task and plan, its number is one more than the attempts before it and it retries the last
  -- of them; the decision was informed by exactly the memory that the model was shown, and its
  -- evidence has one entry for each such record and each earlier attempt.
  pub select_next-Selects :
      (input : ActionSelectionInput) → Returns (Selects input) (select_next host model input)
  unfolding select_next
  select_next-Selects input =
      Returns-bind (λ _. Unit) _ _ _ (Returns-any _)
        λ response _. selection_of-Selects host input response.proposal

  pub select_next-Quiet :
      (input : ActionSelectionInput)
      → ((request : ToolActionRequest) → Moves Quiet (model.request_tool_action request))
      → Moves Quiet (select_next host model input)
  unfolding select_next
  select_next-Quiet input q =
      Moves-bind Quiet-order _ _ (q _) λ response. selection_of-Quiet host input response.proposal

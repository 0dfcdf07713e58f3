-- ===== src/Agent/Planner/Plans.antt =====
-- What a plan of the planner is like: a first plan, and a revision of a plan.
use autonomous_agent.Common.{
  ◌+◌, ◌≡◌, String, Bool, true, false, ◌&&◌, some, List, [], ◌++◌, keep, includes, or_else, All,
}
use autonomous_agent.Async.{Async, Settled, fulfilled, rejected}
use autonomous_agent.Async.Always.{Always}
use autonomous_agent.Domain.Plan.{Plan, PlanTask, Strategy}
use autonomous_agent.Models.Contracts.{StructuredModelResponse, parse_ok, parse_fail}
use autonomous_agent.Agent.Contracts.{PlanningInput, RevisionInput}
use autonomous_agent.Agent.Prompting.{presented_memory}
use autonomous_agent.Agent.Prompting.Laws.{shown_ids}
use autonomous_agent.Agent.Proposal.{PlanProposal, RevisionProposal}
use autonomous_agent.Domain.Thrown.{Thrown}
use autonomous_agent.Agent.Planner.{planner_error}
use autonomous_agent.Agent.Planner.Laws.{MadeAll}
use autonomous_agent.Runtime.PlanTasks.{is_completed}
use autonomous_agent.Runtime.PlanTasks.Laws.{HasNoDependency}

-- the memory that a plan names, by what the model cited and what it was shown
abbrev NamesCited : PlanningInput → List String → Plan → Type 0
NamesCited input cited plan =
    (v : String)
    → includes (or_else plan.informed_by.memory_record_ids []) v
      ≡ includes cited v && includes (shown_ids (presented_memory input.retrievals)) v

-- a first plan
pub record IsFirst (input : PlanningInput) (proposal : PlanProposal) (plan : Plan) : Type 0 where
  pub version : plan.version ≡ 1
  pub run : plan.run_id ≡ input.goal.run_id
  pub goal : plan.goal_id ≡ input.goal.goal_id
  pub summary : plan.strategy.summary ≡ proposal.strategy_summary
  pub made : MadeAll [] proposal.tasks plan.tasks
  pub named : NamesCited input proposal.cited_memory_record_ids plan

-- the strategy of a revision: the old one, or a new version of it
abbrev FollowsStrategy : Bool → Strategy → Strategy → Type 0
FollowsStrategy false old new = new ≡ old
FollowsStrategy true old new =
    (new.version ≡ old.version + 1) × (new.supersedes ≡ some old.strategy_id)

-- a revision of a plan
pub record IsRevision (input : RevisionInput) (proposal : RevisionProposal) (plan : Plan)
    : Type 0 where
  pub version : plan.version ≡ input.previous_plan.version + 1
  pub run : plan.run_id ≡ input.previous_plan.run_id
  pub goal : plan.goal_id ≡ input.previous_plan.goal_id
  pub strategy :
      FollowsStrategy proposal.strategy_changed input.previous_plan.strategy plan.strategy
  pub revised : List PlanTask
  pub tasks : plan.tasks ≡ keep (λ t. is_completed t.status) input.previous_plan.tasks ++ revised
  pub made : MadeAll input.previous_plan.tasks proposal.plan.tasks revised
  pub named : NamesCited input.planning proposal.plan.cited_memory_record_ids plan

-- a first plan, made of a proposal
pub record Plans (input : PlanningInput) (proposal : PlanProposal) (plan : Plan) : Type 0 where
  pub first : IsFirst input proposal plan
  pub free : All HasNoDependency plan.tasks

-- a revision, made of a proposal
pub record Revises (input : RevisionInput) (proposal : RevisionProposal) (plan : Plan)
    : Type 0 where
  pub revision : IsRevision input proposal plan
  pub finished :
      keep (λ t. is_completed t.status) plan.tasks
      ≡ keep (λ t. is_completed t.status) input.previous_plan.tasks
  pub free : All HasNoDependency input.previous_plan.tasks → All HasNoDependency plan.tasks

-- what the planner settles to, by what the model settled to: its error is thrown on; of an answer that
-- the parser refused an error is made, with the parser's complaints; of a proposal a plan is made
pub data Follows {A B : Type 0} (message : String) (P : A → B → Type 0)
    : Settled (StructuredModelResponse A) → Settled B → Type 0 where
  failed : (e : Thrown) → Follows message P (rejected e) (rejected e)
  refused :
      (r : StructuredModelResponse A) (errors : List String)
      → r.parsed ≡ parse_fail errors
      → Follows message P (fulfilled r) (rejected (planner_error message errors))
  made :
      (r : StructuredModelResponse A) (proposal : A) (b : B)
      → r.parsed ≡ parse_ok proposal
      → P proposal b
      → Follows message P (fulfilled r) (fulfilled b)

-- ===== src/Domain/Plan.antt =====
-- src/domain/plan.ts
use autonomous_agent.Common.{ℕ, String, Option, List}
use autonomous_agent.Domain.Provenance.{Provenance}

pub data PlanTaskStatus : Type 0 where
  pending in_progress completed failed skipped : PlanTaskStatus

pub record PlanTask : Type 0 where
  pub task_id : String
  pub description : String
  pub status : PlanTaskStatus
  pub depends_on : List String
  pub expected_evidence : List String

pub record Strategy : Type 0 where
  pub strategy_id : String
  pub summary : String
  pub version : ℕ
  pub supersedes : Option String
  pub change_reason : Option String

pub record Plan : Type 0 where
  pub plan_id : String
  pub run_id : String
  pub goal_id : String
  pub version : ℕ
  pub strategy : Strategy
  pub tasks : List PlanTask
  pub informed_by : Provenance
  pub created_at : String
  pub revision_reason : Option String

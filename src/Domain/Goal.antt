-- ===== src/Domain/Goal.antt =====
-- src/domain/goal.ts, src/domain/criteria.ts (the type of a criterion) and src/domain/artifact.ts.
use autonomous_agent.Common.{ℕ, String, Option, List}
use autonomous_agent.Domain.Provenance.{Provenance, RunCorrelation}

pub data VerifiableCriterion : Type 0 where
  file_exists : String → VerifiableCriterion
  file_contains : String → String → VerifiableCriterion
  json_file : String → Option (List String) → VerifiableCriterion
  command_exits_zero : String → VerifiableCriterion
  http_status : ℕ → VerifiableCriterion
  tool_succeeded : Option String → VerifiableCriterion

pub record Goal : Type 0 where
  pub goal_id : String
  pub run_id : String
  pub statement : String
  pub constraints : List String
  pub success_criteria : List String
  pub verifiable_criteria : Option (List VerifiableCriterion)
  pub received_at : String

pub data ArtifactKind : Type 0 where
  file report code dataset log other : ArtifactKind

pub data ArtifactLocation : Type 0 where
  sandbox : String → ArtifactLocation
  persistent : String → ArtifactLocation

pub record ArtifactRef : Type 0 where
  pub artifact_id : String
  pub kind : ArtifactKind
  pub location : ArtifactLocation
  pub correlation : RunCorrelation
  pub description : String
  pub content_type : Option String
  pub size_bytes : Option ℕ
  pub produced_by : Provenance
  pub created_at : String

-- ===== src/Memory/Records.antt =====
-- src/memory/records.ts, with the preconditions of src/memory/applicability.ts. The four record types
-- share a base; what only one kind has stands in its body. A confidence in [0, 1] is a number of
-- hundredths.
use autonomous_agent.Common.{ℕ, String, Bool, true, false, Option, List, [], ◌∷◌}
use autonomous_agent.Domain.Provenance.{Provenance}
use autonomous_agent.Domain.Outcome.{OutcomeVerdict, DecisionOutcome}

pub data Precondition : Type 0 where
  file_exists : String → Precondition
  tool_available : String → Precondition
  environment_provider : String → Precondition

pub data MemoryKind : Type 0 where
  knowledge experience decision lesson : MemoryKind

abbrev pub persistent_memory_kinds : List MemoryKind
persistent_memory_kinds = knowledge ∷ experience ∷ decision ∷ lesson ∷ []

abbrev pub same_kind : MemoryKind → MemoryKind → Bool
same_kind knowledge knowledge = true
same_kind experience experience = true
same_kind decision decision = true
same_kind lesson lesson = true
same_kind _ _ = false

pub record SourceReference : Type 0 where
  pub url : Option String
  pub title : Option String
  pub tool_name : Option String
  pub retrieved_at : String
  pub action_id : Option String

pub record KnowledgeBody : Type 0 where
  pub title : String
  pub content : String
  pub sources : List SourceReference
  pub confidence : ℕ

pub record ExperienceBody : Type 0 where
  pub action_id : String
  pub tool_name : String
  pub input_summary : String
  pub observation_id : String
  pub evaluation_id : Option String
  pub outcome : OutcomeVerdict
  pub attempt : ℕ
  pub retry_of : Option String
  pub changed_approach : Bool

pub record DecisionOption : Type 0 where
  pub option_id : String
  pub description : String
  pub assessment : String

pub record EvidenceReference : Type 0 where
  pub description : String
  pub memory_record_id : Option String
  pub observation_id : Option String
  pub url : Option String

pub record DecisionBody : Type 0 where
  pub decision_id : String
  pub context : String
  pub options_considered : List DecisionOption
  pub selected_option_id : String
  pub evidence : List EvidenceReference
  pub reason : String
  pub confidence : Option ℕ
  pub action_id : Option String
  pub outcome : DecisionOutcome
  pub lesson_ids : List String

pub record LessonValidation : Type 0 where
  pub times_retrieved : ℕ
  pub times_applied : ℕ
  pub times_confirmed : ℕ
  pub times_contradicted : ℕ

pub record LessonBody : Type 0 where
  pub lesson_id : String
  pub statement : String
  pub applicability : List String
  pub confidence : ℕ
  pub validation : LessonValidation

-- `MemoryRecordBase`
pub record RecordBase : Type 0 where
  pub record_id : String
  pub run_id : String
  pub goal_id : Option String
  pub task_id : Option String
  pub created_at : String
  pub summary : String
  pub tags : List String
  pub provenance : Provenance
  pub preconditions : Option (List Precondition)

pub data MemoryRecord : Type 0 where
  knowledge : RecordBase → KnowledgeBody → MemoryRecord
  experience : RecordBase → ExperienceBody → MemoryRecord
  decision : RecordBase → DecisionBody → MemoryRecord
  lesson : RecordBase → LessonBody → MemoryRecord

abbrev pub base_of : MemoryRecord → RecordBase
base_of (MemoryRecord.knowledge b _) = b
base_of (MemoryRecord.experience b _) = b
base_of (MemoryRecord.decision b _) = b
base_of (MemoryRecord.lesson b _) = b

abbrev pub kind_of : MemoryRecord → MemoryKind
kind_of (MemoryRecord.knowledge _ _) = knowledge
kind_of (MemoryRecord.experience _ _) = experience
kind_of (MemoryRecord.decision _ _) = decision
kind_of (MemoryRecord.lesson _ _) = lesson

-- ===== src/Memory/Retrieval.antt =====
-- src/memory/retrieval.ts, with the report of src/memory/applicability.ts. Scores are signed numbers
-- in a fixed point.
use autonomous_agent.Common.{ℕ, String, Bool, Option, List}
use autonomous_agent.Common.Int.{ℤ}
use autonomous_agent.Domain.Provenance.{RunCorrelation}
use autonomous_agent.Memory.Records.{Precondition, MemoryKind, MemoryRecord}

pub data PreconditionStatus : Type 0 where
  holds violated unknown : PreconditionStatus

pub record PreconditionCheck : Type 0 where
  pub precondition : Precondition
  pub status : PreconditionStatus
  pub evidence : String

pub record ApplicabilityReport : Type 0 where
  pub status : PreconditionStatus
  pub checks : List PreconditionCheck

pub data RetrievalSignal : Type 0 where
  metadata keyword semantic : RetrievalSignal

pub record RetrievalQuery : Type 0 where
  pub retrieval_id : String
  pub text : String
  pub kinds : List MemoryKind
  pub tags : Option (List String)
  pub limit : ℕ
  pub correlation : RunCorrelation

pub record RetrievalDegradation : Type 0 where
  pub signal : RetrievalSignal
  pub reason : String

pub record ScoreBreakdown : Type 0 where
  pub lexical : ℤ
  pub semantic : Option ℤ
  pub semantic_admitted : Bool
  pub semantic_threshold : Option ℤ
  pub lexical_weight : ℤ
  pub semantic_weight : ℤ
  pub combined : ℤ

pub record RetrievalHit : Type 0 where
  pub item : MemoryRecord
  pub score : ℤ
  pub matched_by : List RetrievalSignal
  pub breakdown : Option ScoreBreakdown
  pub rank_before_selection : Option ℕ
  pub kept_by_diversity : Option Bool
  pub final_rank : Option ℕ
  pub applicability : Option ApplicabilityReport

pub data DropReason : Type 0 where
  below_limit displaced_by_diversity : DropReason

pub record RetrievalDrop : Type 0 where
  pub record_id : String
  pub kind : MemoryKind
  pub score : ℤ
  pub breakdown : Option ScoreBreakdown
  pub rank_before_selection : ℕ
  pub reason : DropReason

-- `suppressed` is `'memory_off'` or absent
pub record RetrievalResult : Type 0 where
  pub retrieval_id : String
  pub query : RetrievalQuery
  pub hits : List RetrievalHit
  pub signals_used : List RetrievalSignal
  pub degraded : Option (List RetrievalDegradation)
  pub dropped : Option (List RetrievalDrop)
  pub candidate_count : Option ℕ
  pub unmatched_count : Option ℕ
  pub suppressed : Bool
  pub started_at : String
  pub finished_at : String
  pub duration_ms : ℕ

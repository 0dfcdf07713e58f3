-- ===== src/Memory/Store.antt =====
-- `MemoryStore`, `MemoryQuery` (src/memory/store.ts) and the searches of `SemanticIndex`
-- (src/memory/retrieval.ts), as interfaces over the state `S`; `searchableText` of
-- src/memory/searchable-text.ts.
use autonomous_agent.Common.{ℕ, String, Bool, Option, List, join, ◌<>◌}
use autonomous_agent.Common.Int.{ℤ}
use autonomous_agent.Async.{Async}
use autonomous_agent.Memory.Records.{MemoryKind, MemoryRecord}

pub record MemoryQuery : Type 0 where
  pub kinds : Option (List MemoryKind)
  pub run_id : Option String
  pub goal_id : Option String
  pub tags : Option (List String)
  pub created_after : Option String
  pub limit : Option ℕ

pub record MemoryStore (S : Type 0) : Type 0 where
  pub put : MemoryRecord → Async S (Unit {0})
  pub get : String → Async S (Option MemoryRecord)
  pub query : MemoryQuery → Async S (List MemoryRecord)
  pub count : MemoryQuery → Async S ℕ

pub record SemanticMatch : Type 0 where
  pub record_id : String
  pub score : ℤ

-- the text, the limit and the records within which to search
pub record SemanticIndex (S : Type 0) : Type 0 where
  pub index : String → String → Async S (Unit {0})
  pub search : String → ℕ → List String → Async S (List SemanticMatch)
  pub contains : String → Async S Bool

unfoldable pub searchable_text : MemoryRecord → String
searchable_text (MemoryRecord.knowledge b k) =
    (b.summary <> " " <> join " " b.tags) <> " " <> k.title <> " " <> k.content
searchable_text (MemoryRecord.experience b e) =
    (b.summary <> " " <> join " " b.tags) <> " " <> e.tool_name <> " " <> e.input_summary
searchable_text (MemoryRecord.decision b d) =
    (b.summary <> " " <> join " " b.tags) <> " " <> d.context <> " " <> d.reason
searchable_text (MemoryRecord.lesson b l) =
    (b.summary <> " " <> join " " b.tags) <> " " <> l.statement <> " " <> join " " l.applicability

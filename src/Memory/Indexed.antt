-- ===== src/Memory/Indexed.antt =====
-- `IndexedMemoryStore` of src/memory/indexed-memory-store.ts: a store that keeps a semantic index in step
-- with what is put. The state is the array `failures` and what the store and the index work on.
pub mod Laws
use autonomous_agent.Common.{
  ℕ, ◌+◌, String, Bool, true, false, List, [], ◌∷◌, ◌++◌, length, if◌then◌else◌,
}
use autonomous_agent.Async.{Async, pure, catch, modify, ◌>>=◌, ◌>>◌}
use autonomous_agent.Domain.Thrown.{Thrown}
use autonomous_agent.Memory.Records.{MemoryKind, MemoryRecord, base_of, kind_of}
use autonomous_agent.Memory.Store.{MemoryStore, MemoryQuery, SemanticIndex, searchable_text}

pub record IndexFailure : Type 0 where
  pub record_id : String
  pub kind : MemoryKind
  pub error : Thrown

pub record Indexing (S : Type 0) : Type 0 where
  pub failures : List IndexFailure
  pub beneath : S

-- what `backfill` answers
pub record Backfill : Type 0 where
  pub examined : ℕ
  pub indexed : ℕ
  pub failed : ℕ

module _ {S A : Type 0} where
  abbrev pub on_beneath : Async S A → Async (Indexing S) A
  on_beneath m s = let (r, t) = m s.beneath in (r, record s { beneath = t })

-- `onIndexFailure` is a method that does nothing where the option is not given
module _ {S : Type 0} (store : MemoryStore S) (index : SemanticIndex S)
    (on_index_failure : IndexFailure → Async S (Unit {0})) where
  -- the handler of `tryIndex`
  unfoldable pub note_failure : IndexFailure → Async (Indexing S) Bool
  note_failure failure = do
    modify (λ s. record s { failures = s.failures ++ failure ∷ [] })
    on_beneath (on_index_failure failure)
    pure false

  unfoldable pub try_index : MemoryRecord → Async (Indexing S) Bool
  try_index item =
      catch (on_beneath (index.index (base_of item).record_id (searchable_text item)) >> pure true)
        (λ e.
          note_failure
            (record { record_id = (base_of item).record_id; kind = kind_of item; error = e }))

  unfoldable pub put_indexed : MemoryRecord → Async (Indexing S) (Unit {0})
  put_indexed item = do on_beneath (store.put item); _ ← try_index item; pure tt

  -- one more record that is indexed, or that failed
  abbrev pub tally : Bool → ℕ × ℕ → ℕ × ℕ
  tally true (indexed, failed) = (indexed + 1, failed)
  tally false (indexed, failed) = (indexed, failed + 1)

  -- the loop of `backfill`: how many records were indexed and how many failed
  unfoldable pub backfill_each : List MemoryRecord → Async (Indexing S) (ℕ × ℕ)
  backfill_each [] = pure (0, 0)
  backfill_each (item ∷ items) =
      let rest = backfill_each items in
      on_beneath (index.contains (base_of item).record_id) >>= λ held.
      if held
      then rest
      else (try_index item >>= λ done. rest >>= λ counts. pure (tally done counts))

  unfoldable pub backfill : MemoryQuery → Async (Indexing S) Backfill
  backfill query = do
    items ← on_beneath (store.query query)
    counts ← backfill_each items
    pure (record { examined = length items; indexed = counts.0; failed = counts.1 })

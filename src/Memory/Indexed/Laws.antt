-- ===== src/Memory/Indexed/Laws.antt =====
-- A failing index loses no record (src/memory/indexed-memory-store.ts).
use autonomous_agent.Common.{
  ℕ, suc, ◌+◌, ◌≤◌, String, Bool, true, false, List, [], ◌∷◌, length, arith, if◌then◌else◌,
}
use autonomous_agent.Async.{Async, pure, ◌>>=◌, modify}
use autonomous_agent.Async.Always.{Always, Always-pure, Always-bind, Always-catch, Always-weaken}
use autonomous_agent.Memory.Records.{MemoryRecord}
use autonomous_agent.Memory.Store.{MemoryStore, MemoryQuery, SemanticIndex}
use autonomous_agent.Memory.Indexed.{
  IndexFailure, Indexing, on_beneath, note_failure, try_index, put_indexed, tally, backfill_each,
  backfill,
}

module _ {S A : Type 0} where
  on_beneath-Always :
      (P : A → Type 0) (m : Async S A) → Always P m → Always {S = Indexing S} P (on_beneath m)
  on_beneath-Always P m h = record { at = λ s. h.at s.beneath }

-- what is asked of the store and of the callback
module _ {S : Type 0} (store : MemoryStore S) (index : SemanticIndex S)
    (on_index_failure : IndexFailure → Async S (Unit {0}))
    (told : (f : IndexFailure) → Always (λ _. Unit) (on_index_failure f)) where
  note_failure-Always :
      (f : IndexFailure) → Always (λ _. Unit) (note_failure store index on_index_failure f)
  unfolding note_failure modify
  note_failure-Always f =
      Always-bind (λ _. Unit) _ _ _ (record { at = λ s. tt })
        λ _ _.
          Always-bind (λ _. Unit) _ _ _ (on_beneath-Always (λ _. Unit) _ (told f))
            λ _ _. Always-pure (λ _. Unit) false tt

  -- whatever the index throws is caught
  try_index-Always :
      (item : MemoryRecord) → Always (λ _. Unit) (try_index store index on_index_failure item)
  unfolding try_index
  try_index-Always item = Always-catch _ _ (λ e. note_failure-Always _)

  -- If the store keeps a record and the callback returns, putting the record never throws, whatever the
  -- semantic index throws.
  pub put_indexed-Always :
      (item : MemoryRecord)
      → Always (λ _. Unit) (store.put item)
      → Always (λ _. Unit) (put_indexed store index on_index_failure item)
  unfolding put_indexed
  put_indexed-Always item kept =
      Always-bind (λ _. Unit) _ _ _ (on_beneath-Always (λ _. Unit) _ kept)
        λ _ _.
          Always-bind (λ _. Unit) _ _ _ (try_index-Always item) λ _ _. Always-pure (λ _. Unit) tt tt

  tally_le :
      (done : Bool) (counts : ℕ × ℕ) (n : ℕ)
      → counts.0 + counts.1 ≤ n
      → (tally store index on_index_failure done counts).0
          + (tally store index on_index_failure done counts).1
        ≤ suc n
  tally_le true counts n h = omega (arith, h)
  tally_le false counts n h = omega (arith, h)

  module _ (looked_up : (id : String) → Always (λ _. Unit) (index.contains id)) where
    backfill_each-Counts :
        (items : List MemoryRecord)
        → Always (λ c. c.0 + c.1 ≤ length items) (backfill_each store index on_index_failure items)
    unfolding backfill_each
    backfill_each-Counts [] = Always-pure _ _ (omega arith)
    backfill_each-Counts (item ∷ items) =
        let rest = backfill_each-Counts items in
        Always-bind (λ _. Unit) _ _ _ (on_beneath-Always (λ _. Unit) _ (looked_up _))
          λ held _. by_held held rest
      where
        by_held :
            (held : Bool)
            → Always
                (λ c. c.0 + c.1 ≤ length items)
                (backfill_each store index on_index_failure items)
            → Always
                (λ c. c.0 + c.1 ≤ suc (length items))
                (if held
                  then backfill_each store index on_index_failure items
                  else (try_index store index on_index_failure item >>= λ done.
                      backfill_each store index on_index_failure items >>= λ counts.
                      pure (tally store index on_index_failure done counts)))
        by_held true rest = Always-weaken _ _ _ (λ c h. omega (arith, h)) rest
        by_held false rest =
            Always-bind (λ _. Unit) _ _ _ (try_index-Always item)
              λ done _.
                Always-bind (λ c. c.0 + c.1 ≤ length items) _ _ _ rest
                  λ counts h. Always-pure _ _ (tally_le done counts (length items) h)

    -- If the store answers, the index tells what it holds and the callback returns, `backfill` never
    -- throws, whatever indexing throws, and counts no more records than it examined.
    pub backfill-Counts :
        (query : MemoryQuery)
        → Always (λ _. Unit) (store.query query)
        → Always
            (λ r. r.indexed + r.failed ≤ r.examined)
            (backfill store index on_index_failure query)
    unfolding backfill
    backfill-Counts query answered =
        Always-bind (λ _. Unit) _ _ _ (on_beneath-Always (λ _. Unit) _ answered)
          λ items _.
            Always-bind (λ c. c.0 + c.1 ≤ length items) _ _ _ (backfill_each-Counts items)
              λ counts h. Always-pure _ _ h

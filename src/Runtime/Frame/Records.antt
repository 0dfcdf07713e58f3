-- ===== src/Runtime/Frame/Records.antt =====
-- Writing a record and reporting a retrieval keep the tally of the memory counters.
use autonomous_agent.Common.{
  ◌+◌, ◌≡◌, refl, String, List, [], ◌∷◌, ◌++◌, length, length-append, arith,
}
use autonomous_agent.Async.{◌>>=◌, ◌>>◌}
use autonomous_agent.Async.Moves.{Moves, Moves-bind}
use autonomous_agent.Events.{EventCorrelation, memory_written}
use autonomous_agent.Session.Core.{Host, emit, count_one, on_session, on_working}
use autonomous_agent.Session.Usage.{increment, memory_writes}
use autonomous_agent.Session.Log.{endings}
use autonomous_agent.Agent.Contracts.{RuntimeComponents}
use autonomous_agent.Memory.Records.{MemoryRecord, base_of, kind_of}
use autonomous_agent.Memory.Retrieval.{RetrievalResult}
use autonomous_agent.Runtime.State.{
  on_shared, count, announce, write_record, push_written, push_retrieval,
}
use autonomous_agent.Runtime.Retrieve.{report_retrieval}
use autonomous_agent.Runtime.Frame.Quiet.{Steady, Steady-order, IsQuiet}
use autonomous_agent.Runtime.Frame.Methods.{on_shared-Steady}

length-concat {ℓ} : {A : Type ℓ} (xs : List A) (x : A) → length (xs ++ x ∷ []) ≡ length xs + 1
length-concat xs x = omega (arith, length-append xs (x ∷ []))

module _ {X : Type 0} (host : Host X) where
  -- what `write_record` does once the store has accepted the record
  noted-Steady :
      (item : MemoryRecord) (k : EventCorrelation)
      → Moves Steady (
          count memory_writes
          >> (push_written (base_of item).record_id
              >> announce host
                  (memory_written (base_of item).record_id (kind_of item) (base_of item).summary)
                  k))
  unfolding count count_one increment on_session push_written announce on_shared emit endings ◌>>=◌
  noted-Steady item k = record {
    at = λ s. record {
      status = refl;
      limits = refl;
      iterations = refl;
      endings = refl;
      numbered = λ h. record {
        counted = omega (arith, h.counted);
        sequenced = (omega (arith, h.counted), h.sequenced);
      };
      tallied = λ h. record {
        reads = h.reads;
        writes = omega (arith, h.writes, length-concat s.written (base_of item).record_id);
      };
    };
  }

  pub report_retrieval-Steady :
      (id : String) (result : RetrievalResult) → Moves Steady (report_retrieval host id result)
  unfolding report_retrieval count count_one increment on_session push_retrieval announce on_shared
      emit on_working endings ◌>>=◌
  report_retrieval-Steady id result = record {
    at = λ s. record {
      status = refl;
      limits = refl;
      iterations = refl;
      endings = refl;
      numbered = λ h. record {
        counted = omega (arith, h.counted);
        sequenced = (omega (arith, h.counted), (omega (arith, h.counted), h.sequenced));
      };
      tallied = λ h. record {
        reads = omega (arith, h.reads, length-concat s.retrievals result);
        writes = h.writes;
      };
    };
  }

module _ {X : Type 0} (host : Host X) (c : RuntimeComponents X) (q : IsQuiet c) where
  pub write_record-Steady :
      (item : MemoryRecord) (k : EventCorrelation) → Moves Steady (write_record host c item k)
  unfolding write_record
  write_record-Steady item k =
      Moves-bind Steady-order _ _ (on_shared-Steady (c.put item) (q.put item))
        (λ _. noted-Steady host item _)

-- ===== src/Session/Answers.antt =====
-- The calls of the host that a component makes always answer.
use autonomous_agent.Common.{String}
use autonomous_agent.Async.Always.{Always}
use autonomous_agent.Session.Core.{Host, next_id, clock_now, clock_ms}

module _ {X : Type 0} (host : Host X) where
  pub next_id-Always : (prefix : String) → Always (λ _. Unit) (next_id host prefix)
  unfolding next_id
  next_id-Always prefix = record { at = λ s. tt }

  pub clock_now-Always : Always (λ _. Unit) (clock_now host)
  unfolding clock_now
  clock_now-Always = record { at = λ s. tt }

  pub clock_ms-Always : Always (λ _. Unit) (clock_ms host)
  unfolding clock_ms
  clock_ms-Always = record { at = λ s. tt }

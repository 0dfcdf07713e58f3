-- ===== src/Runtime/Ending/Closing.antt =====
-- The methods that may end the run: each leaves it running or ends it with one announcement.
use autonomous_agent.Common.{◌≡◌, ◌∙◌, ap, true, none, some, ◌∷◌}
use autonomous_agent.Async.{Async, Settled, fulfilled, rejected, proceed, ◌>>=◌}
use autonomous_agent.Async.Moves.{Moves}
use autonomous_agent.Domain.Run.{RunStatus}
use autonomous_agent.Domain.Plan.{Plan}
use autonomous_agent.Session.Core.{is_terminal}
use autonomous_agent.Session.Log.{IsNumbered, endings}
use autonomous_agent.Runtime.PlanTasks.{next_task}
use autonomous_agent.Runtime.State.{AgentState}
use autonomous_agent.Runtime.Frame.Quiet.{IsTallied, Steady}

-- the run's plan has no task that can be worked on
pub record HasNoTask {X : Type 0} (t : AgentState X) : Type 0 where
  pub plan : Plan
  pub current : t.plan ≡ some plan
  pub nothing : next_task plan ≡ none

module _ {X : Type 0} where
  pub data Ending (s t : AgentState X) : Type 0 where
    -- the run goes on
    open_still :
        t.session.status ≡ s.session.status
        → endings t.session.emitted ≡ endings s.session.emitted
        → Ending s t
    -- the run ended, and an event said so
    closed :
        is_terminal t.session.status ≡ true
        → endings t.session.emitted ≡ t.session.status ∷ endings s.session.emitted
        → (t.session.status ≡ RunStatus.completed → HasNoTask t)
        → Ending s t

  pub record Closing (s t : AgentState X) : Type 0 where
    pub limits : t.session.limits ≡ s.session.limits
    pub iterations : t.session.usage.iterations ≡ s.session.usage.iterations
    pub numbered : IsNumbered s.session → IsNumbered t.session
    pub tallied : IsTallied s → IsTallied t
    pub ending : Ending s t

  pub Closing-of_Steady : {s t : AgentState X} → Steady s t → Closing s t
  Closing-of_Steady p = record {
    limits = p.limits;
    iterations = p.iterations;
    numbered = p.numbered;
    tallied = p.tallied;
    ending = open_still p.status p.endings;
  }

  pub Ending-from :
      {s t u : AgentState X}
      → t.session.status ≡ s.session.status
      → endings t.session.emitted ≡ endings s.session.emitted
      → Ending t u
      → Ending s u
  Ending-from status same (open_still a b) = open_still (a ∙ status) (b ∙ same)
  Ending-from {u} status same (closed a b c) = closed a (b ∙ ap (λ l. u.session.status ∷ l) same) c

  pub Closing-after : {s t u : AgentState X} → Steady s t → Closing t u → Closing s u
  Closing-after p q = record {
    limits = q.limits ∙ p.limits;
    iterations = q.iterations ∙ p.iterations;
    numbered = λ h. q.numbered (p.numbered h);
    tallied = λ h. q.tallied (p.tallied h);
    ending = Ending-from p.status p.endings q.ending;
  }

module _ {X A B : Type 0} where
  proceed-Closing :
      (r : Settled A) (k : A → Async (AgentState X) B) (s t : AgentState X)
      → Steady s t
      → ((a : A) → Closing t (k a t).1)
      → Closing s (proceed r k t).1
  proceed-Closing (fulfilled a) k s t p h = Closing-after p (h a)
  proceed-Closing (rejected e) k s t p h = Closing-of_Steady p

  -- A steady part may stand before one that may end the run.
  pub Closing-bind :
      (m : Async (AgentState X) A) (k : A → Async (AgentState X) B)
      → Moves Steady m
      → ((a : A) → Moves Closing (k a))
      → Moves Closing (m >>= k)
  unfolding ◌>>=◌
  Closing-bind m k hm hk = record {
    at = λ s. proceed-Closing (m s).0 k s (m s).1 (hm.at s) (λ a. (hk a).at (m s).1);
  }

module _ {X A : Type 0} where
  pub Closing-of_Moves : {m : Async (AgentState X) A} → Moves Steady m → Moves Closing m
  Closing-of_Moves h = record { at = λ s. Closing-of_Steady (h.at s) }

-- ===== src/Runtime/Ending/Whole.antt =====
-- `pursue`, the handler of `run` and `run` itself: how a run ends.
use autonomous_agent.Common.{
  ℕ, ◌+◌, ◌≤◌, ◌<◌, ◌≡◌, refl, ◌∙◌, ap, subst, String, true, false, ◌∷◌, arith, Bool-cases, inl,
  inr,
}
use autonomous_agent.Async.{Async, Settled, fulfilled, rejected, proceed, recover, ◌>>=◌}
use autonomous_agent.Async.Moves.{Moves}
use autonomous_agent.Domain.Run.{RunStatus}
use autonomous_agent.Domain.Thrown.{Thrown, is_nothing}
use autonomous_agent.Session.Core.{Host, is_terminal, emit, finish}
use autonomous_agent.Session.Log.{IsNumbered, endings}
use autonomous_agent.Agent.Contracts.{RuntimeComponents}
use autonomous_agent.Runtime.State.{AgentState, on_shared, announce, describe_unrecoverable}
use autonomous_agent.Runtime.Loop.{fail_run, pursue}
use autonomous_agent.Runtime.Frame.Quiet.{IsTallied, Steady, IsQuiet}
use autonomous_agent.Runtime.Frame.Steps.{retrieve_memory-Steady, create_initial_plan-Steady}
use autonomous_agent.Runtime.Ending.Closing.{HasNoTask, Ending, Ending-from, open_still, closed}
use autonomous_agent.Runtime.Ending.Run.{max_of, used_by}
use autonomous_agent.Runtime.Ending.Loop.{Finished, loop-Finished}

module _ {X : Type 0} where
  -- the fuel is enough
  pub record Room (fuel : ℕ) (s : AgentState X) : Type 0 where
    pub fits : used_by s ≤ max_of s
    pub enough : max_of s < fuel + used_by s

  Room-after : {fuel : ℕ} {s t : AgentState X} → Steady s t → Room fuel s → Room fuel t
  Room-after {fuel} {s} {t} p room =
      let same : max_of t ≡ max_of s = ap (λ l. l.max_iterations) p.limits in
      record {
        fits = omega (arith, same, p.iterations, room.fits);
        enough = omega (arith, same, p.iterations, room.enough);
      }

  -- what a steady part and then the rest make of a run that goes on
  Finished-of_Steady :
      (s t : AgentState X) (out : Settled (Unit {0}) × AgentState X)
      → Steady s t
      → Finished t out
      → Finished s out
  Finished-of_Steady s t out p f = record {
    limits = f.limits ∙ p.limits;
    numbered = λ n. f.numbered (p.numbered n);
    tallied = λ k. f.tallied (p.tallied k);
    ending = Ending-from p.status p.endings f.ending;
    bounded = subst (λ l. used_by out.1 ≤ l.max_iterations) p.limits f.bounded;
    done = f.done;
  }

  Finished-of_failure :
      (s t : AgentState X) (e : Thrown)
      → used_by s ≤ max_of s
      → Steady s t
      → Finished s (rejected e, t)
  Finished-of_failure s t e fits p = record {
    limits = p.limits;
    numbered = p.numbered;
    tallied = p.tallied;
    ending = open_still p.status p.endings;
    bounded = omega (arith, p.iterations);
    done = λ h. cc;
  }

module _ {X A : Type 0} where
  proceed-Finished :
      (fuel : ℕ) (r : Settled A) (k : A → Async (AgentState X) (Unit {0})) (s t : AgentState X)
      → Steady s t
      → Room fuel s
      → ((a : A) → Room fuel t → Finished t (k a t))
      → Finished s (proceed r k t)
  proceed-Finished fuel (fulfilled a) k s t p room h =
      Finished-of_Steady s t _ p (h a (Room-after p room))
  proceed-Finished fuel (rejected e) k s t p room h = Finished-of_failure s t e room.fits p

module _ {X A : Type 0} where
  Finished-bind :
      (fuel : ℕ) (m : Async (AgentState X) A) (k : A → Async (AgentState X) (Unit {0}))
      (s : AgentState X)
      → Moves Steady m
      → Room fuel s
      → ((a : A) (t : AgentState X) → Room fuel t → Finished t (k a t))
      → Finished s ((m >>= k) s)
  unfolding ◌>>=◌
  Finished-bind fuel m k s hm room h =
      proceed-Finished fuel (m s).0 k s (m s).1 (hm.at s) room (λ a. h a (m s).1)

-- `null` or `undefined` is thrown
abbrev pub ThrowsNothing : {A : Type 0} → Settled A → Type 0
ThrowsNothing (fulfilled a) = ⊥
ThrowsNothing (rejected e) = is_nothing e.class ≡ true

module _ {X : Type 0} where
  -- how the handler leaves a run, by what it caught: it has ended and said so, or the handler failed
  pub data Conclusion (s : AgentState X) (caught : Settled (Unit {0}))
      (out : Settled (Unit {0}) × AgentState X) : Type 0 where
    concludes :
        out.0 ≡ fulfilled tt
        → is_terminal out.1.session.status ≡ true
        → endings out.1.session.emitted ≡ out.1.session.status ∷ endings s.session.emitted
        → Conclusion s caught out
    escapes :
        ThrowsNothing caught
        → is_terminal out.1.session.status ≡ false
        → endings out.1.session.emitted ≡ endings s.session.emitted
        → Conclusion s caught out

  -- what a run has come to
  pub record Ended (s : AgentState X) (caught : Settled (Unit {0}))
      (out : Settled (Unit {0}) × AgentState X) : Type 0 where
    pub limits : out.1.session.limits ≡ s.session.limits
    pub numbered : IsNumbered s.session → IsNumbered out.1.session
    pub tallied : IsTallied s → IsTallied out.1
    pub bounded : used_by out.1 ≤ max_of s
    pub conclusion : Conclusion s caught out
    pub complete : out.1.session.status ≡ RunStatus.completed → HasNoTask out.1

  Ended-of_Finished :
      (s : AgentState X) (out : Settled (Unit {0}) × AgentState X)
      → is_terminal s.session.status ≡ false
      → is_terminal out.1.session.status ≡ true
      → Finished s out
      → Ended s out.0 (fulfilled tt, out.1)
  Ended-of_Finished s out going over f = at f.ending
    where
      at : Ending s out.1 → Ended s out.0 (fulfilled tt, out.1)
      at (open_still a b) = cc
      at (closed a b d) = record {
        limits = f.limits;
        numbered = f.numbered;
        tallied = f.tallied;
        bounded = f.bounded;
        conclusion = concludes refl over b;
        complete = d;
      }

  -- a run that goes on has announced no end
  endings_if_open :
      (s t : AgentState X)
      → is_terminal t.session.status ≡ false
      → Ending s t
      → endings t.session.emitted ≡ endings s.session.emitted
  endings_if_open s t more (open_still a b) = b
  endings_if_open s t more (closed a b d) = cc

module _ {X : Type 0} (host : Host X) (c : RuntimeComponents X) (q : IsQuiet c) where
  pub pursue-Finished :
      (fuel limit : ℕ) (statement : String) (s : AgentState X)
      → Room fuel s
      → Finished s (pursue host c fuel limit statement s)
  unfolding pursue
  pursue-Finished fuel limit statement s room =
      Finished-bind fuel _ _ s (retrieve_memory-Steady host c q limit statement) room λ _ t room.
        Finished-bind fuel _ _ t (create_initial_plan-Steady host c q) room
          λ _ u room. loop-Finished host c q fuel u room.fits room.enough

  -- a value that can be described ends a run that goes on
  fail_run_readable-Ended :
      (e : Thrown) (s t : AgentState X)
      → is_terminal t.session.status ≡ false
      → is_nothing e.class ≡ false
      → Finished s (rejected e, t)
      → Ended s (rejected e) (fail_run host c e t)
  unfolding fail_run announce on_shared emit finish endings ◌>>=◌ describe_unrecoverable
  fail_run_readable-Ended e s t more some_value f =
      rw (fail_run, more)
        (rw (describe_unrecoverable, some_value)
          (record {
            limits = f.limits;
            numbered = λ n.
                let m = f.numbered n in
                record {
                  counted = omega (arith, m.counted);
                  sequenced = (omega (arith, m.counted), m.sequenced);
                };
            tallied = λ k. let m = f.tallied k in record { reads = m.reads; writes = m.writes };
            bounded = f.bounded;
            conclusion =
                concludes refl refl
                  (ap (λ l. RunStatus.failed ∷ l) (endings_if_open s t more f.ending));
            complete = λ h. cc;
          }))

  -- `null` and `undefined` make the handler fail before it has announced anything
  fail_run_nothing-Ended :
      (e : Thrown) (s t : AgentState X)
      → is_terminal t.session.status ≡ false
      → is_nothing e.class ≡ true
      → Finished s (rejected e, t)
      → Ended s (rejected e) (fail_run host c e t)
  unfolding fail_run ◌>>=◌ describe_unrecoverable
  fail_run_nothing-Ended e s t more nothing f =
      rw (fail_run, more)
        (rw (describe_unrecoverable, nothing)
          (record {
            limits = f.limits;
            numbered = f.numbered;
            tallied = f.tallied;
            bounded = f.bounded;
            conclusion = escapes nothing more (endings_if_open s t more f.ending);
            complete = λ h. cc;
          }))

  fail_run-Ended :
      (e : Thrown) (s t : AgentState X)
      → is_terminal s.session.status ≡ false
      → Finished s (rejected e, t)
      → Ended s (rejected e) (fail_run host c e t)
  unfolding fail_run
  fail_run-Ended e s t going f = elim (Bool-cases (is_terminal t.session.status)) [
    | inl over ↦ rw (fail_run, over) (Ended-of_Finished s (rejected e, t) going over f)
    | inr more ↦ elim (Bool-cases (is_nothing e.class)) [
      | inl nothing ↦ fail_run_nothing-Ended e s t more nothing f
      | inr some_value ↦ fail_run_readable-Ended e s t more some_value f
    ]
  ]

  pub caught-Ended :
      (s : AgentState X) (out : Settled (Unit {0}) × AgentState X)
      → is_terminal s.session.status ≡ false
      → Finished s out
      → Ended s out.0 (recover out.0 (fail_run host c) out.1)
  caught-Ended s (fulfilled u, t) going f = Ended-of_Finished s _ going (f.done refl) f
  caught-Ended s (rejected e, t) going f = fail_run-Ended e s t going f

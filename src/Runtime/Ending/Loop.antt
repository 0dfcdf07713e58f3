-- ===== src/Runtime/Ending/Loop.antt =====
-- The loop ends the run within its fuel, and so does `run`.
use autonomous_agent.Common.{
  ℕ, zero, suc, ◌+◌, ◌≤◌, ◌<◌, ◌≡◌, refl, ◌∙◌, ap, true, false, arith, Bool-cases, subst, inl, inr,
}
use autonomous_agent.Async.{Settled, fulfilled, rejected, proceed, ◌>>=◌}
use autonomous_agent.Session.Core.{Host, is_terminal}
use autonomous_agent.Session.Log.{IsNumbered}
use autonomous_agent.Agent.Contracts.{RuntimeComponents}
use autonomous_agent.Runtime.State.{AgentState}
use autonomous_agent.Runtime.Loop.{round, loop}
use autonomous_agent.Runtime.Frame.Quiet.{IsTallied, IsQuiet}
use autonomous_agent.Runtime.Ending.Closing.{Ending, Ending-from, open_still, closed}
use autonomous_agent.Runtime.Ending.Run.{Rounded, round-Rounded, max_of, used_by}

module _ {X : Type 0} where
  -- what a body makes of a run that goes on, if it settles to `out`
  pub record Finished (s : AgentState X) (out : Settled (Unit {0}) × AgentState X) : Type 0 where
    pub limits : out.1.session.limits ≡ s.session.limits
    pub numbered : IsNumbered s.session → IsNumbered out.1.session
    pub tallied : IsTallied s → IsTallied out.1
    pub ending : Ending s out.1
    pub bounded : used_by out.1 ≤ max_of s
    pub done : out.0 ≡ fulfilled tt → is_terminal out.1.session.status ≡ true

  Finished-here :
      (s : AgentState X) (r : Settled (Unit {0}))
      → used_by s ≤ max_of s
      → (r ≡ fulfilled tt → is_terminal s.session.status ≡ true)
      → Finished s (r, s)
  Finished-here s r fits h = record {
    limits = refl;
    numbered = λ n. n;
    tallied = λ k. k;
    ending = open_still refl refl;
    bounded = fits;
    done = h;
  }

  -- the last round leaves the run at its end, or fails
  Finished-of_Rounded :
      (s : AgentState X) (out : Settled (Unit {0}) × AgentState X)
      → used_by s ≤ max_of s
      → Rounded s out
      → (out.0 ≡ fulfilled tt → is_terminal out.1.session.status ≡ true)
      → Finished s out
  Finished-of_Rounded s out fits p h = record {
    limits = p.limits;
    numbered = p.numbered;
    tallied = p.tallied;
    ending = p.ending;
    bounded = p.bounded fits;
    done = h;
  }

  -- a round that leaves the run open, and what follows it
  Finished-after :
      (s t : AgentState X) (r : Settled (Unit {0})) (out : Settled (Unit {0}) × AgentState X)
      → is_terminal s.session.status ≡ false
      → is_terminal t.session.status ≡ false
      → Rounded s (r, t)
      → Finished t out
      → Finished s out
  Finished-after s t r out from more p f = record {
    limits = f.limits ∙ p.limits;
    numbered = λ n. f.numbered (p.numbered n);
    tallied = λ k. f.tallied (p.tallied k);
    ending = chained p.ending;
    bounded = subst (λ l. used_by out.1 ≤ l.max_iterations) p.limits f.bounded;
    done = f.done;
  }
    where
      chained : Ending s t → Ending s out.1
      chained (open_still a b) = Ending-from a b f.ending
      chained (closed a _ _) = cc

module _ {X : Type 0} (host : Host X) (c : RuntimeComponents X) (q : IsQuiet c) where
  loop_at_end :
      (fuel : ℕ) (s : AgentState X)
      → is_terminal s.session.status ≡ true
      → loop host c fuel s ≡ (fulfilled tt, s)
  unfolding loop
  loop_at_end zero s h = refl
  loop_at_end (suc fuel) s h = rw (loop, h) refl

  after_round :
      (fuel : ℕ) (s : AgentState X) (out : Settled (Unit {0}) × AgentState X)
      → used_by s ≤ max_of s
      → max_of s < suc fuel + used_by s
      → is_terminal s.session.status ≡ false
      → Rounded s out
      → ((t : AgentState X)
          → used_by t ≤ max_of t
          → max_of t < fuel + used_by t
          → Finished t (loop host c fuel t))
      → Finished s (proceed out.0 (λ _. loop host c fuel) out.1)
  after_round fuel s (rejected e, t) fits room from p ih =
      Finished-of_Rounded s (rejected e, t) fits p (λ h. cc)
  after_round fuel s (fulfilled u, t) fits room from p ih =
      elim (Bool-cases (is_terminal t.session.status)) [
        | inl over ↦
            rw (loop_at_end fuel t over) (Finished-of_Rounded s (fulfilled u, t) fits p (λ _. over))
        | inr more ↦ elim (p.progress refl) [
          | inl over ↦ cc
          | inr one_more ↦
              let same : max_of t ≡ max_of s = ap (λ l. l.max_iterations) p.limits in
              Finished-after s t (fulfilled u) _ from more p
                (ih t (omega (arith, same, p.bounded fits)) (omega (arith, same, one_more)))
        ]
      ]

  -- The limit on the iterations bounds the rounds.
  pub loop-Finished :
      (fuel : ℕ) (s : AgentState X)
      → used_by s ≤ max_of s
      → max_of s < fuel + used_by s
      → Finished s (loop host c fuel s)
  unfolding loop ◌>>=◌
  loop-Finished zero s fits room = elim (unreachable fits room) [ ]
    where
      unreachable : used_by s ≤ max_of s → ¬ (max_of s < 0 + used_by s)
      unreachable = omega arith
  loop-Finished (suc fuel) s fits room = elim (Bool-cases (is_terminal s.session.status)) [
    | inl over ↦ rw (loop, over) (Finished-here s (fulfilled tt) fits (λ _. over))
    | inr more ↦
        rw (loop, more)
          (after_round fuel s (round host c s) fits room more (round-Rounded host c q s)
            (loop-Finished fuel))
  ]

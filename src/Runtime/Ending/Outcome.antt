-- ===== src/Runtime/Ending/Outcome.antt =====
-- What `run` of src/agent/runtime/agent-runtime.ts promises, for components that keep to their
-- contract (`IsQuiet`).
use autonomous_agent.Common.{
  ℕ, ◌+◌, ◌≤◌, ◌≡◌, ◌⊎◌, inl, inr, refl, true, false, Option, [], ◌∷◌, arith, or_else,
}
use autonomous_agent.Async.{Settled, fulfilled, rejected, proceed, gets, catch, ◌>>=◌}
use autonomous_agent.Domain.Run.{RunStatus}
use autonomous_agent.Events.{no_correlation, goal_received}
use autonomous_agent.Session.Core.{
  Host, SessionOptions, start_session, is_terminal, emit, mark_running, on_session,
}
use autonomous_agent.Session.Log.{IsNumbered, endings}
use autonomous_agent.Agent.Contracts.{RuntimeComponents}
use autonomous_agent.Runtime.State.{AgentState, on_shared, announce}
use autonomous_agent.Runtime.Loop.{run_with, run, run_answer, new_agent, outcome_of, pursue}
use autonomous_agent.Runtime.Frame.Quiet.{IsTallied, IsQuiet}
use autonomous_agent.Runtime.Ending.Closing.{HasNoTask}
use autonomous_agent.Runtime.Ending.Whole.{
  Ended, Conclusion, concludes, escapes, ThrowsNothing, caught-Ended, pursue-Finished,
}

module _ {X : Type 0} (host : Host X) (options : SessionOptions) (x : X) where
  -- the state in which the body of the `try` of `run` starts
  abbrev at_start : AgentState X
  at_start =
      (announce host (goal_received options.goal_statement) no_correlation
        (on_shared mark_running (new_agent (start_session host options x))).1).1

  module _ (c : RuntimeComponents X) (limit : Option ℕ) where
    -- what the body of the `try` settles to
    abbrev pub tried : Settled (Unit {0})
    tried =
        (pursue host c (options.limits.max_iterations + 1) (or_else limit 5) options.goal_statement
          at_start).0

  module _ (c : RuntimeComponents X) (q : IsQuiet c) (limit : Option ℕ) where
    run-Ended : Ended at_start (tried c limit) (
        run_with host c
          (options.limits.max_iterations + 1)
          (or_else limit 5)
          (new_agent (start_session host options x)))
    unfolding run_with start_session announce on_shared emit mark_running catch ◌>>=◌ on_session
        pursue
    run-Ended = caught-Ended host c q _ _ refl (
        pursue-Finished host c q (options.limits.max_iterations + 1) (or_else limit 5)
          options.goal_statement _ (record { fits = omega arith; enough = omega arith }))

    -- `run` always settles, and the fuel never runs out before: it answers with the outcome and the
    -- status is terminal, or the body of its `try` threw `null` or `undefined` and the status is not.
    pub run-is_terminal :
        let s = run host c limit (start_session host options x) in
        ((run_answer host c limit (start_session host options x) ≡ fulfilled (outcome_of s))
          × (is_terminal s.session.status ≡ true))
        ⊎ (ThrowsNothing (tried c limit) × (is_terminal s.session.status ≡ false))
    unfolding run run_answer ◌>>=◌ start_session gets
    run-is_terminal =
        at
          (run_with host c (options.limits.max_iterations + 1) (or_else limit 5)
            (new_agent (start_session host options x)))
          run-Ended.conclusion
      where
        at :
            (out : Settled (Unit {0}) × AgentState X)
            → Conclusion at_start (tried c limit) out
            → (((proceed out.0 (λ _. gets outcome_of) out.1).0 ≡ fulfilled (outcome_of out.1))
                × (is_terminal out.1.session.status ≡ true))
              ⊎ (ThrowsNothing (tried c limit) × (is_terminal out.1.session.status ≡ false))
        at (fulfilled u, t) (concludes e over told) = inl (refl, over)
        at (rejected e, t) (concludes k over told) = cc
        at out (escapes nothing more silent) = inr (nothing, more)

    -- The events of a run announce exactly one end, and it is the end that the status tells; if the
    -- body of the `try` threw `null` or `undefined`, they may announce none.
    pub run-endings :
        let s = run host c limit (start_session host options x) in
        (endings s.session.emitted ≡ s.session.status ∷ [])
        ⊎ (ThrowsNothing (tried c limit) × (endings s.session.emitted ≡ []))
    unfolding run start_session announce on_shared emit mark_running endings ◌>>=◌ on_session
    run-endings = at _ run-Ended.conclusion
      where
        at :
            (out : Settled (Unit {0}) × AgentState X)
            → Conclusion at_start (tried c limit) out
            → (endings out.1.session.emitted ≡ out.1.session.status ∷ [])
              ⊎ (ThrowsNothing (tried c limit) × (endings out.1.session.emitted ≡ []))
        at out (concludes e over told) = inl told
        at out (escapes nothing more silent) = inr (nothing, silent)

    -- The events of a run are numbered 1, 2, 3 and so on, without a gap.
    pub run-IsNumbered : IsNumbered (run host c limit (start_session host options x)).session
    unfolding run start_session announce on_shared emit mark_running ◌>>=◌ on_session
    run-IsNumbered = run-Ended.numbered (record { counted = refl; sequenced = (refl, tt) })

    -- The counters of memory tell how many retrievals the run made and how many records it wrote.
    pub run-IsTallied : IsTallied (run host c limit (start_session host options x))
    unfolding run start_session announce on_shared emit mark_running ◌>>=◌ on_session
    run-IsTallied = run-Ended.tallied (record { reads = refl; writes = refl })

    -- A run makes at most as many iterations as its limits allow.
    pub run-iterations_le :
        (run host c limit (start_session host options x)).session.usage.iterations
        ≤ options.limits.max_iterations
    unfolding run start_session announce on_shared emit mark_running ◌>>=◌ on_session
    run-iterations_le = run-Ended.bounded

    -- A run that ends as completed has a plan, and none of the plan's tasks can be worked on.
    pub run-completed :
        let s = run host c limit (start_session host options x) in
        s.session.status ≡ RunStatus.completed → HasNoTask s
    unfolding run start_session
    run-completed h = run-Ended.complete h

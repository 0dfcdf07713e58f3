-- ===== src/Runtime/Ending/Run.antt =====
-- A round of the loop: what it makes of a run that goes on.
use autonomous_agent.Common.{
  ℕ, ◌+◌, ◌≤◌, ◌<◌, ◌≡◌, refl, true, Option, none, some, arith, ◌⊎◌, inl, inr,
}
use autonomous_agent.Async.{Settled, fulfilled, proceed, ◌>>=◌}
use autonomous_agent.Domain.Plan.{Plan, PlanTask}
use autonomous_agent.Session.Core.{
  Host, is_terminal, emit, on_working, finish, on_session, count_one, usage_breach,
}
use autonomous_agent.Session.Log.{IsNumbered}
use autonomous_agent.Session.Usage.{LimitBreach, increment}
use autonomous_agent.Session.Usage.Laws.{breach-none_iff}
use autonomous_agent.Agent.Contracts.{RuntimeComponents}
use autonomous_agent.Runtime.PlanTasks.{next_task}
use autonomous_agent.Runtime.State.{
  AgentState, on_shared, announce, complete_goal, count, require_plan, plan_or_error,
}
use autonomous_agent.Runtime.Loop.{
  work_on, take_task, advance, stop_or_advance, round, stop_at_limit,
}
use autonomous_agent.Runtime.Frame.Quiet.{IsTallied, IsQuiet}
use autonomous_agent.Runtime.Ending.Closing.{HasNoTask, Ending, Ending-from, open_still}
use autonomous_agent.Runtime.Ending.Rounds.{
  complete_goal-Closing, stop_at_limit-Closing, pick_up-Closing,
}

abbrev pub max_of : {X : Type 0} → AgentState X → ℕ
max_of s = s.session.limits.max_iterations

abbrev pub used_by : {X : Type 0} → AgentState X → ℕ
used_by s = s.session.usage.iterations

module _ {X : Type 0} where
  -- what a round makes of a state in which the run goes on
  pub record Rounded (s : AgentState X) (out : Settled (Unit {0}) × AgentState X) : Type 0 where
    pub limits : out.1.session.limits ≡ s.session.limits
    pub numbered : IsNumbered s.session → IsNumbered out.1.session
    pub tallied : IsTallied s → IsTallied out.1
    pub ending : Ending s out.1
    pub bounded : used_by s ≤ max_of s → used_by out.1 ≤ max_of s
    pub progress :
        out.0 ≡ fulfilled tt
        → (is_terminal out.1.session.status ≡ true) ⊎ (used_by out.1 ≡ used_by s + 1)

module _ {X : Type 0} (host : Host X) (c : RuntimeComponents X) (q : IsQuiet c) where
  work_on-Rounded :
      (plan : Plan) (task : PlanTask) (s : AgentState X)
      → used_by s < max_of s
      → Rounded s (work_on host c plan task s)
  unfolding work_on count count_one increment on_session on_shared ◌>>=◌
  work_on-Rounded plan task s room =
      let p = (pick_up-Closing host c q plan task).at _ in
      record {
        limits = p.limits;
        numbered = λ n. p.numbered (record { counted = n.counted; sequenced = n.sequenced });
        tallied = λ k. p.tallied (record { reads = k.reads; writes = k.writes });
        ending = Ending-from refl refl p.ending;
        bounded = λ h. omega (arith, p.iterations);
        progress = λ _. inr p.iterations;
      }

  take_task-Rounded :
      (plan : Plan) (next : Option PlanTask) (s : AgentState X)
      → next_task plan ≡ next
      → s.plan ≡ some plan
      → used_by s < max_of s
      → Rounded s (take_task host c plan next s)
  unfolding take_task
  take_task-Rounded plan (some task) s e current room = work_on-Rounded plan task s room
  take_task-Rounded plan none s e current room =
      let h : HasNoTask s = record { plan = plan; current = current; nothing = e } in
      let p = complete_goal-Closing host _ s h in
      record {
        limits = p.limits;
        numbered = p.numbered;
        tallied = p.tallied;
        ending = p.ending;
        bounded = λ h. omega (arith, p.iterations);
        progress = λ _. inl (
            unfold complete_goal ◌>>=◌ on_shared on_working on_session announce emit finish in
            refl);
      }

  advance-Rounded : (s : AgentState X) → used_by s < max_of s → Rounded s (advance host c s)
  unfolding advance require_plan ◌>>=◌
  advance-Rounded s room = at s.plan refl
    where
      at :
          (o : Option Plan)
          → s.plan ≡ o
          → Rounded s (proceed (plan_or_error o) (λ plan. take_task host c plan (next_task plan)) s)
      at none e = record {
        limits = refl;
        numbered = λ h. h;
        tallied = λ h. h;
        ending = open_still refl refl;
        bounded = λ h. h;
        progress = λ h. cc;
      }
      at (some plan) e = take_task-Rounded plan (next_task plan) s refl e room

  stop_or_advance-Rounded :
      (o : Option LimitBreach) (s : AgentState X)
      → (o ≡ none → used_by s < max_of s)
      → Rounded s (stop_or_advance host c o s)
  unfolding stop_or_advance
  stop_or_advance-Rounded none s room = advance-Rounded s (room refl)
  stop_or_advance-Rounded (some b) s room =
      let p = (stop_at_limit-Closing host c b).at s in
      record {
        limits = p.limits;
        numbered = p.numbered;
        tallied = p.tallied;
        ending = p.ending;
        bounded = λ h. omega (arith, p.iterations);
        progress = λ _. inl (unfold stop_at_limit ◌>>=◌ on_shared announce emit finish in refl);
      }

  pub round-Rounded : (s : AgentState X) → Rounded s (round host c s)
  unfolding round on_shared usage_breach ◌>>=◌
  round-Rounded s =
      let p =
        stop_or_advance-Rounded _ _
          (λ e. ((breach-none_iff s.session.limits s.session.usage _).0 e).iterations) in
      record {
        limits = p.limits;
        numbered = p.numbered;
        tallied = λ k. p.tallied (record { reads = k.reads; writes = k.writes });
        ending = Ending-from refl refl p.ending;
        bounded = p.bounded;
        progress = p.progress;
      }

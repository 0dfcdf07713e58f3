-- ===== src/Runtime/Ending/Rounds.antt =====
-- The parts of a round of the loop that may end the run.
use autonomous_agent.Common.{refl, String, List, arith, Bool-cases, inl, inr}
use autonomous_agent.Async.{◌>>=◌, ◌>>◌}
use autonomous_agent.Async.Moves.{Moves, Moves-gets, Moves-when_true}
use autonomous_agent.Domain.Outcome.{is_success}
use autonomous_agent.Domain.Plan.{Plan, PlanTask}
use autonomous_agent.Session.Core.{Host, emit, finish, on_working, on_session}
use autonomous_agent.Session.Log.{endings}
use autonomous_agent.Session.Usage.{LimitBreach}
use autonomous_agent.Agent.Contracts.{
  RuntimeComponents, TaskAttempt, ActionSelection, act, give_up, EvaluationResult,
}
use autonomous_agent.Runtime.PlanTasks.{with_remaining_tasks_skipped}
use autonomous_agent.Runtime.PlanTasks.Laws.{next_task-with_remaining_tasks_skipped}
use autonomous_agent.Runtime.State.{AgentState, on_shared, announce, complete_goal, put_plan}
use autonomous_agent.Runtime.Loop.{
  after_claim, verify_finish_claim, abandon, follow, iterate, stop_at_limit, pick_up,
}
use autonomous_agent.Runtime.Frame.Quiet.{Steady-order, IsQuiet}
use autonomous_agent.Runtime.Frame.Methods.{
  on_shared-Steady, on_working-Steady, put_plan-Steady, require_plan-Steady,
}
use autonomous_agent.Runtime.Frame.Steps.{
  emit_evaluation-Steady, handle_failure-Steady, attempt-Steady,
}
use autonomous_agent.Runtime.Ending.Closing.{
  HasNoTask, closed, Closing, Closing-after, Closing-bind, Closing-of_Moves,
}

module _ {X : Type 0} (host : Host X) where
  -- Completing the goal ends the run, provided that the plan has no task left to work on.
  pub complete_goal-Closing :
      (summary : String) (s : AgentState X)
      → HasNoTask s
      → Closing s (complete_goal host summary s).1
  unfolding complete_goal announce on_shared emit finish on_working on_session endings ◌>>=◌
  complete_goal-Closing summary s h = record {
    limits = refl;
    iterations = refl;
    numbered = λ n. record {
      counted = omega (arith, n.counted);
      sequenced = (omega (arith, n.counted), n.sequenced);
    };
    tallied = λ k. record { reads = k.reads; writes = k.writes };
    ending =
        closed refl refl (λ _. record { plan = h.plan; current = h.current; nothing = h.nothing });
  }

module _ {X : Type 0} (host : Host X) (c : RuntimeComponents X) where
  pub stop_at_limit-Closing : (b : LimitBreach) → Moves Closing (stop_at_limit host c b)
  unfolding stop_at_limit announce on_shared emit finish endings ◌>>=◌
  stop_at_limit-Closing b = record {
    at = λ s. record {
      limits = refl;
      iterations = refl;
      numbered = λ n. record {
        counted = omega (arith, n.counted);
        sequenced = (omega (arith, n.counted), n.sequenced);
      };
      tallied = λ k. record { reads = k.reads; writes = k.writes };
      ending = closed refl refl (λ e. cc);
    };
  }

  abandon-Closing : (reason : String) → Moves Closing (abandon host c reason)
  unfolding abandon announce on_shared emit finish endings ◌>>=◌
  abandon-Closing reason = record {
    at = λ s. record {
      limits = refl;
      iterations = refl;
      numbered = λ n. record {
        counted = omega (arith, n.counted);
        sequenced = (omega (arith, n.counted), n.sequenced);
      };
      tallied = λ k. record { reads = k.reads; writes = k.writes };
      ending = closed refl refl (λ e. cc);
    };
  }

module _ {X : Type 0} (host : Host X) (c : RuntimeComponents X) (q : IsQuiet c) where
  -- `put_plan` of the skipped plan, then `complete_goal`
  skip_and_complete-Closing :
      (plan : Plan) (summary : String)
      → Moves Closing (put_plan (with_remaining_tasks_skipped plan) >> complete_goal host summary)
  unfolding ◌>>=◌ put_plan on_shared on_working on_session
  skip_and_complete-Closing plan summary = record {
    at = λ s. Closing-after ((put_plan-Steady (with_remaining_tasks_skipped plan)).at s) (
        complete_goal-Closing host summary _ (record {
          plan = with_remaining_tasks_skipped plan;
          current = refl;
          nothing = next_task-with_remaining_tasks_skipped plan;
        }));
  }

  after_claim-Closing :
      (plan : Plan) (summary : String) (e : EvaluationResult)
      → Moves Closing (after_claim host c plan summary e)
  unfolding after_claim
  after_claim-Closing plan summary e = elim (Bool-cases (is_success e.verdict)) [
    | inl won ↦ rw won (skip_and_complete-Closing plan summary)
    | inr lost ↦ rw lost (Closing-of_Moves (handle_failure-Steady host c q e _))
  ]

  verify_finish_claim-Closing :
      (summary : String) → Moves Closing (verify_finish_claim host c summary)
  unfolding verify_finish_claim
  verify_finish_claim-Closing summary = Closing-bind _ _ require_plan-Steady λ plan.
      Closing-bind _ _ (Moves-gets Steady-order _) λ run.
        Closing-bind _ _ (on_shared-Steady _ (q.evaluate _ refl)) λ e.
          Closing-bind _ _ (emit_evaluation-Steady host c q e _)
            λ _. after_claim-Closing plan summary e

  follow-Closing :
      (task : PlanTask) (previous : List TaskAttempt) (choice : ActionSelection)
      → Moves Closing (follow host c task previous choice)
  unfolding follow
  follow-Closing task previous (give_up reason) = abandon-Closing host c reason
  follow-Closing task previous (ActionSelection.finish summary) =
      verify_finish_claim-Closing summary
  follow-Closing task previous (act action decision) =
      Closing-of_Moves (attempt-Steady host c q task previous action decision)

  iterate-Closing : (task : PlanTask) → Moves Closing (iterate host c task)
  unfolding iterate
  iterate-Closing task = Closing-bind _ _ (Moves-gets Steady-order _) λ previous.
      Closing-bind _ _ require_plan-Steady λ plan. Closing-bind _ _ (Moves-gets Steady-order _) λ s.
        Closing-bind _ _ (on_shared-Steady _ (q.select_next _))
          λ choice. follow-Closing task previous choice

  pub pick_up-Closing : (plan : Plan) (task : PlanTask) → Moves Closing (pick_up host c plan task)
  unfolding pick_up
  pick_up-Closing plan task = Closing-bind _ _ (on_working-Steady _) λ _.
      Closing-bind _ _ (Moves-when_true Steady-order _ _ (put_plan-Steady _)) λ _. iterate-Closing _

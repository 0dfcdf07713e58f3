-- ===== src/Tests/Runs.antt =====
-- A run of the small agent, and the theorems on `run` applied to it.
use autonomous_agent.Common.{◌⊎◌, false, ℕ, ◌≤◌, ◌≡◌, refl, true, none, [], ◌∷◌}
use autonomous_agent.Domain.Run.{RunStatus}
use autonomous_agent.Session.Log.{IsNumbered, endings}
use autonomous_agent.Session.Core.{
  is_terminal, start_session, next_id, clock_now, clock_ms, emit, usage_breach, finish, on_session,
  count_one, on_working, mark_running, correlation, run_state, record_model_call_started,
  record_model_call, record_model_call_failed,
}
use autonomous_agent.Runtime.State.{
  AgentState, attempts_of, set_attempts, changed_approach, summarize_input, all_texts,
  describe_unrecoverable, describe_details, on_shared, count, put_plan, require_plan, push_lesson,
  push_written, push_retrieval, store_attempts, announce, emit_evaluation, complete_goal,
  write_record,
}
use autonomous_agent.Runtime.Retrieve.{
  distinct_kinds, hit_telemetry, annotate_with, annotate_hit, annotate_hits, annotate_applicability,
  report_retrieval, retrieve_memory,
}
use autonomous_agent.Runtime.Planning.{create_initial_plan, change_strategy, handle_failure}
use autonomous_agent.Runtime.Loop.{
  run_answer, outcome_of, after_claim, verify_finish_claim, abandon, follow, iterate, stop_at_limit,
  pick_up, work_on, take_task, advance, stop_or_advance, round, loop, fail_run, pursue, run_with,
  run,
}
use autonomous_agent.Async.{
  fulfilled, pure, throw, settle, gets, modify, ◌>>=◌, catch, for_each, when_some, when_true,
}
use autonomous_agent.Runtime.PlanTasks.{
  completed_ids, next_task, all_tasks_done, with_task_status, with_remaining_tasks_skipped,
}
use autonomous_agent.Session.Working.{
  new_working, set_plan, set_current_task_id, add_observation, add_retrieval, add_note, snapshot,
}
use autonomous_agent.Session.Usage.{increment, add_tokens, breach}
use autonomous_agent.Runtime.Frame.Quiet.{IsTallied}
use autonomous_agent.Runtime.Ending.Closing.{HasNoTask}
use autonomous_agent.Runtime.Ending.Whole.{ThrowsNothing}
use autonomous_agent.Runtime.Ending.Outcome.{
  tried, run-is_terminal, run-endings, run-IsNumbered, run-IsTallied, run-iterations_le,
  run-completed,
}
use autonomous_agent.Tests.Sample.{host, options, components, components-IsQuiet}

abbrev finished_run : AgentState ℕ
finished_run = run host components none (start_session host options 0)

run-is_terminal_example :
    ((run_answer host components none (start_session host options 0)
        ≡ fulfilled (outcome_of finished_run))
      × (is_terminal finished_run.session.status ≡ true))
    ⊎ (ThrowsNothing (tried host options 0 components none)
        × (is_terminal finished_run.session.status ≡ false))
run-is_terminal_example = run-is_terminal host options 0 components components-IsQuiet none

run-endings_example :
    (endings finished_run.session.emitted ≡ finished_run.session.status ∷ [])
    ⊎ (ThrowsNothing (tried host options 0 components none)
        × (endings finished_run.session.emitted ≡ []))
run-endings_example = run-endings host options 0 components components-IsQuiet none

run-IsNumbered_example : IsNumbered finished_run.session
run-IsNumbered_example = run-IsNumbered host options 0 components components-IsQuiet none

run-IsTallied_example : IsTallied finished_run
run-IsTallied_example = run-IsTallied host options 0 components components-IsQuiet none

run-iterations_le_example : finished_run.session.usage.iterations ≤ 2
run-iterations_le_example = run-iterations_le host options 0 components components-IsQuiet none

finished_run_test : finished_run.session.status ≡ RunStatus.completed
unfolding start_session next_id clock_now clock_ms emit usage_breach finish on_session count_one
    on_working mark_running correlation run_state record_model_call_started record_model_call
    record_model_call_failed attempts_of set_attempts changed_approach summarize_input all_texts
    describe_unrecoverable describe_details on_shared count put_plan require_plan push_lesson
    push_written push_retrieval store_attempts announce emit_evaluation complete_goal write_record
    distinct_kinds hit_telemetry annotate_with annotate_hit annotate_hits annotate_applicability
    report_retrieval retrieve_memory create_initial_plan change_strategy handle_failure after_claim
    verify_finish_claim abandon follow iterate stop_at_limit pick_up work_on take_task advance
    stop_or_advance round loop fail_run pursue run_with run pure throw settle gets modify ◌>>=◌
    catch for_each when_some when_true completed_ids next_task all_tasks_done with_task_status
    with_remaining_tasks_skipped new_working set_plan set_current_task_id add_observation
    add_retrieval add_note snapshot increment add_tokens breach
finished_run_test = refl

run-completed_example : HasNoTask finished_run
run-completed_example =
    run-completed host options 0 components components-IsQuiet none finished_run_test

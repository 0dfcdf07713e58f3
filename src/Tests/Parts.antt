-- ===== src/Tests/Parts.antt =====
-- The theorems on the parts of the agent, applied to concrete values.
use autonomous_agent.Common.{
  ℕ, ◌<◌, ◌≡◌, ◌↔◌, refl, String, true, false, none, some, List, [], ◌∷◌, Found, includes, any,
  or_else,
}
use autonomous_agent.Async.{pure}
use autonomous_agent.Async.Returns.{Returns}
use autonomous_agent.Domain.Provenance.{Provenance, empty_provenance, merge_key}
use autonomous_agent.Domain.Provenance.Merge.{includes-merge_key}
use autonomous_agent.Domain.Plan.{Plan, PlanTaskStatus, pending, completed}
use autonomous_agent.Domain.Run.{zero_usage}
use autonomous_agent.Session.Usage.{breach}
use autonomous_agent.Session.Usage.Laws.{IsWithin, breach-none_iff}
use autonomous_agent.Memory.Records.{Precondition}
use autonomous_agent.Memory.Applicability.{ApplicabilityProbe, assess_preconditions}
use autonomous_agent.Memory.Applicability.Laws.{Assessed, assess_preconditions-Assessed}
use autonomous_agent.Runtime.PlanTasks.{next_task, completed_ids, with_task_status, all_tasks_done}
use autonomous_agent.Runtime.PlanTasks.Laws.{next_task-none_iff}
use autonomous_agent.Runtime.PlanTasks.Progress.{
  next_task-Found, next_task-progress, remaining, is_ready,
}
use autonomous_agent.Tests.Sample.{limits, task_named, plan_of, plan}

-- a plan whose second task depends on the first
abbrev two_tasks : Plan
two_tasks = plan_of (task_named "a" completed [] ∷ task_named "b" pending ("a" ∷ []) ∷ [])

two_tasks_test : next_task two_tasks ≡ some (task_named "b" pending ("a" ∷ []))
unfolding next_task completed_ids
two_tasks_test = refl

next_task-Found_example :
    Found (is_ready two_tasks.tasks) two_tasks.tasks (task_named "b" pending ("a" ∷ []))
next_task-Found_example = next_task-Found two_tasks _ two_tasks_test

next_task-progress_example :
    remaining (with_task_status two_tasks "b" completed).tasks < remaining two_tasks.tasks
next_task-progress_example =
    next_task-progress two_tasks (task_named "b" pending ("a" ∷ [])) completed two_tasks_test refl

next_task-none_iff_example : (next_task plan ≡ none) ↔ (all_tasks_done plan ≡ true)
next_task-none_iff_example = next_task-none_iff plan (refl, tt)

-- A plan whose open task depends on a failed one has no next task, though not all is done.
blocked_test :
    let blocked =
      plan_of (
        task_named "a" PlanTaskStatus.failed ("b" ∷ []) ∷ task_named "b" pending ("a" ∷ []) ∷ []) in
    (next_task blocked ≡ none) × (all_tasks_done blocked ≡ false)
unfolding next_task completed_ids all_tasks_done
blocked_test = (refl, refl)

breach-none_iff_example : (breach limits zero_usage 5 ≡ none) ↔ IsWithin limits zero_usage 5
breach-none_iff_example = breach-none_iff limits zero_usage 5

abbrev seen : List String → Provenance
seen ids = record empty_provenance { observation_ids = some ids }

abbrev two_parts : List Provenance
two_parts = seen ("o1" ∷ "o2" ∷ []) ∷ seen ("o2" ∷ "o3" ∷ []) ∷ []

includes-merge_key_example :
    includes (or_else (merge_key (λ p. p.observation_ids) two_parts) []) "o3"
    ≡ any (λ p. includes (or_else p.observation_ids []) "o3") two_parts
includes-merge_key_example = includes-merge_key (λ p. p.observation_ids) two_parts "o3"

abbrev probe : ApplicabilityProbe ℕ
probe = record {
  file_exists = λ path. pure true;
  tool_names = some ("fs.read" ∷ []);
  environment_provider = none;
}

abbrev needs_tool : Precondition
needs_tool = Precondition.tool_available "fs.write"

assess_preconditions-Assessed_example :
    Returns (Assessed (needs_tool ∷ [])) (assess_preconditions probe (some (needs_tool ∷ [])))
assess_preconditions-Assessed_example = assess_preconditions-Assessed probe (some (needs_tool ∷ []))

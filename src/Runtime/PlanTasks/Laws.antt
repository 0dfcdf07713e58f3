-- ===== src/Runtime/PlanTasks/Laws.antt =====
-- Which task comes next, and when none does.
use autonomous_agent.Common.{
  ◌≡◌, ◌↔◌, refl, String, true, none, List, [], ◌∷◌, map, find, all, All, arith, Bool-cases, inl,
  inr,
}
use autonomous_agent.Domain.Plan.{Plan, PlanTask}
use autonomous_agent.Runtime.PlanTasks.{
  is_done, is_eligible, next_task, all_tasks_done, skip_unless_done, with_remaining_tasks_skipped,
}

find-eligible_skipped :
    (ids : List String) (tasks : List PlanTask)
    → find (is_eligible ids) (map skip_unless_done tasks) ≡ none
find-eligible_skipped ids [] = refl
find-eligible_skipped ids (t ∷ ts) = elim (Bool-cases (is_done t.status)) [
  | inl d ↦ ground (arith, find-eligible_skipped ids ts)
  | inr d ↦ ground (arith, find-eligible_skipped ids ts)
]

-- Once the remaining tasks are skipped, no task is next.
pub next_task-with_remaining_tasks_skipped :
    (plan : Plan) → next_task (with_remaining_tasks_skipped plan) ≡ none
unfolding next_task with_remaining_tasks_skipped
next_task-with_remaining_tasks_skipped plan = find-eligible_skipped _ plan.tasks

abbrev pub HasNoDependency : PlanTask → Type 0
HasNoDependency t = t.depends_on ≡ []

find-none_iff :
    (ids : List String) (tasks : List PlanTask)
    → All HasNoDependency tasks
    → (find (is_eligible ids) tasks ≡ none) ↔ (all (λ t. is_done t.status) tasks ≡ true)
find-none_iff ids [] h = (λ _. refl, λ _. refl)
find-none_iff ids (t ∷ ts) (e, h) = ground (arith, e, find-none_iff ids ts h)

-- In a plan without dependencies, no task is next exactly when every task is completed or skipped.
pub next_task-none_iff :
    (plan : Plan)
    → All HasNoDependency plan.tasks
    → (next_task plan ≡ none) ↔ (all_tasks_done plan ≡ true)
unfolding next_task all_tasks_done
next_task-none_iff plan h = find-none_iff _ plan.tasks h

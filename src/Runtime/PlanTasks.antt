-- ===== src/Runtime/PlanTasks.antt =====
-- src/agent/runtime/plan-tasks.ts
pub mod Laws
pub mod Progress
use autonomous_agent.Common.{
  String, Bool, true, false, not, Option, List, map, find, all, keep, includes, ◌&&◌, ◌===◌,
  if◌then◌else◌,
}
use autonomous_agent.Domain.Plan.{
  Plan, PlanTask, PlanTaskStatus, pending, in_progress, completed, failed, skipped,
}

abbrev pub is_completed : PlanTaskStatus → Bool
is_completed completed = true
is_completed _ = false

-- `DONE.includes(status)`
abbrev pub is_done : PlanTaskStatus → Bool
is_done completed = true
is_done skipped = true
is_done _ = false

abbrev pub is_pending : PlanTaskStatus → Bool
is_pending pending = true
is_pending _ = false

-- the set `completed` of `nextTask`
unfoldable pub completed_ids : List PlanTask → List String
completed_ids tasks = map (λ t. t.task_id) (keep (λ t. is_completed t.status) tasks)

abbrev pub is_eligible : List String → PlanTask → Bool
is_eligible done task = not (is_done task.status) && all (includes done) task.depends_on

unfoldable pub next_task : Plan → Option PlanTask
unfolding completed_ids
next_task plan = find (is_eligible (completed_ids plan.tasks)) plan.tasks

unfoldable pub all_tasks_done : Plan → Bool
all_tasks_done plan = all (λ t. is_done t.status) plan.tasks

abbrev pub set_status_of : String → PlanTaskStatus → PlanTask → PlanTask
set_status_of id status task = if task.task_id === id then record task { status = status } else task

unfoldable pub with_task_status : Plan → String → PlanTaskStatus → Plan
with_task_status plan id status = record plan { tasks = map (set_status_of id status) plan.tasks }

abbrev pub skip_unless_done : PlanTask → PlanTask
skip_unless_done task = if is_done task.status then task else record task { status = skipped }

unfoldable pub with_remaining_tasks_skipped : Plan → Plan
with_remaining_tasks_skipped plan = record plan { tasks = map skip_unless_done plan.tasks }

-- ===== src/Runtime/PlanTasks/Progress.antt =====
-- The task that comes next, and how many tasks are left once it is done.
use autonomous_agent.Common.{
  ap, ◌∙◌, not, ◌&&◌, any, all, includes, Found-same, ℕ, ◌+◌, ◌≤◌, ◌<◌, ◌≡◌, refl, sym, subst,
  String, Bool, true, false, some, List, [], ◌∷◌, ◌++◌, map, arith, ◌===◌, Bool-cases, inl, inr,
  Found, find-Found, eq_iff,
}
use autonomous_agent.Domain.Plan.{
  Plan, PlanTask, PlanTaskStatus, pending, in_progress, completed, failed, skipped,
}
use autonomous_agent.Runtime.PlanTasks.{
  is_completed, is_done, completed_ids, is_eligible, next_task, set_status_of, with_task_status,
}

abbrev pub is_skipped : PlanTaskStatus → Bool
is_skipped skipped = true
is_skipped _ = false

abbrev open_weight : Bool → ℕ
open_weight true = 0
open_weight false = 1

-- how many tasks are neither completed nor skipped
unfoldable pub remaining : List PlanTask → ℕ
remaining [] = 0
remaining (t ∷ ts) = open_weight (is_done t.status) + remaining ts

-- the task of that identifier is completed
abbrev pub is_completed_in : List PlanTask → String → Bool
is_completed_in tasks id = any (λ t. t.task_id === id && is_completed t.status) tasks

-- neither completed nor skipped, with every dependency completed
abbrev pub is_ready : List PlanTask → PlanTask → Bool
is_ready tasks task =
    (not (is_completed task.status) && not (is_skipped task.status))
    && all (is_completed_in tasks) task.depends_on

includes-completed_ids :
    (tasks : List PlanTask) (id : String)
    → includes (completed_ids tasks) id ≡ is_completed_in tasks id
unfolding completed_ids
includes-completed_ids [] id = refl
includes-completed_ids (t ∷ ts) id = ground (arith, includes-completed_ids ts id)

all_same :
    (p q : String → Bool) (xs : List String) → ((x : String) → p x ≡ q x) → all p xs ≡ all q xs
all_same p q [] h = refl
all_same p q (x ∷ xs) h = ground (arith, h x, all_same p q xs h)

not_done : (s : PlanTaskStatus) → not (is_done s) ≡ not (is_completed s) && not (is_skipped s)
not_done pending = refl
not_done in_progress = refl
not_done completed = refl
not_done failed = refl
not_done skipped = refl

eligible_is_ready :
    (tasks : List PlanTask) (t : PlanTask) → is_eligible (completed_ids tasks) t ≡ is_ready tasks t
eligible_is_ready tasks t =
    ap (λ b. b && all (includes (completed_ids tasks)) t.depends_on) (not_done t.status)
    ∙ ap (λ b. (not (is_completed t.status) && not (is_skipped t.status)) && b)
        (all_same _ _ t.depends_on (includes-completed_ids tasks))

next_task-eligible :
    (plan : Plan) (t : PlanTask)
    → next_task plan ≡ some t
    → Found (is_eligible (completed_ids plan.tasks)) plan.tasks t
unfolding next_task
next_task-eligible plan t h = find-Found _ plan.tasks t h

-- The next task is the first of the plan that is neither completed nor skipped and that depends only on
-- tasks of which a completed one is in the plan.
pub next_task-Found :
    (plan : Plan) (t : PlanTask)
    → next_task plan ≡ some t
    → Found (is_ready plan.tasks) plan.tasks t
next_task-Found plan t h =
    Found-same _ _ plan.tasks t (eligible_is_ready plan.tasks) (next_task-eligible plan t h)

eligible_is_open :
    (ids : List String) (t : PlanTask) → is_eligible ids t ≡ true → is_done t.status ≡ false
eligible_is_open ids t h = ground (arith, h)

set_le :
    (id : String) (status : PlanTaskStatus) (t : PlanTask)
    → is_done status ≡ true
    → open_weight (is_done (set_status_of id status t).status) ≤ open_weight (is_done t.status)
set_le id status t d = elim (Bool-cases (t.task_id === id)) [
  | inl e ↦ rw (set_status_of, e, d) (omega arith)
  | inr e ↦ rw (set_status_of, e) (omega arith)
]

set_self :
    (status : PlanTaskStatus) (t : PlanTask)
    → is_done status ≡ true
    → open_weight (is_done (set_status_of t.task_id status t).status) ≡ 0
set_self status t d = rw (set_status_of, (eq_iff t.task_id t.task_id).1 refl, d) refl

remaining-set_le :
    (id : String) (status : PlanTaskStatus) (ts : List PlanTask)
    → is_done status ≡ true
    → remaining (map (set_status_of id status) ts) ≤ remaining ts
unfolding remaining
remaining-set_le id status [] d = omega arith
remaining-set_le id status (t ∷ ts) d =
    omega (arith, set_le id status t d, remaining-set_le id status ts d)

remaining-set_lt :
    (status : PlanTaskStatus) (t : PlanTask) (before rest : List PlanTask)
    → is_done status ≡ true
    → is_done t.status ≡ false
    → remaining (map (set_status_of t.task_id status) (before ++ t ∷ rest))
      < remaining (before ++ t ∷ rest)
unfolding remaining
remaining-set_lt status t [] rest d o =
    rw o (omega (arith, set_self status t d, remaining-set_le t.task_id status rest d))
remaining-set_lt status t (b ∷ before) rest d o =
    omega (arith, set_le t.task_id status b d, remaining-set_lt status t before rest d o)

-- Completing or skipping the next task leaves fewer tasks, so that a plan is worked off.
pub next_task-progress :
    (plan : Plan) (t : PlanTask) (status : PlanTaskStatus)
    → next_task plan ≡ some t
    → is_done status ≡ true
    → remaining (with_task_status plan t.task_id status).tasks < remaining plan.tasks
unfolding with_task_status
next_task-progress plan t status h d =
    let f = next_task-eligible plan t h in
    subst (λ l. remaining (map (set_status_of t.task_id status) l) < remaining l) (sym f.splits)
      (remaining-set_lt status t f.before f.rest d (eligible_is_open _ t f.passes))

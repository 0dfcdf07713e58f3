-- ===== src/Agent/Planner/Laws.antt =====
-- What the planner makes of a proposal.
use autonomous_agent.Common.{
  ◌≡◌, refl, ap, subst, String, Bool, true, not, Option, none, some, List, [], ◌∷◌, keep, All,
  arith, Option-cases, Bool-cases, inl, inr, truthy,
}
use autonomous_agent.Async.Always.{Always, Always-pure, Always-bind}
use autonomous_agent.Session.Answers.{next_id-Always}
use autonomous_agent.Domain.Plan.{PlanTask}
use autonomous_agent.Session.Core.{Host}
use autonomous_agent.Agent.Proposal.{TaskProposal}
use autonomous_agent.Agent.Planner.{
  task_with_id, open_one, kept_task, looked_up, materialise_task, materialise_tasks,
}
use autonomous_agent.Runtime.PlanTasks.{is_completed}
use autonomous_agent.Runtime.PlanTasks.Laws.{HasNoDependency}

abbrev pub is_open : PlanTask → Bool
is_open t = not (is_completed t.status)

-- what is made of one proposal, beside the tasks that there are
pub record Made (existing : List PlanTask) (p : TaskProposal) (t : PlanTask) : Type 0 where
  pub open_task : is_open t ≡ true
  pub described : t.description ≡ p.description
  pub evidence : t.expected_evidence ≡ p.expected_evidence
  pub free : All HasNoDependency existing → HasNoDependency t

free_with_id :
    (ts : List PlanTask) (id : String) (t : PlanTask)
    → task_with_id ts id ≡ some t
    → All HasNoDependency ts
    → HasNoDependency t
unfolding task_with_id
free_with_id [] id t h f = cc
free_with_id (x ∷ xs) id t h (fx, f) = elim (Option-cases (task_with_id xs id)) [
  | inl e ↦ ground (arith, e, h, fx)
  | inr (later, e) ↦ free_with_id xs id t (ground (arith, e, h)) f
]

kept_open :
    (existing : List PlanTask) (o : Option String) (t : PlanTask)
    → open_one (looked_up existing o) ≡ some t
    → (is_open t ≡ true) × (All HasNoDependency existing → HasNoDependency t)
kept_open existing none t h = cc
kept_open existing (some id) t h = at (task_with_id existing id) refl h
  where
    at :
        (o : Option PlanTask)
        → task_with_id existing id ≡ o
        → open_one o ≡ some t
        → (is_open t ≡ true) × (All HasNoDependency existing → HasNoDependency t)
    at none e k = cc
    at (some x) e k = elim (Bool-cases (is_open x)) [
      | inl b ↦
          let same : x ≡ t = ground (arith, b, k) in
          (
            subst (λ z. is_open z ≡ true) same b,
            λ f. subst HasNoDependency same (free_with_id existing id x e f),
          )
      | inr b ↦ ground (arith, b, k)
    ]

module _ (existing : List PlanTask) where
  -- the tasks made of the proposals, one by one
  abbrev pub MadeAll : List TaskProposal → List PlanTask → Type 0
  MadeAll [] [] = Unit
  MadeAll (p ∷ ps) (t ∷ ts) = Made existing p t × MadeAll ps ts
  MadeAll _ _ = ⊥

  pub made_open :
      (ps : List TaskProposal) (ts : List PlanTask) → MadeAll ps ts → keep is_open ts ≡ ts
  made_open [] [] h = refl
  made_open (p ∷ ps) (t ∷ ts) (m, h) = rw (keep, m.open_task) (ap (λ l. t ∷ l) (made_open ps ts h))
  made_open [] (t ∷ ts) h = absurd h
  made_open (p ∷ ps) [] h = absurd h

  pub made_uncompleted :
      (ps : List TaskProposal) (ts : List PlanTask)
      → MadeAll ps ts
      → keep (λ t. is_completed t.status) ts ≡ []
  made_uncompleted [] [] h = refl
  made_uncompleted (p ∷ ps) (t ∷ ts) (m, h) = ground (arith, m.open_task, made_uncompleted ps ts h)
  made_uncompleted [] (t ∷ ts) h = absurd h
  made_uncompleted (p ∷ ps) [] h = absurd h

  pub made_free :
      (ps : List TaskProposal) (ts : List PlanTask)
      → MadeAll ps ts
      → All HasNoDependency existing
      → All HasNoDependency ts
  made_free [] [] h f = tt
  made_free (p ∷ ps) (t ∷ ts) (m, h) f = (m.free f, made_free ps ts h f)
  made_free [] (t ∷ ts) h f = absurd h
  made_free (p ∷ ps) [] h f = absurd h

module _ {X : Type 0} (host : Host X) (existing : List PlanTask) where
  materialise_task-Made :
      (p : TaskProposal) → Always (Made existing p) (materialise_task host existing p)
  unfolding materialise_task kept_task
  materialise_task-Made p = elim (Option-cases (kept_task existing p)) [
    | inl e ↦
        rw (materialise_task, e)
          (Always-bind (λ _. Unit) _ _ _ (next_id-Always host _)
            (λ id _.
              Always-pure _ _
                (record { open_task = refl; described = refl; evidence = refl; free = λ _. refl })))
    | inr (kept, e) ↦
        let (o, f) = kept_open existing (truthy p.task_id) kept e in
        rw (materialise_task, e)
          (Always-pure _ _ (record { open_task = o; described = refl; evidence = refl; free = f }))
  ]

  pub materialise_tasks-MadeAll :
      (ps : List TaskProposal) → Always (MadeAll existing ps) (materialise_tasks host existing ps)
  unfolding materialise_tasks
  materialise_tasks-MadeAll [] = Always-pure _ _ tt
  materialise_tasks-MadeAll (p ∷ ps) =
      Always-bind (Made existing p) _ _ _ (materialise_task-Made p) λ t made.
        Always-bind (MadeAll existing ps) _ _ _ (materialise_tasks-MadeAll ps)
          λ ts rest. Always-pure _ _ (made, rest)

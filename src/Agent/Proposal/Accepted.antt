-- ===== src/Agent/Proposal/Accepted.antt =====
-- What an accepted proposal is like, whatever the model wrote.
use autonomous_agent.Common.{
  ℕ, ◌+◌, ◌≡◌, ◌≢◌, refl, String, Bool, true, false, Option, none, some, List, [], ◌∷◌, ◌++◌, All,
  ◌<>◌, map, truthy, if◌then◌else◌, ◌===◌, Bool-cases, inl, inr, subst, sym, ap, ◌∙◌,
}
use autonomous_agent.Domain.Value.{
  Value, num, str, bool, undefined, null, unserializable, obj, arr, Members, Elements, no_elements,
  element,
}
use autonomous_agent.Domain.Parse.{
  as_record, field, text_or_error, text_array, texts_or_error, optional_text, text_elements,
  read_string, read_string_array, read_optional_string,
}
use autonomous_agent.Domain.Parse.Laws.{append-ne-nil, text_or_error-nonempty}
use autonomous_agent.Models.Contracts.{ParseResult, parse_ok, parse_fail}
use autonomous_agent.Agent.Proposal.{
  TaskProposal, PlanProposal, parse_task, parse_items, task_before, parse_task_proposals,
  RevisionProposal, parse_revision_members, parse_revision_proposal, revision_of, item_or_error,
  parse_plan_members, parse_plan_proposal, parsed_unless,
}
use autonomous_agent.Agent.Proposal.Laws.{IsWritable, IsPlan}

module _ {ℓ} {A : Type ℓ} where
  append-nil_left : (xs ys : List A) → xs ++ ys ≡ [] → xs ≡ []
  append-nil_left [] ys h = refl
  append-nil_left (x ∷ xs) ys h = cc

  append-nil_right : (xs ys : List A) → xs ++ ys ≡ [] → ys ≡ []
  append-nil_right [] ys h = h
  append-nil_right (x ∷ xs) ys h = cc

map-nil : (f : String → String) (xs : List String) → map f xs ≡ [] → xs ≡ []
map-nil f [] h = refl
map-nil f (x ∷ xs) h = cc

truthy_again : (o : Option String) → truthy (truthy o) ≡ truthy o
truthy_again none = refl
truthy_again (some s) = elim (Bool-cases (s === "")) [
  | inl e ↦ rw (truthy, e) refl
  | inr e ↦ rw (truthy, e) (rw (truthy, e) refl)
]

module _ (key : String) (errors : List String) where
  text_or_error_before : (v : Value) → (text_or_error v key errors).1 ≡ [] → errors ≡ []
  text_or_error_before (str s) h = by_test (s === "") h
    where
      by_test :
          (b : Bool)
          → let r : String × List String =
              if b
              then ("", errors ++ (key <> " must be a non-empty string") ∷ [])
              else (s, errors) in
            r.1 ≡ [] → errors ≡ []
      by_test true h = append-nil_left errors _ h
      by_test false h = h
  text_or_error_before _ h = append-nil_left errors _ h

  optional_text_before : (v : Value) → (optional_text v key errors).1 ≡ [] → errors ≡ []
  optional_text_before undefined h = h
  optional_text_before (str s) h = h
  optional_text_before _ h = append-nil_left errors _ h

  texts_or_error_before :
      (o : Option (List String)) → (texts_or_error o key errors).1 ≡ [] → errors ≡ []
  texts_or_error_before none h = append-nil_left errors _ h
  texts_or_error_before (some ts) h = h

  text_array_before :
      (v : Value) (optional : Bool) → (text_array v optional key errors).1 ≡ [] → errors ≡ []
  text_array_before undefined true h = h
  text_array_before undefined false h = texts_or_error_before none h
  text_array_before (arr xs) optional h = texts_or_error_before (text_elements xs) h
  text_array_before _ optional h = texts_or_error_before none h

-- the task that is read off an object, when neither the object nor what stood before it has a problem
module _ (index : ℕ) (item : Members) (errors : List String) where
  parse_task_accepted :
      (parse_task index item errors).1 ≡ []
      → (errors ≡ []) × IsWritable (parse_task index item errors).0
  unfolding parse_task read_string read_string_array read_optional_string
  parse_task_accepted h = (
    append-nil_left errors _ h,
    (
      text_or_error-nonempty (field item "description") "description" no_problem,
      truthy_again (
          (read_optional_string item "taskId"
            (read_string_array item "expectedEvidence" false
              (read_string item "description" []).1).1).0),
    ),
  )
    where
      no_problem : (text_or_error (field item "description") "description" []).1 ≡ []
      no_problem = text_array_before "expectedEvidence" _ (field item "expectedEvidence") false (
          optional_text_before "taskId" _ (field item "taskId")
            (map-nil _ _ (append-nil_right errors _ h)))

abbrev Writable? : Option TaskProposal → Type 0
Writable? none = ⊥
Writable? (some t) = IsWritable t

item_or_error_accepted :
    (index : ℕ) (o : Option Members) (errors : List String)
    → (item_or_error index o errors).1 ≡ []
    → (errors ≡ []) × Writable? (item_or_error index o errors).0
item_or_error_accepted index none errors h = absurd (append-ne-nil errors _ h)
item_or_error_accepted index (some item) errors h = parse_task_accepted index item errors h

task_before_accepted :
    (o : Option TaskProposal) (r : List TaskProposal × List String)
    → Writable? o
    → All IsWritable r.0
    → All IsWritable (task_before o r).0
task_before_accepted none r w h = absurd w
task_before_accepted (some t) r w h = (w, h)

task_before_nonempty :
    (o : Option TaskProposal) (r : List TaskProposal × List String)
    → Writable? o
    → (task_before o r).0 ≢ []
task_before_nonempty none r w = absurd w
task_before_nonempty (some t) r w = λ h. cc

task_before_errors :
    (o : Option TaskProposal) (r : List TaskProposal × List String) → (task_before o r).1 ≡ r.1
task_before_errors none r = refl
task_before_errors (some t) r = refl

parse_items_accepted :
    (xs : Elements) (index : ℕ) (errors : List String)
    → (parse_items xs index errors).1 ≡ []
    → (errors ≡ []) × All IsWritable (parse_items xs index errors).0
unfolding parse_items
parse_items_accepted no_elements index errors h = (h, tt)
parse_items_accepted (element v xs) index errors h =
    let item : Option TaskProposal × List String = item_or_error index (as_record v) errors in
    let rest : List TaskProposal × List String = parse_items xs (index + 1) item.1 in
    let (quiet, tasks) =
      parse_items_accepted xs (index + 1) item.1 (sym (task_before_errors item.0 rest) ∙ h) in
    let (before, task) = item_or_error_accepted index (as_record v) errors quiet in
    (before, task_before_accepted item.0 rest task tasks)

-- an array that is accepted is not empty, and neither are the tasks
parse_items_nonempty :
    (v : Value) (xs : Elements) (index : ℕ) (errors : List String)
    → (parse_items (element v xs) index errors).1 ≡ []
    → (parse_items (element v xs) index errors).0 ≢ []
unfolding parse_items
parse_items_nonempty v xs index errors h =
    let item : Option TaskProposal × List String = item_or_error index (as_record v) errors in
    let rest : List TaskProposal × List String = parse_items xs (index + 1) item.1 in
    let (quiet, tasks) =
      parse_items_accepted xs (index + 1) item.1 (sym (task_before_errors item.0 rest) ∙ h) in
    task_before_nonempty item.0 rest (item_or_error_accepted index (as_record v) errors quiet).1

parse_task_proposals_accepted :
    (raw : Value) (errors : List String)
    → (parse_task_proposals raw errors).1 ≡ []
    → (errors ≡ [])
      × ((parse_task_proposals raw errors).0 ≢ [])
      × All IsWritable (parse_task_proposals raw errors).0
unfolding parse_task_proposals
parse_task_proposals_accepted (arr (element v xs)) errors h =
    let (e, w) = parse_items_accepted (element v xs) 0 errors h in
    (e, parse_items_nonempty v xs 0 errors h, w)
parse_task_proposals_accepted _ errors h = absurd (append-ne-nil errors _ h)

parsed_unless-ok :
    {T : Type 0} (errors : List String) (v w : T)
    → parsed_unless errors v ≡ parse_ok w
    → (errors ≡ []) × (v ≡ w)
parsed_unless-ok [] v w h = (refl, cc)
parsed_unless-ok (e ∷ es) v w h = cc

parse_plan_members_accepted :
    (fs : Members) (p : PlanProposal) → parse_plan_members fs ≡ parse_ok p → IsPlan p
unfolding parse_plan_members read_string read_string_array
parse_plan_members_accepted fs p h =
    let (quiet, same) = parsed_unless-ok _ _ p h in
    let before =
      text_array_before "citedMemoryRecordIds" _ (field fs "citedMemoryRecordIds") true quiet in
    let (start, nonempty, writable) = parse_task_proposals_accepted (field fs "tasks") _ before in
    subst IsPlan same (record {
      summarised = text_or_error-nonempty (field fs "strategySummary") "strategySummary" start;
      nonempty = nonempty;
      writable = writable;
    })

-- Whatever value the model answers with, a plan that the parser accepts has a strategy in words and at
-- least one task, and each task has a description and no empty identifier.
pub parse_plan_proposal-IsPlan :
    (raw : Value) (p : PlanProposal) → parse_plan_proposal raw ≡ parse_ok p → IsPlan p
unfolding parse_plan_proposal
parse_plan_proposal-IsPlan (obj fs) p h = parse_plan_members_accepted fs p h
parse_plan_proposal-IsPlan (str s) p h = cc
parse_plan_proposal-IsPlan (num n) p h = cc
parse_plan_proposal-IsPlan (bool b) p h = cc
parse_plan_proposal-IsPlan undefined p h = cc
parse_plan_proposal-IsPlan null p h = cc
parse_plan_proposal-IsPlan unserializable p h = cc
parse_plan_proposal-IsPlan (arr xs) p h = cc

parse_revision_members-plan :
    (base : PlanProposal) (fs : Members) (p : RevisionProposal)
    → parse_revision_members base fs ≡ parse_ok p
    → base ≡ p.plan
unfolding parse_revision_members
parse_revision_members-plan base fs p h = ap (λ r. r.plan) (parsed_unless-ok _ _ p h).1

revision_of-IsPlan :
    (r : ParseResult PlanProposal) (fs : Option Members) (p : RevisionProposal)
    → ((base : PlanProposal) → r ≡ parse_ok base → IsPlan base)
    → revision_of r fs ≡ parse_ok p
    → IsPlan p.plan
revision_of-IsPlan (parse_fail errors) fs p k h = cc
revision_of-IsPlan (parse_ok base) none p k h = cc
revision_of-IsPlan (parse_ok base) (some fs) p k h =
    subst IsPlan (parse_revision_members-plan base fs p h) (k base refl)

-- The same holds of the tasks and the strategy of a revision that the parser accepts.
pub parse_revision_proposal-IsPlan :
    (raw : Value) (p : RevisionProposal) → parse_revision_proposal raw ≡ parse_ok p → IsPlan p.plan
unfolding parse_revision_proposal
parse_revision_proposal-IsPlan raw p h =
    revision_of-IsPlan (parse_plan_proposal raw) (as_record raw) p (parse_plan_proposal-IsPlan raw)
      h

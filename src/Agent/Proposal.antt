-- ===== src/Agent/Proposal.antt =====
-- The proposals that the planner asks a model for: the types, schemas and parsers of
-- src/agent/planner.ts.
pub mod Laws
pub mod Accepted
use autonomous_agent.Common.{
  ℕ, ◌+◌, String, Bool, true, false, Option, none, some, List, [], ◌∷◌, ◌++◌, map, ◌<>◌, decimal,
  truthy, ◌&&◌, not, is_some, if◌then◌else◌,
}
use autonomous_agent.Domain.Value.{
  Value, str, obj, arr, Members, no_members, member, Elements, no_elements, element,
}
use autonomous_agent.Domain.Parse.{
  as_record, field, read_string, read_string_array, read_optional_string, read_boolean,
}
use autonomous_agent.Models.Contracts.{ParseResult, parse_ok, parse_fail}

pub record TaskProposal : Type 0 where
  pub task_id : Option String
  pub description : String
  pub expected_evidence : List String

pub record PlanProposal : Type 0 where
  pub strategy_summary : String
  pub tasks : List TaskProposal
  pub cited_memory_record_ids : List String

pub record RevisionProposal : Type 0 where
  pub plan : PlanProposal
  pub open plan use *
  pub strategy_changed : Bool
  pub change_reason : Option String
  pub revision_reason : String

abbrev typed : String → Members → Value
typed name rest = obj (member "type" (str name) rest)

abbrev text_schema : Value
text_schema = typed "string" no_members

abbrev texts_schema : Value
texts_schema = typed "array" (member "items" text_schema no_members)

abbrev pub task_schema : Value
task_schema = typed "object" (
    member "properties"
      (obj (
        member "taskId"
          (typed "string"
            (member "description" (str "Existing task id to keep, omit for a new task") no_members))
          (member "description" text_schema (member "expectedEvidence" texts_schema no_members))))
      (member "required"
        (arr (element (str "description") (element (str "expectedEvidence") no_elements)))
        no_members))

-- `PLAN_SCHEMA.properties`, before further properties
abbrev plan_properties : Members → Members
plan_properties rest = member "strategySummary" text_schema (
    member "tasks" (typed "array" (member "items" task_schema no_members))
      (member "citedMemoryRecordIds" texts_schema rest))

abbrev pub plan_schema : Value
plan_schema = typed "object" (
    member "properties" (obj (plan_properties no_members)) (
      member "required" (arr (element (str "strategySummary") (element (str "tasks") no_elements)))
        no_members))

abbrev pub revision_schema : Value
revision_schema = typed "object" (
    member "properties"
      (obj (
        plan_properties (
          member "strategyChanged" (typed "boolean" no_members)
            (member "changeReason" text_schema (member "revisionReason" text_schema no_members)))))
      (member "required"
        (arr (
          element (str "strategySummary") (
            element (str "tasks")
              (element (str "strategyChanged") (element (str "revisionReason") no_elements)))))
        no_members))

-- one object of the array `tasks`: its task, with the array of errors after it
unfoldable pub parse_task : ℕ → Members → List String → TaskProposal × List String
unfolding read_string read_string_array read_optional_string
parse_task index item errors =
    let (description, e1) = read_string item "description" [] in
    let (evidence, e2) = read_string_array item "expectedEvidence" false e1 in
    let (task_id, e3) = read_optional_string item "taskId" e2 in
    (
      record { task_id = truthy task_id; description = description; expected_evidence = evidence },
      errors ++ map (λ e. "tasks[" <> decimal index <> "]." <> e) e3,
    )

-- the callback of `raw.forEach`: no task for what is not an object
abbrev pub item_or_error : ℕ → Option Members → List String → Option TaskProposal × List String
item_or_error index none errors =
    (none, errors ++ ("tasks[" <> decimal index <> "] must be an object") ∷ [])
item_or_error index (some item) errors =
    let (task, errors') = parse_task index item errors in (some task, errors')

abbrev pub task_before :
    Option TaskProposal → List TaskProposal × List String → List TaskProposal × List String
task_before none rest = rest
task_before (some task) (tasks, errors) = (task ∷ tasks, errors)

-- `raw.forEach`, from an index on
unfoldable pub parse_items : Elements → ℕ → List String → List TaskProposal × List String
unfolding as_record
parse_items no_elements index errors = ([], errors)
parse_items (element v xs) index errors =
    let (task, e1) = item_or_error index (as_record v) errors in
    task_before task (parse_items xs (index + 1) e1)

unfoldable pub parse_task_proposals : Value → List String → List TaskProposal × List String
parse_task_proposals (arr (element v xs)) errors = parse_items (element v xs) 0 errors
parse_task_proposals _ errors = ([], errors ++ "tasks must be a non-empty array" ∷ [])

-- `errors.length > 0 ? parseFail(...errors) : parseOk(value)`
abbrev pub parsed_unless : {T : Type 0} → List String → T → ParseResult T
parsed_unless [] value = parse_ok value
parsed_unless (e ∷ es) value = parse_fail (e ∷ es)

-- `parsePlanProposal` on an object
unfoldable pub parse_plan_members : Members → ParseResult PlanProposal
unfolding read_string read_string_array field
parse_plan_members raw =
    let (summary, e1) = read_string raw "strategySummary" [] in
    let (tasks, e2) = parse_task_proposals (field raw "tasks") e1 in
    let (cited, e3) = read_string_array raw "citedMemoryRecordIds" true e2 in
    parsed_unless e3
      (record { strategy_summary = summary; tasks = tasks; cited_memory_record_ids = cited })

unfoldable pub parse_plan_proposal : Value → ParseResult PlanProposal
unfolding as_record
parse_plan_proposal raw = elim (as_record raw) [
  | none ↦ parse_fail ("plan must be an object" ∷ [])
  | some fs ↦ parse_plan_members fs
]

-- what a revision has beyond a plan
unfoldable pub parse_revision_members : PlanProposal → Members → ParseResult RevisionProposal
unfolding read_boolean read_optional_string read_string
parse_revision_members base raw =
    let (changed, e1) = read_boolean raw "strategyChanged" none [] in
    let (reason, e2) = read_optional_string raw "changeReason" e1 in
    let (revision_reason, e3) = read_string raw "revisionReason" e2 in
    let e4 : List String =
      if changed && not (is_some (truthy reason))
      then e3 ++ "changeReason is required when strategyChanged" ∷ []
      else e3 in
    parsed_unless e4 (record {
      plan = base;
      strategy_changed = changed;
      change_reason = truthy reason;
      revision_reason = revision_reason;
    })

-- the second case is not reached: what parses as a plan is an object
abbrev pub revision_of : ParseResult PlanProposal → Option Members → ParseResult RevisionProposal
revision_of (parse_fail errors) fs = parse_fail errors
revision_of (parse_ok base) none = parse_fail []
revision_of (parse_ok base) (some fs) = parse_revision_members base fs

unfoldable pub parse_revision_proposal : Value → ParseResult RevisionProposal
unfolding as_record
parse_revision_proposal raw = revision_of (parse_plan_proposal raw) (as_record raw)

-- ===== src/Agent/Proposal/Laws.antt =====
-- What the parsers of proposals accept, and that they read back what the schema asks for.
use autonomous_agent.Common.{
  ℕ, ◌+◌, ◌≡◌, ◌≢◌, refl, String, Option, none, some, List, [], ◌∷◌, All, truthy,
}
use autonomous_agent.Domain.Value.{
  Value, str, obj, arr, Members, no_members, member, Elements, no_elements, element,
}
use autonomous_agent.Domain.Parse.{
  as_record, field, read_string, read_string_array, read_optional_string,
}
use autonomous_agent.Domain.Parse.Laws.{text_or_error-str, texts, text_elements-texts}
use autonomous_agent.Models.Contracts.{parse_ok}
use autonomous_agent.Agent.Proposal.{
  TaskProposal, PlanProposal, parse_task, parse_items, parse_task_proposals, parse_plan_members,
  parse_plan_proposal,
}

-- the JSON object of a proposal
abbrev id_member : Option String → Members
id_member none = no_members
id_member (some id) = member "taskId" (str id) no_members

abbrev task_members : TaskProposal → Members
task_members t =
    member "description" (str t.description)
      (member "expectedEvidence" (arr (texts t.expected_evidence)) (id_member t.task_id))

encode_tasks : List TaskProposal → Elements
encode_tasks [] = no_elements
encode_tasks (t ∷ ts) = element (obj (task_members t)) (encode_tasks ts)

abbrev plan_members : PlanProposal → Members
plan_members p = member "strategySummary" (str p.strategy_summary) (
    member "tasks" (arr (encode_tasks p.tasks))
      (member "citedMemoryRecordIds" (arr (texts p.cited_memory_record_ids)) no_members))

unfoldable pub encode_plan : PlanProposal → Value
unfolding encode_tasks texts
encode_plan p = obj (plan_members p)

-- a description, and an identifier that is not the empty text if there is one
abbrev pub IsWritable : TaskProposal → Type 0
IsWritable t = (t.description ≢ "") × (truthy t.task_id ≡ t.task_id)

parse_task-members :
    (id : Option String) (description : String) (evidence : List String) (index : ℕ)
    → description ≢ ""
    → truthy id ≡ id
    → let t : TaskProposal = record {
      task_id = id;
      description = description;
      expected_evidence = evidence;
    } in
      parse_task index (task_members t) [] ≡ (t, [])
unfolding parse_task read_string read_string_array read_optional_string field
parse_task-members none description evidence index d i =
    rw (text_or_error-str description "description" [] d, text_elements-texts evidence) refl
parse_task-members (some id) description evidence index d i =
    rw (text_or_error-str description "description" [] d, text_elements-texts evidence, i) refl

parse_items-encode :
    (ts : List TaskProposal) (index : ℕ)
    → All IsWritable ts
    → parse_items (encode_tasks ts) index [] ≡ (ts, [])
unfolding parse_items encode_tasks as_record
parse_items-encode [] index h = refl
parse_items-encode (t ∷ ts) index ((d, i), h) =
    rw
      (
        parse_task-members t.task_id t.description t.expected_evidence index d i,
        parse_items-encode ts (index + 1) h,
      )
      refl

parse_task_proposals-encode :
    (ts : List TaskProposal)
    → ts ≢ []
    → All IsWritable ts
    → parse_task_proposals (arr (encode_tasks ts)) [] ≡ (ts, [])
unfolding parse_task_proposals encode_tasks
parse_task_proposals-encode [] ne h = absurd (ne refl)
parse_task_proposals-encode (t ∷ ts) ne h = parse_items-encode (t ∷ ts) 0 h

-- what the schema asks for: a strategy in words and at least one task, each with a description
pub record IsPlan (p : PlanProposal) : Type 0 where
  pub summarised : p.strategy_summary ≢ ""
  pub nonempty : p.tasks ≢ []
  pub writable : All IsWritable p.tasks

module _ (p : PlanProposal) where
  parse_plan_members-encode : IsPlan p → parse_plan_members (plan_members p) ≡ parse_ok p
  unfolding parse_plan_members read_string read_string_array field
  parse_plan_members-encode h =
      rw
        (
          text_or_error-str p.strategy_summary "strategySummary" [] h.summarised,
          parse_task_proposals-encode p.tasks h.nonempty h.writable,
          text_elements-texts p.cited_memory_record_ids,
        )
        refl

  pub parse_plan_proposal-encode : IsPlan p → parse_plan_proposal (encode_plan p) ≡ parse_ok p
  unfolding parse_plan_proposal encode_plan as_record
  parse_plan_proposal-encode h = parse_plan_members-encode h

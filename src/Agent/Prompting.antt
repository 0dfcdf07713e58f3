-- ===== src/Agent/Prompting.antt =====
-- src/agent/prompting.ts: the runtime's state as text for a model, and the memory that a model is shown.
pub mod Laws
use Prim.Native.Char.{code}
use Prim.Native.String
use autonomous_agent.Common.{
  ℕ, String, Bool, true, false, Option, none, some, List, [], ◌∷◌, ◌++◌, map, join, decimal, truthy,
  or_else, includes, keep, first?, ltb, text_length, text_take, ◌<>◌, ◌===◌, if◌then◌else◌, ◌≡◌,
  refl,
}
use autonomous_agent.Common.Scan.{is_space, split_on}
use autonomous_agent.Domain.Goal.{Goal}
use autonomous_agent.Domain.Plan.{
  Plan, PlanTask, PlanTaskStatus, pending, in_progress, completed, failed, skipped,
}
use autonomous_agent.Domain.Outcome.{
  OutcomeVerdict, success, partial, failure, inconclusive, DecisionOutcome,
}
use autonomous_agent.Events.{ToolStatusName}
use autonomous_agent.Memory.Records.{
  MemoryRecord, MemoryKind, base_of, kind_of, SourceReference, KnowledgeBody,
}
use autonomous_agent.Memory.Retrieval.{
  RetrievalResult, RetrievalHit, ApplicabilityReport, PreconditionStatus, violated,
}
use autonomous_agent.Memory.Applicability.{is_violated}
use autonomous_agent.Agent.Contracts.{
  EvaluationCheck, EvaluationResult, TaskAttempt, ToolDescriptor, ToolFamily,
}

abbrev pub verdict_word : OutcomeVerdict → String
verdict_word success = "success"
verdict_word partial = "partial"
verdict_word failure = "failure"
verdict_word inconclusive = "inconclusive"

abbrev task_word : PlanTaskStatus → String
task_word pending = "pending"
task_word in_progress = "in_progress"
task_word completed = "completed"
task_word failed = "failed"
task_word skipped = "skipped"

abbrev tool_word : ToolStatusName → String
tool_word ToolStatusName.ok = "ok"
tool_word ToolStatusName.error = "error"
tool_word ToolStatusName.no_tool = "none"

abbrev pub kind_word : MemoryKind → String
kind_word MemoryKind.knowledge = "knowledge"
kind_word MemoryKind.experience = "experience"
kind_word MemoryKind.decision = "decision"
kind_word MemoryKind.lesson = "lesson"

abbrev family_word : ToolFamily → String
family_word ToolFamily.web = "web"
family_word ToolFamily.http = "http"
family_word ToolFamily.browser = "browser"
family_word ToolFamily.filesystem = "filesystem"
family_word ToolFamily.terminal = "terminal"
family_word ToolFamily.code = "code"
family_word ToolFamily.git = "git"
family_word ToolFamily.github = "github"
family_word ToolFamily.memory = "memory"
family_word ToolFamily.introspection = "introspection"

-- `if (items.length > 0) lines.push(label + items.join('; '))`
abbrev listed : String → List String → List String
listed label [] = []
listed label (s ∷ ss) = (label <> join "; " (s ∷ ss)) ∷ []

unfoldable pub render_goal : Goal → String
render_goal goal = join "\n" (
    ("GOAL: " <> goal.statement)
    ∷ (listed "CONSTRAINTS: " goal.constraints
        ++ listed "SUCCESS CRITERIA: " goal.success_criteria))

abbrev tool_line : ToolDescriptor → String
tool_line t = "- " <> t.name <> " (" <> family_word t.family <> "): " <> t.description

unfoldable pub render_tools : List ToolDescriptor → String
render_tools [] = "TOOLS: none"
render_tools (t ∷ ts) = join "\n" ("TOOLS:" ∷ map tool_line (t ∷ ts))

-- `applicability` as the pairs that were set, the newest first
pub record PresentedMemory : Type 0 where
  pub retrieval_ids : List String
  pub records : List MemoryRecord
  pub applicability : List (String × ApplicabilityReport)

abbrev pub record_id_of : MemoryRecord → String
record_id_of r = (base_of r).record_id

abbrev note_report :
    String
    → Option ApplicabilityReport
    → List (String × ApplicabilityReport)
    → List (String × ApplicabilityReport)
note_report id none noted = noted
note_report id (some report) noted = (id, report) ∷ noted

-- one hit: its report is noted, and its record is shown unless it has been
abbrev pub present_hit : PresentedMemory → RetrievalHit → PresentedMemory
present_hit m hit = record m {
  records =
      if includes (map record_id_of m.records) (record_id_of hit.item)
      then m.records
      else m.records ++ hit.item ∷ [];
  applicability = note_report (record_id_of hit.item) hit.applicability m.applicability;
}

unfoldable pub present_hits : PresentedMemory → List RetrievalHit → PresentedMemory
present_hits m [] = m
present_hits m (hit ∷ hits) = present_hits (present_hit m hit) hits

-- one retrieval: one without hits informed nothing
abbrev pub present_retrieval : PresentedMemory → String → List RetrievalHit → PresentedMemory
present_retrieval m id [] = m
present_retrieval m id (hit ∷ hits) =
    present_hits (record m { retrieval_ids = m.retrieval_ids ++ id ∷ [] }) (hit ∷ hits)

unfoldable pub present_from : PresentedMemory → List RetrievalResult → PresentedMemory
unfolding present_hits
present_from m [] = m
present_from m (r ∷ rs) = present_from (present_retrieval m r.retrieval_id r.hits) rs

unfoldable pub presented_memory : List RetrievalResult → PresentedMemory
unfolding present_from
presented_memory retrievals =
    present_from (record { retrieval_ids = []; records = []; applicability = [] }) retrievals

unfoldable pub report_of : List (String × ApplicabilityReport) → String → Option ApplicabilityReport
report_of [] id = none
report_of ((key, report) ∷ rest) id = if key === id then some report else report_of rest id

unfoldable pub describe_applicability : Option ApplicabilityReport → String
describe_applicability none = ""
describe_applicability (some report) =
    if is_violated report.status
    then " — PRECONDITION VIOLATED ("
      <> join "; " (map (λ c. c.evidence) (keep (λ c. is_violated c.status) report.checks))
      <> "). This record may not apply to the current environment. It is not evidence that the same action will succeed now."
    else ""

-- a character that stands for a run of white space: the first of the run is written as a space
squeeze_from : Bool → String → String
squeeze_from after_space String.[] = ""
squeeze_from after_space (String.◌∷◌ c s) =
    let blank = is_space (code c) in
    let rest = squeeze_from blank s in
    if blank then (if after_space then rest else " " <> rest) else String.◌∷◌ c rest

-- `s.replace(/\s+/g, ' ')`
unfoldable pub squeeze_spaces : String → String
unfolding squeeze_from
squeeze_spaces s = squeeze_from false s

abbrev knowledge_excerpt_chars : ℕ
knowledge_excerpt_chars = 400

abbrev excerpt : String → String
excerpt content =
    if ltb knowledge_excerpt_chars (text_length content)
    then text_take knowledge_excerpt_chars content <> "…"
    else content

-- `sources[0]?.url ?? sources[0]?.title`
abbrev url_or_title : Option SourceReference → Option String
url_or_title none = none
url_or_title (some source) = elim source.url [ some url ↦ some url | none ↦ source.title ]

abbrev source_note : Option String → String
source_note none = ""
source_note (some source) = " (source: " <> source <> ")"

abbrev outcome_word : DecisionOutcome → String
outcome_word DecisionOutcome.pending = "pending"
outcome_word (DecisionOutcome.evaluated v) = verdict_word v

unfoldable pub describe_record : MemoryRecord → String
unfolding squeeze_spaces
describe_record (MemoryRecord.knowledge _ k) =
    " — "
    <> k.title
    <> source_note (truthy (url_or_title (first? k.sources)))
    <> ": \""
    <> squeeze_spaces (excerpt k.content)
    <> "\""
describe_record (MemoryRecord.experience _ e) = " — outcome: " <> verdict_word e.outcome
describe_record (MemoryRecord.decision _ d) =
    " — chose: " <> d.selected_option_id <> "; " <> d.reason
describe_record (MemoryRecord.lesson _ l) = " — " <> l.statement

abbrev memory_line : PresentedMemory → MemoryRecord → String
memory_line memory r =
    "- ["
    <> record_id_of r
    <> "] ("
    <> kind_word (kind_of r)
    <> ") "
    <> (base_of r).summary
    <> describe_record r
    <> describe_applicability (report_of memory.applicability (record_id_of r))

abbrev memory_lines : List String → String
memory_lines [] = "RELEVANT MEMORY: none retrieved"
memory_lines (l ∷ ls) = join "\n" ("RELEVANT MEMORY (cite record ids you rely on):" ∷ l ∷ ls)

unfoldable pub render_memory : PresentedMemory → String
unfolding describe_record describe_applicability report_of
render_memory memory = memory_lines (map (memory_line memory) memory.records)

abbrev task_line : PlanTask → String
task_line t =
    "- ["
    <> t.task_id
    <> "] ("
    <> task_word t.status
    <> ") "
    <> t.description
    <> " | evidence: "
    <> join "; " t.expected_evidence

unfoldable pub render_plan : Plan → String
unfolding decimal
render_plan plan = join "\n" (
    ("PLAN v" <> decimal plan.version <> " — strategy: " <> plan.strategy.summary)
    ∷ map task_line plan.tasks)

abbrev check_line : EvaluationCheck → String
check_line c =
    "  - " <> (if c.passed then "PASS" else "FAIL") <> " " <> c.name <> ": " <> c.evidence

abbrev gap_lines : List String → List String
gap_lines [] = []
gap_lines (g ∷ gs) = "  gaps:" ∷ map (λ gap. "  - " <> gap) (g ∷ gs)

unfoldable pub render_evaluation : EvaluationResult → String
render_evaluation e = join "\n" (
    ("EVALUATION "
      <> e.evaluation_id
      <> ": "
      <> verdict_word e.verdict
      <> " (tool status: "
      <> tool_word e.tool_status
      <> ")")
    ∷ (map check_line e.checks ++ gap_lines e.gaps))

-- the lines of `attempts.flatMap(…)`
unfoldable pub attempt_lines : List TaskAttempt → List String
unfolding render_evaluation split_on decimal
attempt_lines [] = []
attempt_lines (a ∷ attempts) =
    ("- attempt "
      <> decimal a.action.attempt
      <> ": "
      <> a.action.tool_name
      <> " — "
      <> a.action.intent)
    ∷ ("  observation: " <> a.observation.summary)
    ∷ ("  " <> join "\n  " (split_on 10 (render_evaluation a.evaluation)))
    ∷ attempt_lines attempts

unfoldable pub render_attempts : List TaskAttempt → String
unfolding attempt_lines
render_attempts [] = "PREVIOUS ATTEMPTS: none"
render_attempts (a ∷ attempts) =
    join "\n" ("PREVIOUS ATTEMPTS AT THIS TASK:" ∷ attempt_lines (a ∷ attempts))

squeeze_spaces_test : squeeze_spaces "a \n b" ≡ "a b"
unfolding squeeze_spaces
squeeze_spaces_test = refl

-- ===== src/Agent/Learner.antt =====
-- `OutcomeLearner` of src/agent/learner.ts, with `preconditionsFromToolCall` of
-- src/memory/applicability.ts and `UNVALIDATED` of src/memory/records.ts. JSON.stringify may throw.
pub mod Laws
use autonomous_agent.Common.{
  ℕ, String, Bool, true, false, not, ◌&&◌, ◌||◌, Option, none, some, List, [], ◌∷◌, ◌++◌, map, keep,
  join, decimal, length, last?, or_else, truthy, includes, ◌===◌, ◌<>◌, if◌then◌else◌,
}
use autonomous_agent.Common.Scan.{trim}
use autonomous_agent.Async.{Async, Settled, fulfilled, pure, settle, ◌>>=◌}
use autonomous_agent.Domain.Value.{Value, str, obj}
use autonomous_agent.Domain.Parse.{as_record, field}
use autonomous_agent.Domain.Provenance.{Provenance, empty_provenance, merge_provenance}
use autonomous_agent.Domain.Outcome.{is_success, verdict_as_outcome}
use autonomous_agent.Memory.Records.{Precondition, file_exists, LessonValidation}
use autonomous_agent.Session.Core.{Host, Shared, next_id, clock_now}
use autonomous_agent.Agent.Contracts.{
  LearningInput, LearningOutput, TaskAttempt, ExperienceRecord, LessonRecord, DecisionRecord,
}
use autonomous_agent.Agent.Prompting.{verdict_word}
use autonomous_agent.Runtime.State.{changed_approach}

abbrev path_condition : Value → List Precondition
path_condition (str path) = if trim path === "" then [] else file_exists path ∷ []
path_condition _ = []

unfoldable pub preconditions_from_tool_call : String → Value → List Precondition
unfolding as_record field trim
preconditions_from_tool_call name input =
    if not (name === "fs.read") && not (name === "fs.delete")
    then []
    else elim (as_record input) [ none ↦ [] | some fs ↦ path_condition (field fs "path") ]

abbrev pub unvalidated : LessonValidation
unvalidated = record {
  times_retrieved = 0;
  times_applied = 0;
  times_confirmed = 0;
  times_contradicted = 0;
}

abbrev decision_ids_of : Option String → Provenance
decision_ids_of none = empty_provenance
decision_ids_of (some id) = record empty_provenance { decision_ids = some (id ∷ []) }

abbrev provenance_of : Option DecisionRecord → Provenance
provenance_of none = empty_provenance
provenance_of (some d) = d.base.provenance

abbrev pub attempt_parts : TaskAttempt → List Provenance
attempt_parts a =
    record empty_provenance {
      action_ids = some (a.action.action_id ∷ []);
      observation_ids = some (a.observation.observation_id ∷ []);
      evaluation_ids = some (a.evaluation.evaluation_id ∷ []);
      plan_ids = some (a.action.plan_id ∷ []);
    }
    ∷ decision_ids_of (truthy a.action.decision_id)
    ∷ provenance_of a.decision
    ∷ []

unfoldable pub attempt_provenance : TaskAttempt → Provenance
attempt_provenance a = merge_provenance (attempt_parts a)

-- `previous ? approachDiffers(previous, attempt) : false`
abbrev pub approach_differs : Option TaskAttempt → TaskAttempt → Settled Bool
approach_differs none current = fulfilled false
approach_differs (some previous) current = changed_approach previous.action current.action

-- `preconditionField`: the field is there only if there is a precondition
abbrev condition_field : List Precondition → Option (List Precondition)
condition_field [] = none
condition_field (c ∷ cs) = some (c ∷ cs)

-- `all.filter((value, index) => all.indexOf(value) === index)`, after the values `seen`
unfoldable pub unrepeated : List String → List String → List String
unrepeated seen [] = []
unrepeated seen (x ∷ xs) =
    let rest = unrepeated (x ∷ seen) xs in if includes seen x then rest else x ∷ rest

abbrev gaps_or_summary : TaskAttempt → String
gaps_or_summary f =
    let gaps = join "; " f.evaluation.gaps in if gaps === "" then f.evaluation.summary else gaps

abbrev failed_summary : TaskAttempt → String
failed_summary f =
    "\""
    <> f.action.intent
    <> "\" ("
    <> f.action.tool_name
    <> ") → "
    <> verdict_word f.evaluation.verdict
    <> ": "
    <> gaps_or_summary f

abbrev pub has_failed : TaskAttempt → Bool
has_failed a = not (is_success a.evaluation.verdict)

abbrev pub experience_part : ExperienceRecord → Provenance
experience_part experience = record empty_provenance {
  memory_record_ids = some (experience.base.record_id ∷ []);
}

abbrev pub lesson_parts : LearningInput → List TaskAttempt → ExperienceRecord → List Provenance
lesson_parts input failed experience =
    experience_part experience
    ∷ (map attempt_provenance failed ++ attempt_provenance input.attempt ∷ [])

module _ (input : LearningInput) where
  abbrev pub experience_of : String → String → Bool → ExperienceRecord
  experience_of record_id now changed = record {
    base = record {
      record_id = record_id;
      run_id = input.correlation.run_id;
      goal_id = some input.correlation.goal_id;
      task_id = some input.task.task_id;
      created_at = now;
      summary =
          input.attempt.action.tool_name
          <> " for \""
          <> input.task.description
          <> "\" → "
          <> verdict_word input.attempt.evaluation.verdict;
      tags = input.attempt.action.tool_name ∷ verdict_word input.attempt.evaluation.verdict ∷ [];
      provenance = attempt_provenance input.attempt;
      preconditions =
          condition_field (
            preconditions_from_tool_call input.attempt.action.tool_name input.attempt.action.input);
    };
    body = record {
      action_id = input.attempt.action.action_id;
      tool_name = input.attempt.action.tool_name;
      input_summary = input.attempt.action.intent;
      observation_id = input.attempt.observation.observation_id;
      evaluation_id = some input.attempt.evaluation.evaluation_id;
      outcome = verdict_as_outcome input.attempt.evaluation.verdict;
      attempt = input.attempt.action.attempt;
      retry_of = truthy input.attempt.action.retry_of;
      changed_approach = changed;
    };
  }

  abbrev pub lesson_of :
      List TaskAttempt → ExperienceRecord → String → String → String → LessonRecord
  lesson_of failed experience record_id lesson_id now = record {
    base = record {
      record_id = record_id;
      run_id = input.correlation.run_id;
      goal_id = some input.correlation.goal_id;
      task_id = some input.task.task_id;
      created_at = now;
      summary =
          "Succeeded after "
          <> decimal (length failed)
          <> " failed attempt(s): "
          <> input.attempt.action.intent;
      tags = "contrast" ∷ input.attempt.action.tool_name ∷ [];
      provenance = merge_provenance (lesson_parts input failed experience);
      preconditions = none;
    };
    body = record {
      lesson_id = lesson_id;
      statement = join " " (
          ("For tasks like \"" <> input.task.description <> "\":")
          ∷ (map (λ f. "failed approach " <> failed_summary f <> ";") failed
              ++ ("succeeded with \"" <> input.attempt.action.intent <> "\" ("
                  <> input.attempt.action.tool_name <> ").")
                ∷ []));
      applicability =
          unrepeated [] (input.attempt.action.tool_name ∷ map (λ f. f.action.tool_name) failed);
      confidence = 60;
      validation = unvalidated;
    };
  }

module _ {X : Type 0} (host : Host X) where
  unfoldable pub contrast_lesson :
      LearningInput → List TaskAttempt → ExperienceRecord → Async (Shared X) LessonRecord
  contrast_lesson input failed experience = do
    record_id ← next_id host "mem"
    lesson_id ← next_id host "lesson"
    now ← clock_now host
    pure (lesson_of input failed experience record_id lesson_id now)

  -- a lesson only from a success after failures
  unfoldable pub lessons_from :
      LearningInput
      → Bool
      → List TaskAttempt
      → ExperienceRecord
      → Async (Shared X) (List LessonRecord)
  lessons_from input true (f ∷ failed) experience = do
    lesson ← contrast_lesson input (f ∷ failed) experience
    pure (lesson ∷ [])
  lessons_from input _ _ experience = pure []

  unfoldable pub learn : LearningInput → Async (Shared X) LearningOutput
  learn input = do
    now ← clock_now host
    record_id ← next_id host "mem"
    changed ← settle (approach_differs (last? input.previous_attempts) input.attempt)
    lessons ←
        lessons_from input (is_success input.attempt.evaluation.verdict)
          (keep has_failed input.previous_attempts) (experience_of input record_id now changed)
    pure (record { experience = experience_of input record_id now changed; lessons = lessons })

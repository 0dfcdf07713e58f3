-- ===== src/Evaluation/Checks.antt =====
-- The checks of src/evaluation/deterministic-evaluator.ts, on what the environment or the latest
-- observation says.
use autonomous_agent.Common.{
  ℕ, String, Bool, true, false, Option, none, some, List, [], ◌∷◌, keep, not, ◌&&◌, ◌||◌, ◌===◌,
  ◌==◌, ◌<>◌, decimal, join, last?, if◌then◌else◌, text_length, includes,
}
use autonomous_agent.Common.Scan.{contains_text}
use autonomous_agent.Domain.Value.{Value, obj, num, Members, no_members, member}
use autonomous_agent.Domain.Tool.{Observation, ToolStatus, ok, error}
use autonomous_agent.Agent.Environment.{CommandResult}
use autonomous_agent.Agent.Contracts.{
  EvaluationCheck, EvidenceMethod, artifact_inspection, command_check, tool_result,
}

-- what a check that says nothing of `decisive` looks like
abbrev pub check_of : String → Bool → EvidenceMethod → String → EvaluationCheck
check_of name passed method evidence = record {
  name = name;
  passed = passed;
  method = method;
  decisive = none;
  evidence = evidence;
}

-- `check.decisive !== false`
abbrev pub is_not_false : Option Bool → Bool
is_not_false (some false) = false
is_not_false _ = true

abbrev pub is_decisive : EvaluationCheck → Bool
is_decisive check = is_not_false check.decisive

abbrev pub is_ok : ToolStatus → Bool
is_ok (ok _ _) = true
is_ok (error _) = false

abbrev pub status_word : ToolStatus → String
status_word (ok _ _) = "ok"
status_word (error _) = "error"

abbrev pub tool_status_of : Option Observation → EvaluationCheck
tool_status_of none = record {
  name = "tool status";
  passed = false;
  decisive = some false;
  method = tool_result;
  evidence = "no tool observation";
}
tool_status_of (some last) = record {
  name = "tool status";
  passed = is_ok last.tool_result.status;
  decisive = some false;
  method = tool_result;
  evidence =
      last.tool_result.tool_name
      <> " returned "
      <> status_word last.tool_result.status
      <> " (not decisive by itself)";
}

abbrev pub missing_environment : String → String → EvaluationCheck
missing_environment name subject =
    check_of name false artifact_inspection ("no execution environment to check " <> subject)

abbrev pub file_exists_check : String → Bool → EvaluationCheck
file_exists_check path exists =
    check_of "file exists" exists artifact_inspection
      (if exists then path <> " exists" else path <> " does not exist")

abbrev pub absent_check : String → String → EvaluationCheck
absent_check name path = check_of name false artifact_inspection (path <> " does not exist")

abbrev pub file_contains_check : String → String → String → EvaluationCheck
file_contains_check path marker content =
    let found = contains_text content marker in
    check_of "file contains" found artifact_inspection (
      if found
      then path <> " contains the required marker"
      else path
        <> " ("
        <> decimal (text_length content)
        <> " bytes) does not contain the required marker")

-- the names that every object inherits from `Object.prototype`
abbrev pub inherited : List String
inherited =
    "constructor" ∷ "hasOwnProperty" ∷ "isPrototypeOf" ∷ "propertyIsEnumerable" ∷ "toLocaleString"
    ∷ "toString" ∷ "valueOf" ∷ "__proto__" ∷ "__defineGetter__" ∷ "__defineSetter__"
    ∷ "__lookupGetter__" ∷ "__lookupSetter__" ∷ []

abbrev pub own_key : Members → String → Bool
own_key no_members key = false
own_key (member k v fs) key = k === key || own_key fs key

-- `key in parsed`, which inherited names pass too
abbrev pub has_key : Members → String → Bool
has_key fs key = own_key fs key || includes inherited key

abbrev pub keys_check : String → List String → List String → EvaluationCheck
keys_check path required [] =
    check_of "json file" true artifact_inspection (path <> " has keys " <> join ", " required)
keys_check path required (m ∷ ms) =
    check_of "json file" false artifact_inspection
      (path <> " is missing keys " <> join ", " (m ∷ ms))

-- the checks of `jsonFile` on what was parsed, for keys that are asked for
abbrev pub required_check : String → List String → Value → EvaluationCheck
required_check path required (obj fs) =
    keys_check path required (keep (λ key. not (has_key fs key)) required)
required_check path required _ =
    check_of "json file" false artifact_inspection (path <> " is JSON but not an object")

unfoldable pub json_check : String → Option (List String) → Option Value → EvaluationCheck
json_check path required none =
    check_of "json file" false artifact_inspection (path <> " is not valid JSON")
json_check path none (some parsed) =
    check_of "json file" true artifact_inspection (path <> " is valid JSON")
json_check path (some []) (some parsed) =
    check_of "json file" true artifact_inspection (path <> " is valid JSON")
json_check path (some (k ∷ ks)) (some parsed) = required_check path (k ∷ ks) parsed

abbrev pub exit_word : Option ℕ → String
exit_word none = "none"
exit_word (some code) = decimal code

abbrev pub is_zero_exit : Option ℕ → Bool
is_zero_exit none = false
is_zero_exit (some code) = code == 0

unfoldable pub command_result_check : CommandResult → EvaluationCheck
command_result_check result =
    let passed = is_zero_exit result.exit_code && not result.timed_out in
    check_of "command exits 0" passed command_check (
      if passed
      then "command exited 0"
      else "command exit "
        <> exit_word result.exit_code
        <> (if result.timed_out then " (timed out)" else ""))

-- `output.status`; the last of two equal keys is the one an object keeps
abbrev pub status_field : Members → Option Value → Option Value
status_field no_members found = found
status_field (member k v fs) found = status_field fs (if k === "status" then some v else found)

abbrev pub numeric : Option Value → Option ℕ
numeric (some (num n)) = some n
numeric _ = none

abbrev pub http_status_of : ToolStatus → Option ℕ
http_status_of (ok (obj fs) _) = numeric (status_field fs none)
http_status_of _ = none

abbrev pub latest_status : Option Observation → Option ℕ
latest_status none = none
latest_status (some last) = http_status_of last.tool_result.status

abbrev pub compare_status : ℕ → Option ℕ → EvaluationCheck
compare_status expected none =
    check_of "http status" false tool_result "latest observation has no numeric HTTP status"
compare_status expected (some status) =
    check_of "http status" (status == expected) tool_result
      ("HTTP status " <> decimal status <> ", expected " <> decimal expected)

unfoldable pub http_status_check : ℕ → List Observation → EvaluationCheck
http_status_check expected observations =
    compare_status expected (latest_status (last? observations))

abbrev pub name_ok : Option String → String → Bool
name_ok none actual = true
name_ok (some wanted) actual = actual === wanted

abbrev pub wanted_note : Option String → String
wanted_note none = ""
wanted_note (some wanted) = "; expected " <> wanted

abbrev pub succeeded_check : Option String → Option Observation → EvaluationCheck
succeeded_check wanted none = check_of "tool succeeded" false tool_result "no tool observation"
succeeded_check wanted (some last) =
    let named = name_ok wanted last.tool_result.tool_name in
    let passed = is_ok last.tool_result.status && named in
    check_of "tool succeeded" passed tool_result (
      if passed
      then last.tool_result.tool_name <> " succeeded"
      else last.tool_result.tool_name
        <> " status "
        <> status_word last.tool_result.status
        <> (if named then "" else wanted_note wanted))

unfoldable pub tool_succeeded_check : Option String → List Observation → EvaluationCheck
tool_succeeded_check wanted observations = succeeded_check wanted (last? observations)

-- ===== src/Tools/Registry.antt =====
-- src/tools/registry.ts, with `Tool` and `ToolContext` of src/tools/contracts.ts. A tool's input and
-- output are values of type `unknown`; the context's clock, identifiers and events are the session's.
pub mod Laws
use autonomous_agent.Common.{
  ℕ, ◌-◌, String, Bool, true, false, ◌===◌, ◌<>◌, Option, none, some, List, [], ◌∷◌, ◌++◌, map,
  if◌then◌else◌, is_some, find,
}
use autonomous_agent.Async.{
  Async, Settled, fulfilled, rejected, pure, settle, catch, error_of, ◌>>=◌,
}
use autonomous_agent.Domain.Value.{Value}
use autonomous_agent.Domain.Thrown.{
  Thrown, environment_error, EnvironmentErrorCode, not_found, unavailable, permission_denied,
  internal,
}
use autonomous_agent.Domain.Provenance.{RunCorrelation}
use autonomous_agent.Domain.Goal.{ArtifactRef}
use autonomous_agent.Domain.Tool.{
  ToolResult, ToolStatus, ok, error, ToolError, ToolErrorCode, no_details, problems, cause,
}
use autonomous_agent.Session.Core.{Host, Shared, clock_now, clock_ms}
use autonomous_agent.Agent.Environment.{ExecutionEnvironment}
use autonomous_agent.Agent.Contracts.{ToolDescriptor, ToolFamily}
use autonomous_agent.Models.Contracts.{ParseResult, parse_ok, parse_fail}

pub record ToolContext (S : Type 0) : Type 0 where
  pub correlation : RunCorrelation
  pub action_id : String
  pub environment : ExecutionEnvironment S

-- `parseInput` and `artifacts` are not awaited, and might throw
pub record Tool (S : Type 0) : Type 0 where
  pub name : String
  pub family : ToolFamily
  pub description : String
  pub input_schema : Value
  pub output_schema : Value
  pub parse_input : Value → Settled (ParseResult Value)
  pub execute : Value → ToolContext S → Async S Value
  pub artifacts : Option (Value → Value → ToolContext S → Settled (List ArtifactRef))

abbrev pub describe_tool : {S : Type 0} → Tool S → ToolDescriptor
describe_tool tool = record {
  name = tool.name;
  family = tool.family;
  description = tool.description;
  input_schema = tool.input_schema;
}

-- the map of `ToolRegistry`, in the order of registration
abbrev pub Registry : Type 0 → Type 0
Registry S = List (Tool S)

module _ {S : Type 0} where
  unfoldable pub get : Registry S → String → Option (Tool S)
  get registry name = find (λ tool. tool.name === name) registry

  abbrev pub has : Registry S → String → Bool
  has registry name = is_some (get registry name)

  unfoldable pub register : Registry S → Tool S → Settled (Registry S)
  register registry tool =
      if has registry tool.name
      then rejected (error_of ("Tool \"" <> tool.name <> "\" is already registered"))
      else fulfilled (registry ++ tool ∷ [])

  unfoldable pub names : Registry S → List String
  names registry = map (λ tool. tool.name) registry

  unfoldable pub describe_all : Registry S → List ToolDescriptor
  describe_all registry = map describe_tool registry

abbrev failure : ToolErrorCode → Bool → Thrown → ToolError
failure code retryable e = record {
  code = code;
  message = e.message;
  retryable = retryable;
  details = cause e;
}

-- the switch of `describeFailure`
abbrev environment_failure : EnvironmentErrorCode → Thrown → ToolError
environment_failure not_found = failure ToolErrorCode.not_found false
environment_failure permission_denied = failure ToolErrorCode.permission_denied false
environment_failure unavailable = failure ToolErrorCode.unavailable true
environment_failure internal = failure ToolErrorCode.execution_failed true

unfoldable pub describe_failure : Thrown → ToolError
describe_failure e = elim e.class [
  | environment_error code ↦ environment_failure code e
  | _ ↦ failure ToolErrorCode.execution_failed true e
]

-- `artifacts.length > 0 ? { artifacts } : {}`
abbrev some_artifacts : List ArtifactRef → Option (List ArtifactRef)
some_artifacts [] = none
some_artifacts (a ∷ rest) = some (a ∷ rest)

module _ {S : Type 0} where
  abbrev artifacts_of : Tool S → Value → Value → ToolContext S → Settled (List ArtifactRef)
  artifacts_of tool input output context = elim tool.artifacts [
    | none ↦ fulfilled []
    | some derive ↦ derive input output context
  ]

  -- the call in the `try` of `invokeTool`
  unfoldable pub perform_call : Tool S → Value → ToolContext S → Async S ToolStatus
  perform_call tool input context = do
    output ← tool.execute input context
    artifacts ← settle (artifacts_of tool input output context)
    pure (ok output (some_artifacts artifacts))

  unfoldable pub guarded_call : Tool S → Value → ToolContext S → Async S ToolStatus
  guarded_call tool input context =
      catch (perform_call tool input context) (λ e. pure (error (describe_failure e)))

  -- what follows from the parsed input
  unfoldable pub call_parsed :
      String → Tool S → ParseResult Value → ToolContext S → Async S ToolStatus
  call_parsed name tool (parse_fail errors) context = pure (
      error (record {
        code = ToolErrorCode.invalid_input;
        message = "Input for tool \"" <> name <> "\" was rejected";
        retryable = true;
        details = problems errors;
      }))
  call_parsed name tool (parse_ok input) context = guarded_call tool input context

  unfoldable pub call_found : String → Option (Tool S) → Value → ToolContext S → Async S ToolStatus
  call_found name none raw context = pure (
      error (record {
        code = ToolErrorCode.unknown_tool;
        message = "No tool named \"" <> name <> "\" is registered";
        retryable = false;
        details = no_details;
      }))
  call_found name (some tool) raw context = do
    parsed ← settle (tool.parse_input raw)
    call_parsed name tool parsed context

module _ {X : Type 0} (host : Host X) where
  unfoldable pub invoke_tool :
      Registry (Shared X) → String → Value → ToolContext (Shared X) → Async (Shared X) ToolResult
  invoke_tool registry name raw context = do
    started_at ← clock_now host
    started_ms ← clock_ms host
    status ← call_found name (get registry name) raw context
    finished_at ← clock_now host
    finished_ms ← clock_ms host
    pure (record {
      tool_name = name;
      action_id = context.action_id;
      started_at = started_at;
      finished_at = finished_at;
      duration_ms = finished_ms - started_ms;
      status = status;
    })

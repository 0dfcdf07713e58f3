-- ===== src/Tests/Acts.antt =====
-- The theorems on tools and on the executor, applied to a concrete tool.
use autonomous_agent.Common.{
  ℕ, String, Bool, true, Option, ◌≡◌, ◌↔◌, ◌⊎◌, refl, subst, false, none, some, [], ◌∷◌, ◌===◌,
}
use autonomous_agent.Common.Scan.{after_prefix, split_on}
use autonomous_agent.Async.{fulfilled, throw}
use autonomous_agent.Async.Moves.{Moves, Moves-throw}
use autonomous_agent.Async.Always.{Always}
use autonomous_agent.Domain.Value.{null}
use autonomous_agent.Domain.Thrown.{Thrown, environment_error, not_found, permission_denied}
use autonomous_agent.Models.Contracts.{parse_ok}
use autonomous_agent.Session.Core.{Shared}
use autonomous_agent.Agent.Contracts.{ToolFamily}
use autonomous_agent.Agent.Executor.{execute}
use autonomous_agent.Agent.Executor.Laws.{Observes, execute-Quiet, execute-Always, IsHarmless}
use autonomous_agent.Runtime.Frame.Quiet.{Quiet, Quiet-order}
use autonomous_agent.Tools.Paths.{resolve_workspace_path, normalise_posix, has_nul, admit, collapse}
use autonomous_agent.Tools.Paths.Laws.{Confined, resolve_workspace_path-Confined}
use autonomous_agent.Tools.Registry.{
  Tool, ToolContext, Registry, get, register, describe_failure, invoke_tool,
}
use autonomous_agent.Tools.Registry.Laws.{
  ParsesAll, AnswersCall, Registers, register-Registers, invoke_tool-Always,
  describe_failure-retryable_iff,
}
use autonomous_agent.Tests.Sample.{host, nowhere, action, environment}

abbrev forbidden : Thrown
forbidden = record {
  class = environment_error permission_denied;
  message = "read only";
  errors = none;
}

-- a tool that always throws
abbrev write_tool : Tool (Shared ℕ)
write_tool = record {
  name = "fs.write";
  family = ToolFamily.filesystem;
  description = "write a file";
  input_schema = null;
  output_schema = null;
  parse_input = λ raw. fulfilled (parse_ok raw);
  execute = λ input context. throw forbidden;
  artifacts = none;
}

abbrev pub registry : Registry (Shared ℕ)
registry = write_tool ∷ []

abbrev no_tools : Registry (Shared ℕ)
no_tools = []

abbrev context : ToolContext (Shared ℕ)
context = record { correlation = nowhere; action_id = "act-1"; environment = environment }

found_test : (tool : Tool (Shared ℕ)) → get registry "fs.write" ≡ some tool → write_tool ≡ tool
unfolding get
found_test tool h = cc

parses_test : (tool : Tool (Shared ℕ)) → get registry "fs.write" ≡ some tool → ParsesAll tool
parses_test tool h = subst ParsesAll (found_test tool h) (λ raw. tt)

get-IsHarmless : (tool : Tool (Shared ℕ)) → get registry "fs.write" ≡ some tool → IsHarmless tool
get-IsHarmless tool h =
    subst IsHarmless (found_test tool h) (λ input context. Moves-throw Quiet-order forbidden)

invoke_tool-Always_example :
    Always (AnswersCall "fs.write" "act-1") (invoke_tool host registry "fs.write" null context)
invoke_tool-Always_example = invoke_tool-Always host registry "fs.write" null context parses_test

execute-Always_example : Always (Observes action) (execute host registry environment action)
execute-Always_example = execute-Always host registry environment action parses_test

execute-Quiet_example : Moves Quiet (execute host registry environment action)
execute-Quiet_example = execute-Quiet host registry environment action get-IsHarmless

register_test : register [] write_tool ≡ fulfilled registry
unfolding register get
register_test = refl

register-Registers_example : Registers no_tools write_tool (register no_tools write_tool)
register-Registers_example = register-Registers no_tools write_tool

describe_failure-retryable_iff_example : ((describe_failure forbidden).retryable ≡ false) ↔ (
    (forbidden.class ≡ environment_error not_found)
    ⊎ (forbidden.class ≡ environment_error permission_denied))
describe_failure-retryable_iff_example = describe_failure-retryable_iff forbidden

dots_test : resolve_workspace_path "/workspace" "a/../b/./c" ≡ parse_ok "/workspace/b/c"
unfolding resolve_workspace_path normalise_posix has_nul admit collapse split_on after_prefix
dots_test = refl

resolve_workspace_path-Confined_example :
    Confined (normalise_posix "/workspace") "a/../b/./c" "/workspace/b/c"
resolve_workspace_path-Confined_example =
    resolve_workspace_path-Confined "/workspace" "a/../b/./c" "/workspace/b/c" dots_test

pub get_any-IsHarmless :
    (name : String) (tool : Tool (Shared ℕ)) → get registry name ≡ some tool → IsHarmless tool
unfolding get
get_any-IsHarmless name tool h = at ("fs.write" === name) h
  where
    at :
        (b : Bool)
        → (elim b as (λ _. Option (Tool (Shared ℕ))) [ true ↦ some write_tool | false ↦ none ])
          ≡ some tool
        → IsHarmless tool
    at true k = subst IsHarmless (same k) (λ input context. Moves-throw Quiet-order forbidden)
      where
        same : some write_tool ≡ some tool → write_tool ≡ tool
        same e = cc
    at false k = cc

-- ===== src/Memory/Applicability.antt =====
-- src/memory/applicability.ts
pub mod Laws
use autonomous_agent.Common.{
  String, Bool, true, false, Option, none, some, List, [], ◌∷◌, any, includes, ◌<>◌, ◌===◌, ◌||◌,
  if◌then◌else◌, truthy,
}
use autonomous_agent.Async.{Async, pure, ◌>>=◌}
use autonomous_agent.Memory.Records.{
  Precondition, file_exists, tool_available, environment_provider,
}
use autonomous_agent.Memory.Retrieval.{
  PreconditionStatus, holds, violated, unknown, PreconditionCheck, ApplicabilityReport,
}

pub record ApplicabilityProbe (S : Type 0) : Type 0 where
  pub file_exists : String → Async S Bool
  pub tool_names : Option (List String)
  pub environment_provider : Option String

abbrev pub is_violated : PreconditionStatus → Bool
is_violated violated = true
is_violated _ = false

abbrev pub is_unknown : PreconditionStatus → Bool
is_unknown unknown = true
is_unknown _ = false

abbrev pub file_check : Precondition → String → Bool → PreconditionCheck
file_check p path exists = record {
  precondition = p;
  status = if exists then holds else violated;
  evidence = if exists then path <> " exists" else path <> " does not exist in this environment";
}

-- the case `tool_available`, by the probe's list of tools
abbrev pub tool_check : Precondition → String → Option (List String) → PreconditionCheck
tool_check p name none = record {
  precondition = p;
  status = unknown;
  evidence = "tool list unavailable; cannot check " <> name;
}
tool_check p name (some names) = record {
  precondition = p;
  status = if includes names name then holds else violated;
  evidence =
      if includes names name then name <> " is available" else name <> " is not in the tool list";
}

-- the case `environment_provider`, by the probe's provider
abbrev pub provider_check : Precondition → String → Option String → PreconditionCheck
provider_check p wanted none = record {
  precondition = p;
  status = unknown;
  evidence = "environment provider unavailable";
}
provider_check p wanted (some actual) = record {
  precondition = p;
  status = if actual === wanted then holds else violated;
  evidence =
      if actual === wanted
      then "environment is " <> wanted
      else "environment is " <> actual <> ", record assumed " <> wanted;
}

module _ {S : Type 0} (probe : ApplicabilityProbe S) where
  unfoldable pub check_one : Precondition → Async S PreconditionCheck
  check_one (file_exists path) = do
    exists ← probe.file_exists path
    pure (file_check (file_exists path) path exists)
  check_one (tool_available name) = pure (tool_check (tool_available name) name probe.tool_names)
  check_one (environment_provider wanted) =
      pure (provider_check (environment_provider wanted) wanted (truthy probe.environment_provider))

  -- the loop of `assessPreconditions`
  unfoldable pub check_each : List Precondition → Async S (List PreconditionCheck)
  check_each [] = pure []
  check_each (p ∷ ps) = do check ← check_one p; checks ← check_each ps; pure (check ∷ checks)

abbrev pub report_status : List PreconditionCheck → PreconditionStatus
report_status checks =
    if any (λ c. is_violated c.status) checks
    then violated
    else if any (λ c. is_unknown c.status) checks
    then unknown
    else holds

module _ {S : Type 0} (probe : ApplicabilityProbe S) where
  unfoldable pub assess_preconditions : Option (List Precondition) → Async S ApplicabilityReport
  assess_preconditions none = pure (record { status = unknown; checks = [] })
  assess_preconditions (some []) = pure (record { status = unknown; checks = [] })
  assess_preconditions (some (p ∷ ps)) = do
    checks ← check_each probe (p ∷ ps)
    pure (record { status = report_status checks; checks = checks })

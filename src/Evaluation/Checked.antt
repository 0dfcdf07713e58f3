-- ===== src/Evaluation/Checked.antt =====
-- What the check of a criterion of src/evaluation/deterministic-evaluator.ts says, by the criterion,
-- the observations and a world that the environment answers from.
use autonomous_agent.Common.{
  ◌==◌, ◌&&◌, is_some, subst, Bool-cases, inl, inr, ℕ, suc, ◌≡◌, ◌↔◌, refl, sym, ◌∙◌, ap, String,
  Bool, true, false, Option, none, some, List, [], ◌∷◌, length, last?, keep, All, not, all,
  if◌then◌else◌,
}
use autonomous_agent.Common.Scan.{contains_text}
use autonomous_agent.Async.{Async, pure, ◌>>=◌}
use autonomous_agent.Async.Returns.{Returns, Returns-pure, Returns-bind}
use autonomous_agent.Domain.Value.{Value, num, str, bool, undefined, null, unserializable, obj, arr}
use autonomous_agent.Domain.Goal.{
  VerifiableCriterion, file_exists, file_contains, json_file, command_exits_zero, http_status,
  tool_succeeded,
}
use autonomous_agent.Agent.Environment.{ExecutionEnvironment, CommandResult}
use autonomous_agent.Domain.Tool.{Observation}
use autonomous_agent.Agent.Contracts.{EvaluationCheck, EvaluationScope}
use autonomous_agent.Evaluation.Checks.{
  is_zero_exit, latest_status, is_ok, name_ok, required_check, compare_status, succeeded_check,
  is_decisive, json_check, http_status_check, command_result_check, tool_succeeded_check,
  keys_check, has_key, absent_check,
}
use autonomous_agent.Evaluation.Evaluator.{
  in_environment, with_content, run_criterion, run_criteria,
}

-- what an environment says, when it always says the same
pub record World : Type 0 where
  pub exists : String → Bool
  pub content : String → String
  pub result : String → CommandResult

pub record Knows {S : Type 0} (world : World) (e : ExecutionEnvironment S) : Type 0 where
  pub exists : (path : String) → Returns (λ b. b ≡ world.exists path) (e.file_exists path)
  pub content : (path : String) → Returns (λ t. t ≡ world.content path) (e.read_file path)
  pub result : (command : String) → Returns (λ r. r ≡ world.result command) (e.run_command command)

-- a parsed file has the keys that are asked for
abbrev pub json_accepts : Option Value → Option (List String) → Bool
json_accepts none required = false
json_accepts (some v) none = true
json_accepts (some v) (some []) = true
json_accepts (some (obj fs)) (some (k ∷ ks)) = all (has_key fs) (k ∷ ks)
json_accepts (some _) (some (k ∷ ks)) = false

abbrev pub is_status : ℕ → Option ℕ → Bool
is_status expected none = false
is_status expected (some status) = status == expected

abbrev pub has_succeeded : Option String → Option Observation → Bool
has_succeeded wanted none = false
has_succeeded wanted (some last) =
    is_ok last.tool_result.status && name_ok wanted last.tool_result.tool_name

abbrev pub name_of : VerifiableCriterion → String
name_of (file_exists path) = "file exists"
name_of (file_contains path marker) = "file contains"
name_of (json_file path required) = "json file"
name_of (command_exits_zero command) = "command exits 0"
name_of (http_status status) = "http status"
name_of (tool_succeeded wanted) = "tool succeeded"

-- The criterion holds of the world and of the observations; `inspected` says that there is an environment.
abbrev pub holds_of :
    (String → Option Value) → World → List Observation → Bool → VerifiableCriterion → Bool
holds_of json_parse w seen inspected (file_exists path) = inspected && w.exists path
holds_of json_parse w seen inspected (file_contains path marker) =
    inspected && (w.exists path && contains_text (w.content path) marker)
holds_of json_parse w seen inspected (json_file path required) =
    inspected && (w.exists path && json_accepts (json_parse (w.content path)) required)
holds_of json_parse w seen inspected (command_exits_zero command) =
    inspected && (is_zero_exit (w.result command).exit_code && not (w.result command).timed_out)
holds_of json_parse w seen inspected (http_status status) =
    is_status status (latest_status (last? seen))
holds_of json_parse w seen inspected (tool_succeeded wanted) = has_succeeded wanted (last? seen)

-- the check is about the criterion, passes if the criterion holds, and counts
pub record IsCheckOf (holding : Bool) (c : VerifiableCriterion) (check : EvaluationCheck)
    : Type 0 where
  pub named : check.name ≡ name_of c
  pub passed : check.passed ≡ holding
  pub counts : is_decisive check ≡ true

none_missing :
    (path : String) (required : List String) (has : String → Bool) (ks : List String)
    → (keys_check path required (keep (λ key. not (has key)) ks)).passed ≡ all has ks
none_missing path required has [] = refl
none_missing path required has (k ∷ ks) = elim (Bool-cases (has k)) [
  | inl e ↦ rw (keep, all, e) (none_missing path required has ks)
  | inr e ↦ rw (keep, all, e) refl
]

keys_check-is :
    (path : String) (required missing : List String)
    → ((keys_check path required missing).name ≡ "json file")
      × (is_decisive (keys_check path required missing) ≡ true)
keys_check-is path required [] = (refl, refl)
keys_check-is path required (m ∷ ms) = (refl, refl)

required_check-IsCheckOf :
    (path : String) (k : String) (ks : List String) (v : Value)
    → IsCheckOf
        (json_accepts (some v) (some (k ∷ ks)))
        (json_file path (some (k ∷ ks)))
        (required_check path (k ∷ ks) v)
required_check-IsCheckOf path k ks (obj fs) =
    let is = keys_check-is path (k ∷ ks) (keep (λ key. not (has_key fs key)) (k ∷ ks)) in
    record {
      named = is.0;
      passed = none_missing path (k ∷ ks) (has_key fs) (k ∷ ks);
      counts = is.1;
    }
required_check-IsCheckOf path k ks (num n) = record { named = refl; passed = refl; counts = refl }
required_check-IsCheckOf path k ks (str t) = record { named = refl; passed = refl; counts = refl }
required_check-IsCheckOf path k ks (bool b) = record { named = refl; passed = refl; counts = refl }
required_check-IsCheckOf path k ks undefined = record { named = refl; passed = refl; counts = refl }
required_check-IsCheckOf path k ks null = record { named = refl; passed = refl; counts = refl }
required_check-IsCheckOf path k ks unserializable = record {
  named = refl;
  passed = refl;
  counts = refl;
}
required_check-IsCheckOf path k ks (arr vs) = record { named = refl; passed = refl; counts = refl }

json_check-IsCheckOf :
    (path : String) (required : Option (List String)) (v : Option Value)
    → IsCheckOf (json_accepts v required) (json_file path required) (json_check path required v)
unfolding json_check
json_check-IsCheckOf path required none = record { named = refl; passed = refl; counts = refl }
json_check-IsCheckOf path none (some v) = record { named = refl; passed = refl; counts = refl }
json_check-IsCheckOf path (some []) (some v) = record { named = refl; passed = refl; counts = refl }
json_check-IsCheckOf path (some (k ∷ ks)) (some v) = required_check-IsCheckOf path k ks v

http_status_check-IsCheckOf :
    (status : ℕ) (seen : List Observation)
    → IsCheckOf
        (is_status status (latest_status (last? seen)))
        (http_status status)
        (http_status_check status seen)
unfolding http_status_check
http_status_check-IsCheckOf status seen = at (latest_status (last? seen))
  where
    at :
        (o : Option ℕ)
        → IsCheckOf (is_status status o) (http_status status) (compare_status status o)
    at none = record { named = refl; passed = refl; counts = refl }
    at (some n) = record { named = refl; passed = refl; counts = refl }

tool_succeeded_check-IsCheckOf :
    (wanted : Option String) (seen : List Observation)
    → IsCheckOf
        (has_succeeded wanted (last? seen))
        (tool_succeeded wanted)
        (tool_succeeded_check wanted seen)
unfolding tool_succeeded_check
tool_succeeded_check-IsCheckOf wanted seen = at (last? seen)
  where
    at :
        (o : Option Observation)
        → IsCheckOf (has_succeeded wanted o) (tool_succeeded wanted) (succeeded_check wanted o)
    at none = record { named = refl; passed = refl; counts = refl }
    at (some last) = record { named = refl; passed = refl; counts = refl }

command_result_check-IsCheckOf :
    (command : String) (r : CommandResult)
    → IsCheckOf
        (is_zero_exit r.exit_code && not r.timed_out)
        (command_exits_zero command)
        (command_result_check r)
unfolding command_result_check
command_result_check-IsCheckOf command r = record { named = refl; passed = refl; counts = refl }

module _ {S : Type 0} (world : World) where
  with_content-IsCheckOf :
      (c : VerifiableCriterion) (path : String) (e : ExecutionEnvironment S)
      (check : String → EvaluationCheck) (f : String → Bool)
      → Knows world e
      → ((content : String) → IsCheckOf (f content) c (check content))
      → Returns
          (IsCheckOf (world.exists path && f (world.content path)) c)
          (with_content (name_of c) path e check)
  with_content-IsCheckOf c path e check f k h =
      Returns-bind (λ b. b ≡ world.exists path) _ _ _ (k.exists path)
        λ exists same.
          subst
            (λ b. Returns (IsCheckOf (b && f (world.content path)) c) (
              if exists
              then (e.read_file path >>= λ content. pure (check content))
              else pure (absent_check (name_of c) path)))
            same (by_existence exists)
    where
      by_existence :
          (exists : Bool)
          → Returns (IsCheckOf (exists && f (world.content path)) c) (
              if exists
              then (e.read_file path >>= λ content. pure (check content))
              else pure (absent_check (name_of c) path))
      by_existence false = Returns-pure _ _ (record { named = refl; passed = refl; counts = refl })
      by_existence true =
          Returns-bind (λ t. t ≡ world.content path) _ _ _ (k.content path)
            λ content same.
              Returns-pure _ _ (subst (λ t. IsCheckOf (f t) c (check content)) same (h content))

module _ {S : Type 0} (json_parse : String → Option Value) (world : World)
    (scope : EvaluationScope S) where
  -- whether the criterion holds in the scope
  abbrev pub holds_in : VerifiableCriterion → Bool
  holds_in = holds_of json_parse world scope.observations (is_some scope.environment)

  in_environment-IsCheckOf :
      (c : VerifiableCriterion) (subject : String) (o : Option (ExecutionEnvironment S))
      (inspect : ExecutionEnvironment S → Async S EvaluationCheck)
      → holds_of json_parse world scope.observations false c ≡ false
      → ((e : ExecutionEnvironment S)
          → o ≡ some e
          → Returns (IsCheckOf (holds_of json_parse world scope.observations true c) c) (inspect e))
      → Returns
          (IsCheckOf (holds_of json_parse world scope.observations (is_some o) c) c)
          (in_environment (name_of c) subject o inspect)
  in_environment-IsCheckOf c subject none inspect blind h =
      Returns-pure _ _ (record { named = refl; passed = sym blind; counts = refl })
  in_environment-IsCheckOf c subject (some e) inspect blind h = h e refl

  module _ (known : (e : ExecutionEnvironment S) → scope.environment ≡ some e → Knows world e) where
    run_criterion-IsCheckOf :
        (c : VerifiableCriterion)
        → Returns (IsCheckOf (holds_in c) c) (run_criterion json_parse c scope)
    unfolding run_criterion
    run_criterion-IsCheckOf (file_exists path) =
        in_environment-IsCheckOf (file_exists path) path scope.environment _ refl λ e here.
          Returns-bind (λ b. b ≡ world.exists path) _ _ _ ((known e here).exists path)
            λ exists same. Returns-pure _ _ (record { named = refl; passed = same; counts = refl })
    run_criterion-IsCheckOf (file_contains path marker) =
        in_environment-IsCheckOf (file_contains path marker) path scope.environment _ refl λ e here.
          with_content-IsCheckOf world (file_contains path marker) path e _
            (λ content. contains_text content marker) (known e here)
            (λ content. record { named = refl; passed = refl; counts = refl })
    run_criterion-IsCheckOf (json_file path required) =
        in_environment-IsCheckOf (json_file path required) path scope.environment _ refl λ e here.
          with_content-IsCheckOf world (json_file path required) path e _
            (λ content. json_accepts (json_parse content) required) (known e here)
            (λ content. json_check-IsCheckOf path required (json_parse content))
    run_criterion-IsCheckOf (command_exits_zero command) =
        in_environment-IsCheckOf (command_exits_zero command) command scope.environment _ refl
          λ e here.
            Returns-bind (λ r. r ≡ world.result command) _ _ _ ((known e here).result command)
              λ r same. Returns-pure _ _ (
                subst
                  (λ q.
                    IsCheckOf (is_zero_exit q.exit_code && not q.timed_out)
                      (command_exits_zero command) (command_result_check r))
                  same (command_result_check-IsCheckOf command r))
    run_criterion-IsCheckOf (http_status status) =
        Returns-pure _ _ (http_status_check-IsCheckOf status scope.observations)
    run_criterion-IsCheckOf (tool_succeeded wanted) =
        Returns-pure _ _ (tool_succeeded_check-IsCheckOf wanted scope.observations)

  -- the criteria have one check each, in their order
  abbrev pub Checks : List VerifiableCriterion → List EvaluationCheck → Type 0
  Checks [] [] = Unit
  Checks (c ∷ cs) (check ∷ checks) = IsCheckOf (holds_in c) c check × Checks cs checks
  Checks _ _ = ⊥

  pub Checks-counted :
      (cs : List VerifiableCriterion) (checks : List EvaluationCheck)
      → Checks cs checks
      → (length checks ≡ length cs) × All (λ c. is_decisive c ≡ true) checks
  Checks-counted [] [] h = (refl, tt)
  Checks-counted (c ∷ cs) (check ∷ checks) (h, hs) =
      let rest = Checks-counted cs checks hs in (ap suc rest.0, (h.counts, rest.1))
  Checks-counted [] (check ∷ checks) h = absurd h
  Checks-counted (c ∷ cs) [] h = absurd h

  pub Checks-passed :
      (cs : List VerifiableCriterion) (checks : List EvaluationCheck)
      → Checks cs checks
      → All (λ c. c.passed ≡ true) checks ↔ All (λ c. holds_in c ≡ true) cs
  Checks-passed [] [] h = (λ a. a, λ a. a)
  Checks-passed (c ∷ cs) (check ∷ checks) (h, hs) =
      let rest = Checks-passed cs checks hs in
      (λ a. (sym h.passed ∙ a.0, rest.0 a.1), λ a. (h.passed ∙ a.0, rest.1 a.1))
  Checks-passed [] (check ∷ checks) h = absurd h
  Checks-passed (c ∷ cs) [] h = absurd h

  pub run_criteria-Checks :
      (known : (e : ExecutionEnvironment S) → scope.environment ≡ some e → Knows world e)
      (cs : List VerifiableCriterion)
      → Returns (Checks cs) (run_criteria json_parse cs scope)
  unfolding run_criteria
  run_criteria-Checks known [] = Returns-pure _ _ tt
  run_criteria-Checks known (c ∷ cs) =
      Returns-bind (IsCheckOf (holds_in c) c) _ _ _ (run_criterion-IsCheckOf known c) λ check h.
        Returns-bind (Checks cs) _ _ _ (run_criteria-Checks known cs)
          λ checks hs. Returns-pure _ _ (h, hs)

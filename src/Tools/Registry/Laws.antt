-- ===== src/Tools/Registry/Laws.antt =====
-- The registry as a map from names, and what a call of a tool answers.
use autonomous_agent.Common.{
  ◌≡◌, ◌↔◌, ◌⊎◌, refl, ◌∙◌, subst, String, Bool, true, false, ◌===◌, ◌<>◌, Option, none, some, [],
  ◌∷◌, ◌++◌, find, is_some, if◌then◌else◌, arith, Bool-cases, inl, inr, eq_iff,
}
use autonomous_agent.Async.{Settled, fulfilled, rejected, error_of}
use autonomous_agent.Async.Always.{
  Always, Sure, Always-pure, Always-settle, Always-catch, Always-bind,
}
use autonomous_agent.Domain.Value.{Value}
use autonomous_agent.Domain.Thrown.{Thrown, environment_error, not_found, permission_denied}
use autonomous_agent.Domain.Tool.{ToolResult}
use autonomous_agent.Models.Contracts.{ParseResult, parse_ok, parse_fail}
use autonomous_agent.Session.Core.{Host, Shared, clock_now, clock_ms}
use autonomous_agent.Tools.Registry.{
  Tool, ToolContext, Registry, get, has, register, call_found, call_parsed, guarded_call,
  describe_failure, invoke_tool,
}

module _ {S : Type 0} where
  find-append :
      (p : Tool S → Bool) (xs : Registry S) (t : Tool S)
      → find p (xs ++ t ∷ []) ≡ (elim (find p xs) as (λ _. Option (Tool S)) [
        | some u ↦ some u
        | none ↦ if p t then some t else none
      ])
  find-append p [] t = ground arith
  find-append p (x ∷ xs) t = elim (Bool-cases (p x)) [
    | inl h ↦ rw (find, h) refl
    | inr h ↦ rw (find, h) (find-append p xs t)
  ]

  chosen :
      (t : Tool S) (o : Option (Tool S)) (b : Bool)
      → (b ≡ true → is_some o ≡ false)
      → (elim o as (λ _. Option (Tool S)) [ some u ↦ some u | none ↦ if b then some t else none ])
        ≡ (if b then some t else o)
  chosen t none b h = refl
  chosen t (some u) true h = let e = h refl in cc
  chosen t (some u) false h = refl

  -- what registering a tool settles to
  abbrev pub Registers : Registry S → Tool S → Settled (Registry S) → Type 0
  Registers registry tool (fulfilled next) =
      (has registry tool.name ≡ false)
      × ((name : String)
          → get next name ≡ (if tool.name === name then some tool else get registry name))
  Registers registry tool (rejected e) =
      (has registry tool.name ≡ true)
      × (e ≡ error_of ("Tool \"" <> tool.name <> "\" is already registered"))

  added_is_new :
      (registry : Registry S) (tool : Tool S) (name : String)
      → has registry tool.name ≡ false
      → (tool.name === name) ≡ true
      → is_some (get registry name) ≡ false
  added_is_new registry tool name free same =
      subst (λ n. is_some (get registry n) ≡ false) ((eq_iff tool.name name).0 same) free

  -- Registering a tool under a free name always succeeds, adds it, and changes no other name; under a
  -- name that is taken it is refused.
  pub register-Registers :
      (registry : Registry S) (tool : Tool S) → Registers registry tool (register registry tool)
  unfolding register get
  register-Registers registry tool = elim (Bool-cases (has registry tool.name)) [
    | inl taken ↦ rw (register, taken) (taken, refl)
    | inr free ↦
        rw (register, free)
          (
            free,
            λ name.
                find-append (λ t. t.name === name) registry tool
                ∙ chosen tool (get registry name) (tool.name === name)
                    (added_is_new registry tool name free),
          )
  ]

  -- a tool whose `parseInput` reports every problem and never throws
  abbrev pub ParsesAll : Tool S → Type 0
  ParsesAll tool = (raw : Value) → Sure (λ _. Unit) (tool.parse_input raw)

  guarded_call-Always :
      (tool : Tool S) (input : Value) (context : ToolContext S)
      → Always (λ _. Unit) (guarded_call tool input context)
  unfolding guarded_call
  guarded_call-Always tool input context = Always-catch _ _ (λ e. Always-pure _ _ tt)

  call_parsed-Always :
      (name : String) (tool : Tool S) (parsed : ParseResult Value) (context : ToolContext S)
      → Always (λ _. Unit) (call_parsed name tool parsed context)
  unfolding call_parsed
  call_parsed-Always name tool (parse_fail errors) context = Always-pure _ _ tt
  call_parsed-Always name tool (parse_ok input) context = guarded_call-Always tool input context

  call_found-Always :
      (name : String) (found : Option (Tool S)) (raw : Value) (context : ToolContext S)
      → ((tool : Tool S) → found ≡ some tool → ParsesAll tool)
      → Always (λ _. Unit) (call_found name found raw context)
  unfolding call_found
  call_found-Always name none raw context h = Always-pure _ _ tt
  call_found-Always name (some tool) raw context h =
      Always-bind (λ _. Unit) _ _ _ (Always-settle _ (tool.parse_input raw) (h tool refl raw))
        λ parsed _. call_parsed-Always name tool parsed context

-- a result for that name and action
abbrev pub AnswersCall : String → String → ToolResult → Type 0
AnswersCall name action_id r = (r.tool_name ≡ name) × (r.action_id ≡ action_id)

module _ {X : Type 0} (host : Host X) where
  clock_now-Always : Always (λ _. Unit) (clock_now host)
  unfolding clock_now
  clock_now-Always = record { at = λ s. tt }

  clock_ms-Always : Always (λ _. Unit) (clock_ms host)
  unfolding clock_ms
  clock_ms-Always = record { at = λ s. tt }

  -- A call of a tool never throws, whatever the tool throws: if the tool of that name parses every
  -- input, or if there is none, `invokeTool` returns a result for that name and action.
  pub invoke_tool-Always :
      (registry : Registry (Shared X)) (name : String) (raw : Value)
      (context : ToolContext (Shared X))
      → ((tool : Tool (Shared X)) → get registry name ≡ some tool → ParsesAll tool)
      → Always (AnswersCall name context.action_id) (invoke_tool host registry name raw context)
  unfolding invoke_tool
  invoke_tool-Always registry name raw context h = Always-bind _ _ _ _ clock_now-Always λ a _.
      Always-bind _ _ _ _ clock_ms-Always λ b _.
        Always-bind _ _ _ _ (call_found-Always name (get registry name) raw context h) λ status _.
          Always-bind _ _ _ _ clock_now-Always
            λ d _. Always-bind _ _ _ _ clock_ms-Always λ e _. Always-pure _ _ (refl, refl)

-- What a tool throws is described as worth a retry unless it is the environment saying that something
-- does not exist or is forbidden.
pub describe_failure-retryable_iff :
    (e : Thrown)
    → ((describe_failure e).retryable ≡ false)
      ↔ ((e.class ≡ environment_error not_found) ⊎ (e.class ≡ environment_error permission_denied))
unfolding describe_failure
describe_failure-retryable_iff e = ground arith

-- ===== src/Agent/Executor/Laws.antt =====
-- What the executor promises to the runtime.
use autonomous_agent.Common.{◌≡◌, refl, arith, String, Option, none, some}
use autonomous_agent.Async.Moves.{Moves, Moves-bind, Moves-pure, Moves-settle, Moves-catch}
use autonomous_agent.Async.Always.{Always, Always-pure, Always-bind}
use autonomous_agent.Domain.Value.{Value}
use autonomous_agent.Domain.Tool.{AgentAction, Observation, ToolResult}
use autonomous_agent.Session.Usage.{tool_calls}
use autonomous_agent.Session.Core.{Host, Shared, emit, count_one, on_session, next_id, clock_now}
use autonomous_agent.Session.Log.{ending_of}
use autonomous_agent.Agent.Environment.{ExecutionEnvironment}
use autonomous_agent.Models.Contracts.{ParseResult, parse_ok, parse_fail}
use autonomous_agent.Tools.Registry.{
  Tool, ToolContext, Registry, get, perform_call, guarded_call, call_parsed, call_found,
  invoke_tool,
}
use autonomous_agent.Tools.Registry.Laws.{ParsesAll, AnswersCall, invoke_tool-Always}
use autonomous_agent.Agent.Executor.{execute, observe, call_ended, produced}
use autonomous_agent.Runtime.Frame.Quiet.{Quiet, Quiet-order}
use autonomous_agent.Runtime.Frame.Methods.{
  next_id-Quiet, clock_now-Quiet, clock_ms-Quiet, emit-Quiet, count_one-Quiet,
}

module _ {X : Type 0} where
  -- a tool that neither ends the run nor touches its limits, its iterations and its memory counters
  abbrev pub IsHarmless : Tool (Shared X) → Type 0
  IsHarmless tool =
      (input : Value) (context : ToolContext (Shared X)) → Moves Quiet (tool.execute input context)

  perform_call-Quiet :
      (tool : Tool (Shared X)) (input : Value) (context : ToolContext (Shared X))
      → IsHarmless tool
      → Moves Quiet (perform_call tool input context)
  unfolding perform_call
  perform_call-Quiet tool input context h = Moves-bind Quiet-order _ _ (h input context) λ output.
      Moves-bind Quiet-order _ _ (Moves-settle Quiet-order _) λ artifacts. Moves-pure Quiet-order _

  call_parsed-Quiet :
      (name : String) (tool : Tool (Shared X)) (parsed : ParseResult Value)
      (context : ToolContext (Shared X))
      → IsHarmless tool
      → Moves Quiet (call_parsed name tool parsed context)
  unfolding call_parsed guarded_call
  call_parsed-Quiet name tool (parse_fail errors) context h = Moves-pure Quiet-order _
  call_parsed-Quiet name tool (parse_ok input) context h =
      Moves-catch Quiet-order _ _ (perform_call-Quiet tool input context h)
        (λ e. Moves-pure Quiet-order _)

  call_found-Quiet :
      (name : String) (found : Option (Tool (Shared X))) (raw : Value)
      (context : ToolContext (Shared X))
      → ((tool : Tool (Shared X)) → found ≡ some tool → IsHarmless tool)
      → Moves Quiet (call_found name found raw context)
  unfolding call_found
  call_found-Quiet name none raw context h = Moves-pure Quiet-order _
  call_found-Quiet name (some tool) raw context h =
      Moves-bind Quiet-order _ _ (Moves-settle Quiet-order _)
        (λ parsed. call_parsed-Quiet name tool parsed context (h tool refl))

-- what the runtime may read off an observation of an action
pub record Observes (action : AgentAction) (o : Observation) : Type 0 where
  pub same_action : o.action_id ≡ action.action_id
  pub same_tool : o.tool_result.tool_name ≡ action.tool_name
  pub placed : o.correlation ≡ action.correlation
  pub artifacts : o.artifacts ≡ produced o.tool_result.status

module _ {X : Type 0} (host : Host X) (registry : Registry (Shared X)) where
  invoke_tool-Quiet :
      (name : String) (raw : Value) (context : ToolContext (Shared X))
      → ((tool : Tool (Shared X)) → get registry name ≡ some tool → IsHarmless tool)
      → Moves Quiet (invoke_tool host registry name raw context)
  unfolding invoke_tool
  invoke_tool-Quiet name raw context h = Moves-bind Quiet-order _ _ (clock_now-Quiet host) λ a.
      Moves-bind Quiet-order _ _ (clock_ms-Quiet host) λ b.
        Moves-bind Quiet-order _ _ (call_found-Quiet name (get registry name) raw context h)
          λ status.
            Moves-bind Quiet-order _ _ (clock_now-Quiet host)
              λ d. Moves-bind Quiet-order _ _ (clock_ms-Quiet host) λ e. Moves-pure Quiet-order _

  ended_quietly :
      (action : AgentAction) (r : ToolResult) (summary : String)
      → ending_of (call_ended action r summary) ≡ none
  ended_quietly action r summary = ground arith

  observe-Quiet : (action : AgentAction) (r : ToolResult) → Moves Quiet (observe host action r)
  unfolding observe
  observe-Quiet action r = Moves-bind Quiet-order _ _ (next_id-Quiet host "obs") λ id.
      Moves-bind Quiet-order _ _ (clock_now-Quiet host) λ time.
        Moves-bind Quiet-order _ _ (emit-Quiet host _ _ (ended_quietly action r _))
          λ _. Moves-pure Quiet-order _

  -- An executor whose tools are harmless keeps to the contract that the runtime puts on an executor.
  pub execute-Quiet :
      (environment : ExecutionEnvironment (Shared X)) (action : AgentAction)
      → ((tool : Tool (Shared X)) → get registry action.tool_name ≡ some tool → IsHarmless tool)
      → Moves Quiet (execute host registry environment action)
  unfolding execute
  execute-Quiet environment action h = Moves-bind Quiet-order _ _ (emit-Quiet host _ _ refl) λ _.
      Moves-bind Quiet-order _ _ (count_one-Quiet tool_calls tt) λ _.
        Moves-bind Quiet-order _ _ (invoke_tool-Quiet action.tool_name action.input _ h)
          λ result. observe-Quiet action result

  -- Executing an action never throws, whatever the tool throws, if the tool of that name parses every
  -- input; the observation is of that action and tool, and has artifacts only from a call that
  -- returned.
  pub execute-Always :
      (environment : ExecutionEnvironment (Shared X)) (action : AgentAction)
      → ((tool : Tool (Shared X)) → get registry action.tool_name ≡ some tool → ParsesAll tool)
      → Always (Observes action) (execute host registry environment action)
  unfolding execute observe emit count_one on_session next_id clock_now
  execute-Always environment action h =
      Always-bind (λ _. Unit) _ _ _ (record { at = λ s. tt })
        λ _ _.
          Always-bind (λ _. Unit) _ _ _ (record { at = λ s. tt })
            λ _ _.
              Always-bind (AnswersCall action.tool_name action.action_id) _ _ _
                (invoke_tool-Always host registry action.tool_name action.input _ h)
                λ result answered.
                  Always-bind (λ _. Unit) _ _ _ (record { at = λ s. tt })
                    λ id _.
                      Always-bind (λ _. Unit) _ _ _ (record { at = λ s. tt })
                        λ time _.
                          Always-bind (λ _. Unit) _ _ _ (record { at = λ s. tt })
                            λ _ _. Always-pure _ _ (record {
                              same_action = refl;
                              same_tool = answered.0;
                              placed = refl;
                              artifacts = refl;
                            })

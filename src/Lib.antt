-- ===== src/Lib.antt =====
-- Verification of the autonomous agent: the control loop that turns a goal into a plan, acts, has the
-- result judged, learns from it and tries again, with the parts that it is made of.
--
-- The program. `AgentRuntime.run` (src/agent/runtime/agent-runtime.ts) retrieves memory, asks the planner
-- for a plan and then loops: it stops when a limit is reached, takes the next task of the plan, and asks
-- the selector for an action. An action is executed, observed and evaluated; the learner's records go to
-- memory; a failure makes the planner revise the plan. All components share one `RunSession`
-- (src/agent/runtime/run-session.ts), which stamps identifiers, events and counters.
--
-- Which file models which part:
-- - Domain: the data of src/domain, a module for each of its files; Domain.Value is JSON, Domain.Thrown
--   the errors that a handler tells apart; Domain.Provenance has `mergeProvenance`.
-- - Events: src/events/contracts.ts, the payloads that the runtime and the session emit.
-- - Session: Session.Core is `RunSession` with the event factory (src/events/factory.ts), Session.Usage
--   is src/agent/runtime/run-usage.ts, Session.Working is src/memory/working.ts, and Session.Log says
--   what can be read off the events.
-- - Memory: the records and retrieval results of src/memory, `assessPreconditions` in
--   Memory.Applicability, and the interfaces of the stores in Memory.Store. Memory.Lexical, Memory.Hybrid
--   and Memory.Suppressed are the retrievers (src/memory/lexical-retriever.ts, hybrid-retriever.ts,
--   suppressed-retriever.ts); Memory.Ranking is `compareHits` and `rankHits` of the first two, and
--   Memory.Indexed is src/memory/indexed-memory-store.ts.
-- - Agent: the interfaces of the components (src/agent/contracts.ts, src/evaluation/contracts.ts,
--   src/sandbox/execution-environment.ts), and the components themselves: Agent.Proposal and Agent.Planner
--   are src/agent/planner.ts, Agent.Prompting is prompting.ts, Agent.Selector action-selector.ts,
--   Agent.Learner learner.ts and Agent.Ingestor knowledge-ingestor.ts. Domain.Parse is
--   src/domain/parse.ts.
-- - Runtime: src/agent/runtime/agent-runtime.ts. Runtime.State has the fields and helpers of
--   `AgentRuntime`, Runtime.Retrieve, Runtime.Planning, Runtime.Attempt and Runtime.Loop its methods, and
--   Runtime.PlanTasks is plan-tasks.ts. Runtime.Frame has the contract that the components keep to and
--   what the methods leave as it is; Runtime.Ending follows a run to its end.
--   Runtime.Creation is create-run.ts, which puts all of it together; Runtime.Assembly puts the
--   executor and the deterministic evaluator among components of any kind.
-- - Evaluation: Evaluation.Criteria is src/domain/criteria.ts; Evaluation.Checks and
--   Evaluation.Evaluator are src/evaluation/deterministic-evaluator.ts; Evaluation.Checked compares
--   the check of a criterion with the criterion.
-- - Tools: Tools.Registry is src/tools/registry.ts with src/tools/contracts.ts, Tools.Paths is
--   src/tools/support/workspace-path.ts, Tools.Shell is shell.ts and output.ts beside it; Agent.Executor is
--   src/agent/executor.ts.
-- - Models: Models.Contracts is src/models/contracts.ts with errors.ts, Models.Resilient is
--   src/models/resilient-provider.ts, Models.Instrumented is src/models/instrumented-provider.ts.
-- - Async models the methods that are awaited: state passing with a thrown error, the rules for a relation
--   that every method keeps (Async.Moves), for what a method returns (Async.Returns) and for methods that
--   never throw (Async.Always).
-- - Common has the shared helpers, Tests the concrete runs and values.
--
-- Representation. A component is a function from its input and the state that it shares with the runtime,
-- the session and an outside world of any type, to a value or a thrown error and the new state. So the
-- components see every change that the runtime makes to the session, and what was changed before an error
-- stays changed. A thrown value may be `null` or `undefined` (the class nothing_thrown of Domain.Thrown),
-- of which the handler of `run` cannot read a field. Identifiers are texts; a text is a sequence of code points, where the source counts UTF-16
-- units. Counters and times are natural numbers; scores are signed numbers and confidences hundredths in
-- fixed point.
--
-- Fuel. The `while` of the loop takes fuel. A round either ends the run, throws, or counts one iteration,
-- so max_iterations + 1 rounds are enough, and `run` has that much. The loops of the resilient provider
-- recurse on what is left of their budgets.
--
-- Arguments. The clock and the generator of identifiers are a `Host`. `JSON.parse` and `Number` of the
-- language are arguments of the evaluator; the host name of a URL is one of the ingestor, the lower-case
-- words of a text one of the retrievers, the arithmetic of scores one of the hybrid retriever, and
-- `setTimeout` a field `timer` of the configuration of a run. The model, the store and the semantic index
-- are interfaces. In the theorems on the runtime the other
-- components are any that keep to `IsQuiet`: they neither end the run nor touch its limits, its iterations
-- and its counters of memory, and number the events that they emit through the session.
--
-- Not modelled: the single tools, the databases behind the stores, the sandboxes, the wire format of the
-- providers, the readers of event logs, the command line and the worker. The probes that `Promise.all`
-- starts together in `annotateApplicability` run one after the other. A value that contains itself is
-- not represented; a BigInt is, as the value that `JSON.stringify` refuses.
pub mod Common
pub mod Domain
pub mod Memory
pub mod Async
pub mod Events
pub mod Session
pub mod Agent
pub mod Runtime
pub mod Evaluation
pub mod Models
pub mod Tools
pub mod Tests

-- ===== src/Session.antt =====
-- src/agent/runtime/run-session.ts, run-usage.ts, src/memory/working.ts and src/events/factory.ts: what
-- the components of one run share. The identifiers and the clock, which are injected, and all else
-- outside the run (the sandbox, the stores, the model) are in a state `X` of the host's.
pub mod Usage
pub mod Working
pub mod Core
pub mod Answers
pub mod Log

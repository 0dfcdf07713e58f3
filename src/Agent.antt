-- ===== src/Agent.antt =====
-- src/agent: the contracts of the components that the runtime composes, and their implementations.
pub mod Environment
pub mod Contracts
pub mod Executor
pub mod Prompting
pub mod Planner
pub mod Ingestor
pub mod Learner
pub mod Selector
pub mod Proposal

-- ===== src/Runtime.antt =====
-- src/agent/runtime: the autonomous control loop.
pub mod PlanTasks
pub mod State
pub mod Retrieve
pub mod Planning
pub mod Attempt
pub mod Loop
pub mod Frame
pub mod Ending
pub mod Assembly
pub mod Creation

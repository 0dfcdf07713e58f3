-- ===== src/Tests.antt =====
-- Concrete runs and values: tests, and the applications of the theorems to them.
pub mod Sample
pub mod Runs
pub mod Parts
pub mod Calls
pub mod Acts
pub mod Planning
pub mod Recall

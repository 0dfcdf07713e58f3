-- ===== src/Domain.antt =====
-- src/domain: the data that the components exchange.
pub mod Value
pub mod Parse
pub mod Thrown
pub mod Provenance
pub mod Goal
pub mod Plan
pub mod Run
pub mod Outcome
pub mod Tool

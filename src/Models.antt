-- ===== src/Models.antt =====
-- The model layer, src/models: its interfaces and the bounded recovery around a provider.
pub mod Contracts
pub mod Resilient
pub mod Instrumented

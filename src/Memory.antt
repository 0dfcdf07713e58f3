-- ===== src/Memory.antt =====
-- src/memory: persistent records, retrieval results, applicability, ranking.
pub mod Records
pub mod Retrieval
pub mod Applicability
pub mod Suppressed
pub mod Ranking
pub mod Store
pub mod Lexical
pub mod Hybrid
pub mod Indexed

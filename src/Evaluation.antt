-- ===== src/Evaluation.antt =====
-- Evaluation, src/evaluation, with the grammar of the criteria, src/domain/criteria.ts.
pub mod Criteria
pub mod Checks
pub mod Evaluator
pub mod Checked
pub mod Laws
pub mod Frame

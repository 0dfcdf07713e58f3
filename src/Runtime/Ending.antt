-- ===== src/Runtime/Ending.antt =====
-- How a run ends: what holds after a round of the loop, after the loop, and after `run`.
pub mod Closing
pub mod Rounds
pub mod Run
pub mod Loop
pub mod Whole
pub mod Outcome

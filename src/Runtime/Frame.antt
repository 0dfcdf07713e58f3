-- ===== src/Runtime/Frame.antt =====
-- What the methods of the runtime leave as it is. `Quiet` is what the runtime asks of a component;
-- `Steady` is what a method keeps until it ends the run.
pub mod Quiet
pub mod Methods
pub mod Records
pub mod Steps

-- ===== src/Machine.antt =====
-- state_machine.py: the decision function, one module for each group of its handlers.
pub mod Guards
pub mod Auto
pub mod Manual
pub mod Finalize
pub mod Idle
pub mod Watering
pub mod Soaking
pub mod Fault
pub mod Decide
pub mod Rule
pub mod Safety
pub mod Table
pub mod Shape
pub mod Arbitration
pub mod Extends
pub mod AutoStart
pub mod Recheck
pub mod ManualClamp
pub mod Watchdog

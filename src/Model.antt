-- ===== src/Model.antt =====
-- models.py: the vocabulary of the controller.
pub mod Enums
pub mod Observation
pub mod Session
pub mod Event
pub mod Decision

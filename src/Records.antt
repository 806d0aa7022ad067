-- ===== src/Records.antt =====
-- models.py: the records of the safety store, with the tests of their `__post_init__` methods, each
-- as a Boolean that is true where the constructor raises nothing.
pub mod Dict
pub mod Identity
pub mod History
pub mod Safety
pub mod Data
pub mod Continuity
pub mod Replace

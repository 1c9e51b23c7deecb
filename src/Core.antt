-- ===== src/Core.antt =====
-- scheduler/core: the evaluator, the basic scheduler and the events.
pub mod Floats
pub mod Evaluator
pub mod Ranking
pub mod Basic
pub mod Events
pub mod Service

-- ===== src/Engine.antt =====
-- include/engine/engine.hpp and src/engine/engine.cpp: the continuous-batching scheduler.
pub mod State
pub mod Admit
pub mod Assemble
pub mod Preempt
pub mod Sample
pub mod Step
pub mod Sound
pub mod Stall
pub mod Tests

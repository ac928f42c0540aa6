-- ===== src/Network/Chunks.antt =====
-- A forward pass over a prompt at once, and over its two parts one after the other.
pub mod Layers
pub mod Rows
pub mod Grown
pub mod Attend
pub mod Layer
pub mod Step
pub mod Run
pub mod Forward
pub mod Causal
pub mod Tests

-- ===== src/Network.antt =====
-- include/engine/model.hpp and src/model/model.cpp: the forward passes over named weights.
pub mod State
pub mod Block
pub mod Forward
pub mod Batched
pub mod Quantize
pub mod Fits
pub mod Both
pub mod Simulates
pub mod Paged
pub mod Total
pub mod Covered
pub mod Quantized
pub mod Chunks
pub mod Tests

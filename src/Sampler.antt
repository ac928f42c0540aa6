-- ===== src/Sampler.antt =====
-- include/engine/sampler.hpp and src/sampler/sampler.cpp.
pub mod Argmax
pub mod Sample
pub mod Ordered
pub mod Bounds
pub mod Chosen
pub mod Tests

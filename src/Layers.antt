-- ===== src/Layers.antt =====
-- include/engine/nn.hpp and src/model/nn.cpp: the layers of the CPU forward pass.
pub mod Floats
pub mod Rows
pub mod Linear
pub mod Norm
pub mod Embed
pub mod Rope
pub mod Attention
pub mod Shapes
pub mod Joined
pub mod Tests

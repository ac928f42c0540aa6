-- ===== src/Weights.antt =====
-- The weight files: number formats, the safetensors reader and the model configuration.
pub mod Formats
pub mod Config
pub mod Reader
pub mod Tests

-- ===== src/Layers/Shapes.antt =====
-- The layers on tensors of the right shapes: no exception, no access outside a buffer, and the
-- shape of the result.
pub mod Rows
pub mod Simple
pub mod Positions
pub mod Attended

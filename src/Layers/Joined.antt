-- ===== src/Layers/Joined.antt =====
-- The layers on the rows of two inputs one after the other: the results one after the other.
pub mod Rows
pub mod Simple
pub mod Linear
pub mod Positions
pub mod Attended

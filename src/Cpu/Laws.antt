-- ===== src/Cpu/Laws.antt =====
-- What the instructions compute.
pub mod Codes
pub mod Conditions
pub mod Operands
pub mod Unary
pub mod UnaryByte
pub mod Binary
pub mod BinaryByte

-- ===== src/Cpu/Ops.antt =====
-- The instructions of cpu.c, one definition for each function.
pub mod Alu
pub mod Branch
pub mod Single
pub mod Double
pub mod Control

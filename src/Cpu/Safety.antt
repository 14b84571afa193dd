-- ===== src/Cpu/Safety.antt =====
-- No instruction follows a null pointer or makes memory run over its array, and every register
-- stays within its width.
pub mod Rules
pub mod Access
pub mod Addressing
pub mod Alu
pub mod Single
pub mod Double
pub mod Branch
pub mod Control
pub mod Instruction

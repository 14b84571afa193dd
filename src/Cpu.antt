-- ===== src/Cpu.antt =====
-- src/cpu/cpu.c: the processor. `State` and `Registers` hold `CPU_STATE`, `Access` the reads and
-- writes of registers and memory, `Addressing` the operand modes, `Ops` the instructions and
-- `Decode` the switch that chooses one; the proofs stand below `Laws`.
pub mod State
pub mod Registers
pub mod Access
pub mod Addressing
pub mod Flags
pub mod Ops
pub mod Decode
pub mod Execute
pub mod Safety
pub mod Laws

-- ===== src/Attic.antt =====
-- attic/src: the earlier emulator, one process with the registers in memory.
pub mod State
pub mod Memory
pub mod Registers
pub mod Effects
pub mod Addressing
pub mod Operands
pub mod Branches
pub mod Steps
pub mod Double
pub mod Single
pub mod Control
pub mod Decode
pub mod Run
pub mod Disk
pub mod Agreement
pub mod Start
pub mod Terminal
pub mod Objects

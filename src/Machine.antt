-- ===== src/Machine.antt =====
-- The processor over the data bus and the memory: the whole emulator of cpu and mem.
pub mod Laws
pub mod Reach
pub mod Calls
pub mod Straight

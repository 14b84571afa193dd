-- ===== src/Unibus.antt =====
-- src/libunibus: the data bus. `Types` holds its records, `Master` the functions that a device
-- calls, `DataBus` the thread that moves the messages, and `Link` a processor joined to memory.
pub mod Types
pub mod Master
pub mod DataBus
pub mod Link
pub mod Transfer
pub mod Waiting
pub mod Send

-- ===== src/Priority.antt =====
-- The priority bus of src/libunibus, by which a device becomes master of the data bus. `Types` has
-- its messages and the state of a device, `Wires` the sockets to the neighbours, `Handlers` and
-- `Manager` priority_bus.c, and `Arbiter` bus_arb.c.
pub mod Types
pub mod Wires
pub mod Handlers
pub mod Manager
pub mod History
pub mod Descriptors
pub mod Granting

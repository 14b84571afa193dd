-- ===== src/Examples.antt =====
-- Tests of the definitions on concrete programs, and instances of the theorems.
mod Programs
mod Systems
mod Witnesses
mod BusWitnesses
mod CpuWitnesses
mod ObjectFiles
mod AtticWitnesses

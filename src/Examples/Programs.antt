-- ===== src/Examples/Programs.antt =====
-- Small programs, run on the processor over the data bus and the memory.
use xmachine.Base.{ℕ, ◌≡◌, refl, arith, true, List, [], ◌∷◌, Option, none, some, get_elem?}
use xmachine.Outcome.{Outcome, done}
use xmachine.Mem.{MemDev, read_word, write_word}
use xmachine.Unibus.Link.{System, linked, boot, read_data_in, write_data_out}
use xmachine.Cpu.State.{Cpu, Machine, init_cpu, ◌>>=◌, ◌>>◌}
use xmachine.Cpu.Execute.{execute}
use xmachine.Cpu.Safety.Rules.{IsCpu}
use xmachine.Cpu.Decode.{dispatch}
use xmachine.Cpu.Registers.{
  switch, fetch_register_contents, register_to_bus_addr, inc_register, dec_register,
}
use xmachine.Cpu.Access.{store_data, store_data_register}
use xmachine.Cpu.Flags.{set_zero_flag, set_negative_flag_w, zero_of_alu, negative_of_alu_w}
use xmachine.Cpu.Addressing.{
  next_word, setup_pc_addressing, setup_sp_addressing, general_addressing, setup_general_addressing,
  setup_addressing, setup_dest_addressing, setup_src_addressing,
}
use xmachine.Cpu.Ops.Alu.{set_alu, fetch_src, fetch_dest, alu_from_dest, alu_from_src, store_alu}
use xmachine.Cpu.Ops.Single.{inc}
use xmachine.Cpu.Ops.Double.{mov, add}
use xmachine.Cpu.Ops.Control.{jsr, rts, halt}

abbrev byte_of : List ℕ → ℕ → ℕ
byte_of bytes j = elim (get_elem? bytes j) [ none ↦ 0 | some b ↦ b ]

-- A memory that holds these bytes from address 0 on, and zeros after them.
abbrev pub memory_of : List ℕ → MemDev
memory_of bytes = record { mar = 0; mbr = 0; store = byte_of bytes }

abbrev pub machine_of : List ℕ → Machine System
machine_of bytes = record { cpu = init_cpu; rest = boot (memory_of bytes) }

-- `execute` with all that it calls open, to run in a test.
run : ℕ → Machine System → Outcome (Option (Machine System))
unfolding execute ◌>>=◌ ◌>>◌ read_word write_word dispatch mov inc add jsr rts switch next_word
    setup_pc_addressing setup_sp_addressing general_addressing setup_general_addressing
    setup_addressing setup_dest_addressing setup_src_addressing set_alu fetch_src fetch_dest
    alu_from_dest alu_from_src store_alu store_data store_data_register zero_of_alu
    negative_of_alu_w set_zero_flag set_negative_flag_w read_data_in write_data_out halt
    fetch_register_contents register_to_bus_addr inc_register dec_register
run = execute ⦃bus = linked 0⦄

abbrev final : Outcome (Option (Machine System)) → Cpu
final (done (some s)) = s.cpu
final _ = init_cpu

-- MOV #5, R0; INC R0; HALT
abbrev pub counting : List ℕ
counting = 0o300 ∷ 0o25 ∷ 5 ∷ 0 ∷ 0o200 ∷ 0o12 ∷ 0 ∷ 0 ∷ []

counting_ends :
    let c = final (run 4 (machine_of counting)) in (c.r0 ≡ 6) × (c.pc ≡ 8) × (c.halted ≡ true)
unfolding run
counting_ends = (refl, refl, refl)

-- The registers of a new processor.
pub init_cpu-IsCpu : IsCpu init_cpu
init_cpu-IsCpu = record {
  r0 = omega arith;
  r1 = omega arith;
  r2 = omega arith;
  r3 = omega arith;
  r4 = omega arith;
  r5 = omega arith;
  sp = omega arith;
  pc = omega arith;
  psw = omega arith;
  alu = omega arith;
  ir = omega arith;
  src_address = omega arith;
  dest_address = omega arith;
}

-- ===== src/Machine/Calls.antt =====
-- JSR and RTS on the processor with its memory.
pub mod Return
use xmachine.Base.{
  ℕ, zero, suc, ◌+◌, ◌-◌, ◌*◌, ◌/◌, ◌%◌, ◌^◌, ◌≤◌, ◌<◌, ◌≡◌, refl, ap, ◌∙◌, true, false, Bool,
  if◌then◌else◌, arith, bit_and, ◌>>>◌, u16, ◌==◌, ltb, Option, none,
}
use xmachine.Outcome.{Outcome, done, blocked}
use xmachine.Mem.{MemDev, is_local_addr}
use xmachine.Mem.Words.{with_word, write_word_lem}
use xmachine.Unibus.Link.{System, linked}
use xmachine.Unibus.Transfer.{after_read, after_write, write_data_out_lem}
use xmachine.Cpu.State.{Cpu, Machine, ◌>>=◌, ◌>>◌}
use xmachine.Cpu.Registers.{
  Reg, r0, r1, r2, r3, r4, r5, sp, pc, psw, get_reg, set_reg, switch, register_of_number,
  inc_register, dec_register, fetch_register_contents, register_to_bus_addr, is_internal_bus_addr,
}
use xmachine.Cpu.Access.{translate_bus_addr, fetch_data, store_data, store_data_register}
use xmachine.Cpu.Addressing.{
  setup_dest_addressing, setup_addressing, setup_general_addressing, general_addressing,
}
use xmachine.Cpu.Decode.{OpCode, dispatch}
use xmachine.Cpu.Ops.Control.{jsr, rts}
use xmachine.Cpu.Laws.Operands.{number}
use xmachine.Machine.Laws.{IsRunning, near_is_local}
use xmachine.Machine.Reach.{fetch_data_reach, translate_low, word_is_external}

-- A number from 9 on is no register's.
dec_register-none :
    (n : ℕ) (is_byte_addr : Bool) (c : Cpu) → 9 ≤ n → dec_register n is_byte_addr c ≡ c
unfolding dec_register switch
dec_register-none n is_byte_addr c h = ground arith

inc_register-none :
    (n : ℕ) (is_byte_addr : Bool) (c : Cpu) → 9 ≤ n → inc_register n is_byte_addr c ≡ c
unfolding inc_register switch
inc_register-none n is_byte_addr c h = ground arith

-- A store of a word below 512 goes to memory.
pub store_data_near :
    (junk addr w : ℕ) (s : Machine System)
    → IsRunning s.rest
    → addr + 1 < 512
    → w < 2 ^ 16
    → store_data ⦃bus = linked junk⦄ addr w s
      ≡ done (tt, record s { rest = after_write addr w (with_word addr w s.rest.device) s.rest })
unfolding store_data
store_data_near junk addr w s good low word =
    rw
      (
        word_is_external addr (omega arith),
        translate_low addr (omega arith),
        write_data_out_lem junk addr w s.rest good.0,
        near_is_local addr (omega arith),
        write_word_lem s.rest.device addr w (omega arith) word,
      )
      refl

-- The machine after JSR through `r` to the address in `d`.
abbrev pub called : Reg → Reg → Machine System → Machine System
called r d s = record {
  cpu = record (set_reg r s.cpu.pc (record s.cpu { dest_address = get_reg d s.cpu })) {
    pc = get_reg d s.cpu;
  };
  rest =
      after_write s.cpu.sp (get_reg r s.cpu) (with_word s.cpu.sp (get_reg r s.cpu) s.rest.device)
        s.rest;
}

pub jsr_lem :
    (junk : ℕ) (r d : Reg) (s : Machine System)
    → IsRunning s.rest
    → number r < 6
    → number d < 6
    → bit_and s.cpu.ir 0o700 >>> 6 ≡ number r
    → bit_and s.cpu.ir 0o70 >>> 3 ≡ 1
    → bit_and s.cpu.ir 0o7 ≡ number d
    → 9 ≤ s.cpu.sp
    → s.cpu.sp + 1 < 512
    → get_reg r s.cpu < 2 ^ 16
    → get_reg d s.cpu < 2 ^ 16
    → dispatch ⦃bus = linked junk⦄ OpCode.jsr_op s ≡ done (tt, called r d s)
unfolding dispatch jsr ◌>>=◌ ◌>>◌ switch setup_dest_addressing setup_addressing
    setup_general_addressing general_addressing register_to_bus_addr store_data_register
    fetch_register_contents
jsr_lem junk sp d s good lr ld er em ed lo hi wr wd = absurd (omega arith)
jsr_lem junk pc d s good lr ld er em ed lo hi wr wd = absurd (omega arith)
jsr_lem junk psw d s good lr ld er em ed lo hi wr wd = absurd (omega arith)
jsr_lem junk r sp s good lr ld er em ed lo hi wr wd = absurd (omega arith)
jsr_lem junk r pc s good lr ld er em ed lo hi wr wd = absurd (omega arith)
jsr_lem junk r psw s good lr ld er em ed lo hi wr wd = absurd (omega arith)
jsr_lem junk r d s good lr ld er em ed lo hi wr wd =
    let cut : u16 (get_reg d s.cpu) ≡ get_reg d s.cpu = omega arith in
    let set_up : Machine System = record s {
      cpu = record s.cpu { dest_address = get_reg d s.cpu };
    } in
    rw
      (
        er,
        em,
        ed,
        store_data_near junk s.cpu.sp (get_reg r s.cpu) set_up good hi wr,
        dec_register-none s.cpu.sp false set_up.cpu lo,
        cut,
      )
      refl

-- The machine after RTS through `r`.
abbrev pub word_at : ℕ → Machine System → ℕ
word_at addr s = s.rest.device.store (addr + 1) * 256 + s.rest.device.store addr

abbrev pub returned : Reg → Machine System → Machine System
returned r s = record {
  cpu = set_reg r (word_at s.cpu.sp s) (record s.cpu { pc = get_reg r s.cpu });
  rest = after_read s.cpu.sp (word_at s.cpu.sp s) s.rest;
}

pub rts_lem :
    (junk : ℕ) (r : Reg) (s : Machine System)
    → IsRunning s.rest
    → number r < 6
    → bit_and s.cpu.ir 0o7 ≡ number r
    → 9 ≤ s.cpu.sp
    → s.cpu.sp < 512
    → dispatch ⦃bus = linked junk⦄ OpCode.rts_op s ≡ done (tt, returned r s)
unfolding dispatch rts ◌>>=◌ ◌>>◌ switch register_to_bus_addr store_data_register
    fetch_register_contents
rts_lem junk sp s good lr er lo hi = absurd (omega arith)
rts_lem junk pc s good lr er lo hi = absurd (omega arith)
rts_lem junk psw s good lr er lo hi = absurd (omega arith)
rts_lem junk r s good lr er lo hi =
    let below : ltb s.cpu.sp 512 ≡ true = ground arith in
    let left : Machine System = record s { cpu = record s.cpu { pc = get_reg r s.cpu } } in
    rw
      (
        er,
        inc_register-none s.cpu.sp false left.cpu lo,
        fetch_data_reach junk s.cpu.sp left good (omega arith),
        below,
      )
      refl

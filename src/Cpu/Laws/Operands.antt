-- ===== src/Cpu/Laws/Operands.antt =====
-- Register operands.
use xmachine.Base.{ℕ, ◌+◌, ◌<◌, ◌≡◌, refl, ap, ◌∙◌, arith, bit_and, ◌>>>◌, u8, Bool, true, false}
use xmachine.Outcome.{done}
use xmachine.Cpu.State.{Cpu, Bus, Machine, M, ◌>>=◌, ◌>>◌}
use xmachine.Cpu.Ops.Alu.{fetch_src, fetch_dest, store_alu, store_alu_b}
use xmachine.Cpu.Registers.{
  Reg, r0, r1, r2, r3, r4, r5, sp, pc, psw, get_reg, set_reg, switch, register_to_bus_addr,
}
use xmachine.Cpu.Access.{fetch_data, store_data, store_data_b, store_data_register}
use xmachine.Cpu.Addressing.{
  setup_src_addressing, setup_dest_addressing, setup_addressing, setup_pc_addressing,
  setup_sp_addressing, setup_general_addressing, setup_general_byte_addressing, general_addressing,
}

-- The number of a register in an operand field; the status word has none of three bits.
abbrev pub number : Reg → ℕ
number r0 = 0
number r1 = 1
number r2 = 2
number r3 = 3
number r4 = 4
number r5 = 5
number sp = 6
number pc = 7
number psw = 8

-- The operands of an instruction word are the registers `r` and `d`.
pub record OnRegisters (r d : Reg) (ir : ℕ) : Type 0 where
  pub src_mode : bit_and ir 0o7000 >>> 9 ≡ 0
  pub src_reg : bit_and ir 0o700 >>> 6 ≡ number r
  pub dest_mode : bit_and ir 0o70 >>> 3 ≡ 0
  pub dest_reg : bit_and ir 0o7 ≡ number d

-- A register, and the fields that an instruction sets beside it.
pub set_reg-fields :
    (d : Reg) (v alu src dest : ℕ) (c : Cpu)
    → number d < 8
    → set_reg d v (record c { alu = alu; src_address = src; dest_address = dest })
      ≡ record (set_reg d v c) { psw = c.psw; alu = alu; src_address = src; dest_address = dest }
set_reg-fields r0 v alu src dest c lt = refl
set_reg-fields r1 v alu src dest c lt = refl
set_reg-fields r2 v alu src dest c lt = refl
set_reg-fields r3 v alu src dest c lt = refl
set_reg-fields r4 v alu src dest c lt = refl
set_reg-fields r5 v alu src dest c lt = refl
set_reg-fields sp v alu src dest c lt = refl
set_reg-fields pc v alu src dest c lt = refl
set_reg-fields psw v alu src dest c lt = absurd (omega arith)

pub set_reg-get_reg : (d : Reg) (c : Cpu) → set_reg d (get_reg d c) c ≡ c
set_reg-get_reg r0 c = refl
set_reg-get_reg r1 c = refl
set_reg-get_reg r2 c = refl
set_reg-get_reg r3 c = refl
set_reg-get_reg r4 c = refl
set_reg-get_reg r5 c = refl
set_reg-get_reg sp c = refl
set_reg-get_reg pc c = refl
set_reg-get_reg psw c = refl

pub get_reg-fields :
    (r : Reg) (alu src dest : ℕ) (c : Cpu)
    → get_reg r (record c { alu = alu; src_address = src; dest_address = dest }) ≡ get_reg r c
get_reg-fields r0 alu src dest c = refl
get_reg-fields r1 alu src dest c = refl
get_reg-fields r2 alu src dest c = refl
get_reg-fields r3 alu src dest c = refl
get_reg-fields r4 alu src dest c = refl
get_reg-fields r5 alu src dest c = refl
get_reg-fields sp alu src dest c = refl
get_reg-fields pc alu src dest c = refl
get_reg-fields psw alu src dest c = refl

module _ {S : Type 0} ⦃bus : Bus S⦄ where
  -- Mode 0, of words and of bytes.
  pub setup_src_register :
      (r : Reg) (is_byte : Bool) (s : Machine S)
      → number r < 8
      → bit_and s.cpu.ir 0o7000 >>> 9 ≡ 0
      → bit_and s.cpu.ir 0o700 >>> 6 ≡ number r
      → setup_src_addressing is_byte s
        ≡ done (tt, record s { cpu = record s.cpu { src_address = 0o777700 + number r } })
  unfolding ◌>>=◌ ◌>>◌ switch setup_src_addressing setup_addressing setup_pc_addressing
      setup_sp_addressing setup_general_addressing setup_general_byte_addressing general_addressing
      register_to_bus_addr
  setup_src_register psw is_byte s lt mode reg = absurd (omega arith)
  setup_src_register r true s lt mode reg = rw (mode, reg) refl
  setup_src_register r false s lt mode reg = rw (mode, reg) refl

  pub setup_dest_register :
      (r : Reg) (is_byte : Bool) (s : Machine S)
      → number r < 8
      → bit_and s.cpu.ir 0o70 >>> 3 ≡ 0
      → bit_and s.cpu.ir 0o7 ≡ number r
      → setup_dest_addressing is_byte s
        ≡ done (tt, record s { cpu = record s.cpu { dest_address = 0o777700 + number r } })
  unfolding ◌>>=◌ ◌>>◌ switch setup_dest_addressing setup_addressing setup_pc_addressing
      setup_sp_addressing setup_general_addressing setup_general_byte_addressing general_addressing
      register_to_bus_addr
  setup_dest_register psw is_byte s lt mode reg = absurd (omega arith)
  setup_dest_register r true s lt mode reg = rw (mode, reg) refl
  setup_dest_register r false s lt mode reg = rw (mode, reg) refl

  pub fetch_register :
      (r : Reg) (s : Machine S)
      → number r < 8
      → fetch_data (0o777700 + number r) s ≡ done (get_reg r s.cpu, s)
  unfolding fetch_data ◌>>=◌
  fetch_register psw s lt = absurd (omega arith)
  fetch_register r s lt = refl

  pub store_register :
      (r : Reg) (v : ℕ) (s : Machine S)
      → number r < 8
      → (store_data (0o777700 + number r) v s ≡ done (tt, record s { cpu = set_reg r v s.cpu }))
        × (store_data_b (0o777700 + number r) v s
            ≡ done (tt, record s { cpu = set_reg r (u8 v) s.cpu }))
  unfolding store_data store_data_b store_data_register ◌>>=◌
  store_register psw v s lt = absurd (omega arith)
  store_register r v s lt = (refl, refl)

-- The operands of an instruction set up, with `a` in `alu`, and the same with `v` stored.
abbrev pub with_operands : {S : Type 0} → Reg → Reg → ℕ → Machine S → Machine S
with_operands r d a s = record s {
  cpu = record s.cpu {
    alu = a;
    src_address = 0o777700 + number r;
    dest_address = 0o777700 + number d;
  };
}

abbrev pub with_result : {S : Type 0} → Reg → Reg → ℕ → ℕ → Machine S → Machine S
with_result r d v a s = record s {
  cpu = record (set_reg d v s.cpu) {
    psw = s.cpu.psw;
    alu = a;
    src_address = 0o777700 + number r;
    dest_address = 0o777700 + number d;
  };
}

module _ {S : Type 0} ⦃bus : Bus S⦄ (r d : Reg) (s : Machine S) where
  pub setup_registers :
      (is_byte : Bool) (m : M S (Unit {0}))
      → number r < 8
      → number d < 8
      → OnRegisters r d s.cpu.ir
      → (do setup_src_addressing is_byte; setup_dest_addressing is_byte; m) s
        ≡ m (with_operands r d s.cpu.alu s)
  unfolding ◌>>=◌ ◌>>◌
  setup_registers is_byte m lt lt' on =
      let at_src : Machine S = record s {
        cpu = record s.cpu { src_address = 0o777700 + number r };
      } in
      rw
        (
          setup_src_register r is_byte s lt on.src_mode on.src_reg,
          setup_dest_register d is_byte at_src lt' on.dest_mode on.dest_reg,
        )
        refl

  pub fetch_src_lem :
      (a : ℕ)
      → number r < 8
      → fetch_src (with_operands r d a s) ≡ done (get_reg r s.cpu, with_operands r d a s)
  unfolding fetch_src ◌>>=◌
  fetch_src_lem a lt =
      fetch_register r (with_operands r d a s) lt
      ∙ ap (λ v. done (v, with_operands r d a s)) (get_reg-fields r a _ _ s.cpu)

  pub fetch_dest_lem :
      (a : ℕ)
      → number d < 8
      → fetch_dest (with_operands r d a s) ≡ done (get_reg d s.cpu, with_operands r d a s)
  unfolding fetch_dest ◌>>=◌
  fetch_dest_lem a lt =
      fetch_register d (with_operands r d a s) lt
      ∙ ap (λ v. done (v, with_operands r d a s)) (get_reg-fields d a _ _ s.cpu)

  pub store_alu_lem :
      (a : ℕ)
      → number d < 8
      → (store_alu (with_operands r d a s) ≡ done (tt, with_result r d a a s))
        × (store_alu_b (with_operands r d a s) ≡ done (tt, with_result r d (u8 a) a s))
  unfolding store_alu store_alu_b ◌>>=◌
  store_alu_lem a lt =
      let (word, byte) = store_register d a (with_operands r d a s) lt in
      (
        word ∙ ap (λ c. done (tt, record s { cpu = c })) (set_reg-fields d a a _ _ s.cpu lt),
        byte ∙ ap (λ c. done (tt, record s { cpu = c })) (set_reg-fields d (u8 a) a _ _ s.cpu lt),
      )

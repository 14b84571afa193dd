-- ===== src/Cpu/Laws/Unary.antt =====
-- The word instructions with one operand, on a register.
use xmachine.Base.{
  ℕ, ◌+◌, ◌-◌, ◌*◌, ◌/◌, ◌%◌, ◌^◌, ◌<◌, ◌≡◌, sym, refl, ap, ◌∙◌, arith, ◌>>>◌, ◌<<<◌, bit_and,
  bit_or, bit_not, u16, sub16, leb, ◌==◌, false, Option, none, some,
}
use xmachine.Base.Bits.{bit_and_low, bit_and_field, bit_or_high, bit_or_above}
use xmachine.Outcome.{done}
use xmachine.Cpu.State.{Cpu, Bus, Machine, M, ◌>>=◌, ◌>>◌}
use xmachine.Cpu.Registers.{Reg, psw, get_reg, set_reg, switch, register_to_bus_addr}
use xmachine.Cpu.Access.{fetch_data, store_data, store_data_register}
use xmachine.Cpu.Addressing.{
  setup_dest_addressing, setup_addressing, setup_pc_addressing, setup_sp_addressing,
  setup_general_addressing, general_addressing,
}
use xmachine.Cpu.Flags.{zero_of_alu, negative_of_alu_w}
use xmachine.Cpu.Ops.Alu.{set_alu, fetch_dest, alu_from_dest, store_alu}
use xmachine.Cpu.Flags.{carry_flag}
use xmachine.Cpu.Ops.Single.{clr, com_word, inc, dec, neg, adc, sbc, asr, asl, rol, ror, swab}
use xmachine.Cpu.Decode.{
  OpCode, dispatch, clr_op, com_op, inc_op, dec_op, neg_op, adc_op, sbc_op, asr_op, asl_op, rol_op,
  ror_op, swab_op,
}
use xmachine.Cpu.Laws.Operands.{number}
use xmachine.Cpu.Laws.Codes.{with_codes, word_codes_of_alu}

-- The processor with `v` computed and stored in a register.
abbrev pub operated : Reg → ℕ → Cpu → Cpu
operated r v c = record (set_reg r v c) {
  alu = v;
  dest_address = 0o777700 + number r;
  psw = with_codes (leb 0x8000 v) (v == 0) c.psw;
}

-- With its operand fetched.
abbrev loaded : Reg → Cpu → Cpu
loaded r c = record c { alu = get_reg r c; dest_address = 0o777700 + number r }

pub low_bit_up : (x : ℕ) → x < 2 ^ 16 → u16 (bit_or (x <<< 15) (x >>> 1)) ≡ x / 2 + x % 2 * 0x8000
low_bit_up x word = omega (arith, bit_or_high 15 x (x / 2) (omega arith))

pub high_bit_down :
    (x : ℕ) → x < 2 ^ 16 → u16 (bit_or (x <<< 1) (x >>> 15)) ≡ x * 2 % 2 ^ 16 + x / 0x8000
high_bit_down x word = omega (arith, bit_or_high 1 x (x / 2 ^ 15) (omega arith))

pub swapped :
    (x : ℕ)
    → x < 2 ^ 16
    → bit_or (bit_and x 0o177400 >>> 8) (bit_and x 0o377 <<< 8) ≡ x % 256 * 256 + x / 256
swapped x word =
    let high : bit_and x 0o177400 >>> 8 ≡ x / 256 = omega (arith, bit_and_field 8 8 x) in
    rw (high, bit_and_low 8 x) (bit_or_above 8 (x % 256) (x / 256) (omega arith))

-- What each instruction makes of the carry and its operand; `none` for the others. The two
-- rotations are those of the source: ROL moves the bits down by one, ROR up.
abbrev pub unary : OpCode → ℕ → ℕ → Option ℕ
unary clr_op carry x = some 0
unary com_op carry x = some (0xffff - x)
unary inc_op carry x = some ((x + 1) % 2 ^ 16)
unary dec_op carry x = some ((x + 0xffff) % 2 ^ 16)
unary neg_op carry x = some ((0x10000 - x) % 2 ^ 16)
unary adc_op carry x = some ((x + carry) % 2 ^ 16)
unary sbc_op carry x = some ((x + 0x10000 - carry) % 2 ^ 16)
unary asr_op carry x = some (x / 2)
unary asl_op carry x = some (x * 2 % 2 ^ 16)
unary rol_op carry x = some (x / 2 + x % 2 * 0x8000)
unary ror_op carry x = some (x * 2 % 2 ^ 16 + x / 0x8000)
unary swab_op carry x = some (x % 256 * 256 + x / 256)
unary _ carry x = none

module _ {S : Type 0} ⦃bus : Bus S⦄ where
  abbrev on_dest : (Cpu → ℕ) → M S (Unit {0}) → M S (Unit {0})
  on_dest f codes = do setup_dest_addressing false; alu_from_dest; set_alu f; store_alu; codes

  abbrev zero_negative : M S (Unit {0})
  zero_negative = do zero_of_alu; negative_of_alu_w

  abbrev negative_zero : M S (Unit {0})
  negative_zero = do negative_of_alu_w; zero_of_alu

  on_dest_lem :
      (r : Reg) (f : Cpu → ℕ) (s : Machine S)
      → number r < 8
      → bit_and s.cpu.ir 0o70 >>> 3 ≡ 0
      → bit_and s.cpu.ir 0o7 ≡ number r
      → f (loaded r s.cpu) < 2 ^ 16
      → (on_dest f zero_negative s
          ≡ done (tt, record s { cpu = operated r (f (loaded r s.cpu)) s.cpu }))
        × (on_dest f negative_zero s
            ≡ done (tt, record s { cpu = operated r (f (loaded r s.cpu)) s.cpu }))
  unfolding ◌>>=◌ ◌>>◌ switch setup_dest_addressing setup_addressing setup_pc_addressing
      setup_sp_addressing setup_general_addressing general_addressing register_to_bus_addr
      fetch_data store_data store_data_register alu_from_dest fetch_dest set_alu store_alu
      zero_of_alu negative_of_alu_w
  on_dest_lem psw f s lt mode reg word = absurd (omega arith)
  on_dest_lem r f s lt mode reg word =
      let c : Cpu = record (set_reg r (f (loaded r s.cpu)) (loaded r s.cpu)) {
        alu = f (loaded r s.cpu);
      } in
      let (zero_first, negative_first) = word_codes_of_alu c word in
      (
        rw (mode, reg) (ap (λ c'. done (tt, record s { cpu = c' })) zero_first),
        rw (mode, reg) (ap (λ c'. done (tt, record s { cpu = c' })) negative_first),
      )

  -- CLR fetches no operand, and COM does not keep it in `alu`.
  same_shape :
      (r : Reg) (s : Machine S)
      → number r < 8
      → bit_and s.cpu.ir 0o70 >>> 3 ≡ 0
      → bit_and s.cpu.ir 0o7 ≡ number r
      → (clr s ≡ on_dest (λ c. 0) negative_zero s)
        × (com_word s ≡ on_dest (λ c. u16 (bit_not c.alu)) negative_zero s)
  unfolding ◌>>=◌ ◌>>◌ switch setup_dest_addressing setup_addressing setup_pc_addressing
      setup_sp_addressing setup_general_addressing general_addressing register_to_bus_addr
      fetch_data store_data store_data_register alu_from_dest fetch_dest set_alu store_alu
      zero_of_alu negative_of_alu_w clr com_word
  same_shape psw s lt mode reg = absurd (omega arith)
  same_shape r s lt mode reg = (rw (mode, reg) refl, rw (mode, reg) refl)

  module _ (r : Reg) (s : Machine S) (lt : number r < 8) (mode : bit_and s.cpu.ir 0o70 >>> 3 ≡ 0)
      (reg : bit_and s.cpu.ir 0o7 ≡ number r) where
    computed :
        (f : Cpu → ℕ) {v known : ℕ}
        → some known ≡ some v
        → f (loaded r s.cpu) ≡ known
        → known < 2 ^ 16
        → (on_dest f zero_negative s ≡ done (tt, record s { cpu = operated r v s.cpu }))
          × (on_dest f negative_zero s ≡ done (tt, record s { cpu = operated r v s.cpu }))
    computed f {v} {known} e here word =
        let value : f (loaded r s.cpu) ≡ v = cc in
        rw (sym value) (on_dest_lem r f s lt mode reg (omega arith))

    -- With mode 0 and the number of a general register, `sp` or `pc` in the operand field, and
    -- a 16-bit word in that register, CLR, COM, INC, DEC, NEG, ADC, SBC, ASR, ASL, ROL, ROR and
    -- SWAB leave in the register, and in `alu`, the function of the table at the carry and the
    -- word, set N and Z by the result, and set `dest_address` to the register's bus address.
    -- They end, use no other device, and change nothing else.
    pub unary_on_register :
        (op : OpCode) (v : ℕ)
        → unary op (s.cpu.psw % 2) (get_reg r s.cpu) ≡ some v
        → get_reg r s.cpu < 2 ^ 16
        → dispatch op s ≡ done (tt, record s { cpu = operated r v s.cpu })
    unfolding dispatch inc dec neg adc sbc asr asl rol ror swab
    unary_on_register inc_op v e word =
        (computed (λ c. u16 (c.alu + 1)) e (omega arith) (omega arith)).0
    unary_on_register dec_op v e word =
        (computed (λ c. sub16 c.alu 1) e (omega arith) (omega arith)).0
    unary_on_register neg_op v e word =
        (computed (λ c. u16 (bit_not c.alu + 1)) e (omega arith) (omega arith)).0
    unary_on_register adc_op v e word =
        (computed (λ c. u16 (c.alu + bit_and c.psw carry_flag)) e
          (omega (arith, bit_and_low 1 s.cpu.psw)) (omega arith)).0
    unary_on_register sbc_op v e word =
        (computed (λ c. sub16 c.alu (bit_and c.psw carry_flag)) e
          (omega (arith, bit_and_low 1 s.cpu.psw)) (omega arith)).0
    unary_on_register asr_op v e word =
        (computed (λ c. c.alu >>> 1) e (omega arith) (omega arith)).0
    unary_on_register asl_op v e word =
        (computed (λ c. u16 (c.alu <<< 1)) e (omega arith) (omega arith)).0
    unary_on_register rol_op v e word =
        (computed (λ c. u16 (bit_or (c.alu <<< 15) (c.alu >>> 1))) e
          (low_bit_up (get_reg r s.cpu) word) (omega arith)).0
    unary_on_register ror_op v e word =
        (computed (λ c. u16 (bit_or (c.alu <<< 1) (c.alu >>> 15))) e
          (high_bit_down (get_reg r s.cpu) word) (omega arith)).0
    unary_on_register swab_op v e word =
        (computed (λ c. bit_or (bit_and c.alu 0o177400 >>> 8) (bit_and c.alu 0o377 <<< 8)) e
          (swapped (get_reg r s.cpu) word) (omega arith)).1
    unary_on_register clr_op v e word =
        (same_shape r s lt mode reg).0 ∙ (computed (λ c. 0) e refl (omega arith)).1
    unary_on_register com_op v e word =
        (same_shape r s lt mode reg).1
        ∙ (computed (λ c. u16 (bit_not c.alu)) e (omega arith) (omega arith)).1
    unary_on_register _ v e word = absurd (cc)

-- ===== src/Cpu/Laws/UnaryByte.antt =====
-- The byte instructions with one operand, on a register.
use xmachine.Base.{
  ℕ, ◌+◌, ◌-◌, ◌*◌, ◌/◌, ◌%◌, ◌^◌, ◌<◌, ◌≡◌, refl, ap, ◌∙◌, arith, ◌>>>◌, ◌<<<◌, bit_and, bit_or,
  bit_not, u16, sub16, leb, ◌==◌, true, Option, none, some,
}
use xmachine.Base.Bits.{bit_and_low, bit_or_high}
use xmachine.Outcome.{done}
use xmachine.Cpu.State.{Cpu, Bus, Machine, M, ◌>>=◌, ◌>>◌}
use xmachine.Cpu.Registers.{Reg, psw, get_reg, set_reg, switch, register_to_bus_addr}
use xmachine.Cpu.Access.{fetch_data, store_data, store_data_b, store_data_register}
use xmachine.Cpu.Addressing.{
  setup_dest_addressing, setup_addressing, setup_pc_addressing, setup_sp_addressing,
  setup_general_addressing, setup_general_byte_addressing, general_addressing,
}
use xmachine.Cpu.Flags.{carry_flag, zero_of_alu, negative_of_alu_b}
use xmachine.Cpu.Ops.Alu.{set_alu, fetch_dest, alu_from_dest_b, store_alu, store_alu_b}
use xmachine.Cpu.Ops.Single.{clrb, comb, incb, decb, negb, adcb, sbcb, asrb, aslb, rolb, rorb, tstb}
use xmachine.Cpu.Decode.{
  OpCode, dispatch, clrb_op, comb_op, incb_op, decb_op, negb_op, adcb_op, sbcb_op, asrb_op, aslb_op,
  rolb_op, rorb_op, tstb_op,
}
use xmachine.Cpu.Laws.Operands.{number}
use xmachine.Cpu.Laws.Codes.{with_codes, byte_codes_of_alu}

-- The processor with `v` computed, and `kept` in a register.
abbrev pub operated : Reg → ℕ × ℕ → Cpu → Cpu
operated r (kept, v) c = record (set_reg r kept c) {
  alu = v;
  dest_address = 0o777700 + number r;
  psw = with_codes (leb 0x80 (v % 256)) (v == 0) c.psw;
}

-- With the low byte of its operand fetched.
abbrev loaded : Reg → Cpu → Cpu
loaded r c = record c { alu = bit_and (get_reg r c) 0o377; dest_address = 0o777700 + number r }

rotated_down :
    (w : ℕ)
    → u16 (bit_or (bit_and w 0o377 <<< 7) (bit_and w 0o377 >>> 1)) ≡ w % 256 * 128 + w % 256 / 2
rotated_down w =
    rw (bit_and_low 8 w) (omega (arith, bit_or_high 7 (w % 256) (w % 256 / 2) (omega arith)))

rotated_up :
    (w : ℕ)
    → u16 (bit_or (bit_and w 0o377 <<< 1) (bit_and w 0o377 >>> 7)) ≡ w % 256 * 2 + w % 256 / 128
rotated_up w =
    rw (bit_and_low 8 w) (omega (arith, bit_or_high 1 (w % 256) (w % 256 / 128) (omega arith)))

shifted : (w : ℕ) → u16 (bit_and w 0o377 <<< 1) ≡ w % 256 * 2
shifted w = omega (arith, bit_and_low 8 w)

negated : (w : ℕ) → bit_and (bit_not (bit_and w 0o377) + 1) 0o377 ≡ (256 - w % 256) % 256
negated w = rw (bit_and_low 8 w, bit_and_low 8 (bit_not (w % 256) + 1)) (omega arith)

-- Only the low byte of the result goes to the register, whose high byte becomes zero.
abbrev cut : ℕ → ℕ × ℕ
cut v = (v % 256, v)

-- What each instruction makes of the carry, the word in the register and its low byte: what is then
-- in the register, and in `alu`; `none` for the others. ASLB stores a word, and TSTB nothing.
abbrev pub unary_b : OpCode → ℕ → ℕ → ℕ → Option (ℕ × ℕ)
unary_b clrb_op carry w x = some (cut 0)
unary_b comb_op carry w x = some (cut (0xffff - x))
unary_b incb_op carry w x = some (cut (x + 1))
unary_b decb_op carry w x = some (cut ((x + 0xffff) % 2 ^ 16))
unary_b negb_op carry w x = some (cut ((256 - x) % 256))
unary_b adcb_op carry w x = some (cut (x + carry))
unary_b sbcb_op carry w x = some (cut ((x + 0x10000 - carry) % 2 ^ 16))
unary_b asrb_op carry w x = some (cut (x / 2))
unary_b aslb_op carry w x = some (x * 2, x * 2)
unary_b rolb_op carry w x = some (cut (x * 128 + x / 2))
unary_b rorb_op carry w x = some (cut (x * 2 + x / 128))
unary_b tstb_op carry w x = some (w, x)
unary_b _ carry w x = none

module _ {S : Type 0} ⦃bus : Bus S⦄ where
  -- The forms of the instructions: what is stored of `alu`, and the flag that is set first.
  abbrev on_dest_b : (Cpu → ℕ) → M S (Unit {0}) → M S (Unit {0})
  on_dest_b f rest = do setup_dest_addressing true; alu_from_dest_b; set_alu f; rest

  abbrev cutting : M S (Unit {0})
  cutting = do store_alu_b; zero_of_alu; negative_of_alu_b

  abbrev cutting' : M S (Unit {0})
  cutting' = do store_alu_b; negative_of_alu_b; zero_of_alu

  abbrev keeping : M S (Unit {0})
  keeping = do store_alu; zero_of_alu; negative_of_alu_b

  abbrev Operates : M S (Unit {0}) → Reg → ℕ × ℕ → Machine S → Type 0
  Operates m r result s = m s ≡ done (tt, record s { cpu = operated r result s.cpu })

  forms_lem :
      (r : Reg) (f : Cpu → ℕ) (s : Machine S)
      → number r < 8
      → bit_and s.cpu.ir 0o70 >>> 3 ≡ 0
      → bit_and s.cpu.ir 0o7 ≡ number r
      → let v = f (loaded r s.cpu) in
        Operates (on_dest_b f cutting) r (cut v) s
        × Operates (on_dest_b f cutting') r (cut v) s
        × Operates (on_dest_b f keeping) r (v, v) s
  unfolding ◌>>=◌ ◌>>◌ switch setup_dest_addressing setup_addressing setup_pc_addressing
      setup_sp_addressing setup_general_byte_addressing general_addressing register_to_bus_addr
      fetch_data store_data store_data_b store_data_register alu_from_dest_b fetch_dest set_alu
      store_alu store_alu_b zero_of_alu negative_of_alu_b
  forms_lem psw f s lt mode reg = absurd (omega arith)
  forms_lem r f s lt mode reg =
      let v : ℕ = f (loaded r s.cpu) in
      let cut_one : Cpu = record (set_reg r (v % 256) (loaded r s.cpu)) { alu = v } in
      let whole : Cpu = record (set_reg r v (loaded r s.cpu)) { alu = v } in
      (
        rw (mode, reg) (ap (λ c. done (tt, record s { cpu = c })) (byte_codes_of_alu cut_one).0),
        rw (mode, reg) (ap (λ c. done (tt, record s { cpu = c })) (byte_codes_of_alu cut_one).1),
        rw (mode, reg) (ap (λ c. done (tt, record s { cpu = c })) (byte_codes_of_alu whole).0),
      )

  -- CLRB fetches no operand, COMB does not keep it in `alu`, and TSTB stores nothing.
  other_forms :
      (r : Reg) (s : Machine S)
      → number r < 8
      → bit_and s.cpu.ir 0o70 >>> 3 ≡ 0
      → bit_and s.cpu.ir 0o7 ≡ number r
      → (clrb s ≡ on_dest_b (λ c. 0) cutting' s)
        × (comb s ≡ on_dest_b (λ c. u16 (bit_not c.alu)) cutting' s)
        × Operates tstb r (get_reg r s.cpu, bit_and (get_reg r s.cpu) 0o377) s
  unfolding ◌>>=◌ ◌>>◌ switch setup_dest_addressing setup_addressing setup_pc_addressing
      setup_sp_addressing setup_general_addressing setup_general_byte_addressing general_addressing
      register_to_bus_addr fetch_data store_data_b store_data_register alu_from_dest_b fetch_dest
      set_alu store_alu_b zero_of_alu negative_of_alu_b clrb comb tstb
  other_forms psw s lt mode reg = absurd (omega arith)
  other_forms r s lt mode reg = (
    rw (mode, reg) refl,
    rw (mode, reg) refl,
    rw (mode, reg)
        (ap (λ c. done (tt, record s { cpu = c })) (byte_codes_of_alu (loaded r s.cpu)).0),
  )

  module _ (r : Reg) (s : Machine S) (lt : number r < 8) (mode : bit_and s.cpu.ir 0o70 >>> 3 ≡ 0)
      (reg : bit_and s.cpu.ir 0o7 ≡ number r) where
    tabled :
        {known result : ℕ × ℕ}
        → some known ≡ some result
        → (m : M S (Unit {0})) → Operates m r known s
        → Operates m r result s
    tabled {known} {result} e m h =
        let same : known ≡ result = cc in
        h ∙ ap (λ t. done (tt, record s { cpu = operated r t s.cpu })) same

    computed :
        (f : Cpu → ℕ) (known : ℕ) {result : ℕ × ℕ}
        → some (cut known) ≡ some result
        → f (loaded r s.cpu) ≡ known
        → Operates (on_dest_b f cutting) r result s × Operates (on_dest_b f cutting') r result s
    computed f known {result} e here =
        let forms = forms_lem r f s lt mode reg in
        let value : some (cut (f (loaded r s.cpu))) ≡ some result =
          ap (λ v. some (cut v)) here ∙ e in
        (tabled value (on_dest_b f cutting) forms.0, tabled value (on_dest_b f cutting') forms.1)

    -- With mode 0 and the number of a general register, `sp` or `pc` in the operand field, CLRB,
    -- COMB, INCB, DECB, NEGB, ADCB, SBCB, ASRB, ASLB, ROLB, RORB and TSTB leave in the register and
    -- in `alu` what the table gives at the carry, the word in the register and its low byte. They
    -- set N by bit 7 of `alu`, Z by whether all of `alu` is zero, and `dest_address` to the
    -- register's bus address. They end, use no other device, and change nothing else.
    pub unary_b_on_register :
        (op : OpCode) (result : ℕ × ℕ)
        → unary_b op (s.cpu.psw % 2) (get_reg r s.cpu) (get_reg r s.cpu % 256) ≡ some result
        → dispatch op s ≡ done (tt, record s { cpu = operated r result s.cpu })
    unfolding dispatch incb decb negb adcb sbcb asrb aslb rolb rorb
    unary_b_on_register incb_op result e =
        (computed (λ c. u16 (c.alu + 1)) _ e (omega (arith, bit_and_low 8 (get_reg r s.cpu)))).0
    unary_b_on_register decb_op result e =
        (computed (λ c. sub16 c.alu 1) _ e (omega (arith, bit_and_low 8 (get_reg r s.cpu)))).0
    unary_b_on_register negb_op result e =
        (computed (λ c. bit_and (bit_not c.alu + 1) 0o377) _ e (negated (get_reg r s.cpu))).0
    unary_b_on_register adcb_op result e =
        (computed (λ c. u16 (c.alu + bit_and c.psw carry_flag)) _ e
          (omega (arith, bit_and_low 1 s.cpu.psw, bit_and_low 8 (get_reg r s.cpu)))).0
    unary_b_on_register sbcb_op result e =
        (computed (λ c. sub16 c.alu (bit_and c.psw carry_flag)) _ e
          (omega (arith, bit_and_low 1 s.cpu.psw, bit_and_low 8 (get_reg r s.cpu)))).0
    unary_b_on_register asrb_op result e =
        (computed (λ c. c.alu >>> 1) _ e (omega (arith, bit_and_low 8 (get_reg r s.cpu)))).0
    unary_b_on_register rolb_op result e =
        (computed (λ c. u16 (bit_or (c.alu <<< 7) (c.alu >>> 1))) _ e
          (rotated_down (get_reg r s.cpu))).0
    unary_b_on_register rorb_op result e =
        (computed (λ c. u16 (bit_or (c.alu <<< 1) (c.alu >>> 7))) _ e
          (rotated_up (get_reg r s.cpu))).0
    unary_b_on_register aslb_op result e =
        tabled (ap (λ v. some (v, v)) (shifted (get_reg r s.cpu)) ∙ e) aslb
          (forms_lem r (λ c. u16 (c.alu <<< 1)) s lt mode reg).2
    unary_b_on_register clrb_op result e =
        (other_forms r s lt mode reg).0 ∙ (computed (λ c. 0) _ e refl).1
    unary_b_on_register comb_op result e =
        (other_forms r s lt mode reg).1
        ∙ (computed (λ c. u16 (bit_not c.alu)) _ e
            (omega (arith, bit_and_low 8 (get_reg r s.cpu)))).1
    unary_b_on_register tstb_op result e =
        tabled (ap (λ x. some (get_reg r s.cpu, x)) (bit_and_low 8 (get_reg r s.cpu)) ∙ e) tstb
          (other_forms r s lt mode reg).2
    unary_b_on_register _ result e = absurd (cc)

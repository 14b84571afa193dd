-- ===== src/Cpu/Laws/Binary.antt =====
-- The word instructions with two operands, on registers.
use xmachine.Base.{
  ℕ, ◌+◌, ◌-◌, ◌%◌, ◌^◌, ◌<◌, ◌≡◌, ap, ◌∙◌, arith, bit_and, bit_or, bit_not, u16, sub16, leb, ◌==◌,
  if◌then◌else◌, Bool, true, false, Option, none, some,
}
use xmachine.Base.Bits.{bit_and-le, bit_or-lt}
use xmachine.Outcome.{Outcome, done}
use xmachine.Cpu.State.{Cpu, Bus, Machine, M, ◌>>=◌, ◌>>◌}
use xmachine.Cpu.Registers.{Reg, get_reg, set_reg}
use xmachine.Cpu.Addressing.{setup_src_addressing, setup_dest_addressing}
use xmachine.Cpu.Flags.{zero_of_alu, negative_of_alu_w}
use xmachine.Cpu.Ops.Alu.{set_alu, fetch_src, fetch_dest, alu_from_src, alu_from_dest, store_alu}
use xmachine.Cpu.Ops.Double.{mov, add, sub, bic, bis, bit, cmp}
use xmachine.Cpu.Decode.{OpCode, dispatch, mov_op, add_op, sub_op, bic_op, bis_op, bit_op, cmp_op}
use xmachine.Cpu.Laws.Operands.{
  number, OnRegisters, with_operands, with_result, setup_registers, fetch_src_lem, fetch_dest_lem,
  store_alu_lem,
}
use xmachine.Cpu.Laws.Codes.{with_codes, word_codes_of_alu}

-- The result of each instruction on the words of source and destination, and whether it is stored;
-- `none` for the others. SUB takes the destination from the source, and CMP the source from the
-- destination, as the source code does.
abbrev pub binary : OpCode → ℕ → ℕ → Option (Bool × ℕ)
binary mov_op x y = some (true, x)
binary add_op x y = some (true, (x + y) % 2 ^ 16)
binary sub_op x y = some (true, (x + 0x10000 - y) % 2 ^ 16)
binary bic_op x y = some (true, bit_and y (bit_not x))
binary bis_op x y = some (true, bit_or y x)
binary bit_op x y = some (false, bit_and x y)
binary cmp_op x y = some (false, (y + 0x10000 - x) % 2 ^ 16)
binary _ x y = none

-- The processor with `v` computed from two registers, and stored in the second if it is.
abbrev pub operated : Reg → Reg → Bool × ℕ → Cpu → Cpu
operated r d (stored, v) c = record (if stored then set_reg d v c else c) {
  alu = v;
  src_address = 0o777700 + number r;
  dest_address = 0o777700 + number d;
  psw = with_codes (leb 0x8000 v) (v == 0) c.psw;
}

module _ {S : Type 0} ⦃bus : Bus S⦄ where
  abbrev Operates : M S (Unit {0}) → Reg → Reg → Bool × ℕ → Machine S → Type 0
  Operates m r d result s = m s ≡ done (tt, record s { cpu = operated r d result s.cpu })

  -- The forms of the instructions: which operand goes to `alu` first, and whether `alu` is stored.
  abbrev from_src : (ℕ → ℕ → ℕ) → M S (Unit {0}) → M S (Unit {0})
  from_src g rest = do
    setup_src_addressing false
    setup_dest_addressing false
    alu_from_src
    value ← fetch_dest
    set_alu (λ c. g c.alu value)
    rest

  abbrev from_dest : (ℕ → ℕ → ℕ) → M S (Unit {0}) → M S (Unit {0})
  from_dest g rest = do
    setup_src_addressing false
    setup_dest_addressing false
    alu_from_dest
    value ← fetch_src
    set_alu (λ c. g value c.alu)
    rest

  abbrev storing : M S (Unit {0})
  storing = do store_alu; negative_of_alu_w; zero_of_alu

  abbrev testing : M S (Unit {0})
  testing = do zero_of_alu; negative_of_alu_w

  forms_lem :
      (r d : Reg) (g : ℕ → ℕ → ℕ) (s : Machine S)
      → number r < 8
      → number d < 8
      → OnRegisters r d s.cpu.ir
      → g (get_reg r s.cpu) (get_reg d s.cpu) < 2 ^ 16
      → Operates (from_src g storing) r d (true, g (get_reg r s.cpu) (get_reg d s.cpu)) s
        × Operates (from_dest g storing) r d (true, g (get_reg r s.cpu) (get_reg d s.cpu)) s
        × Operates (from_src g testing) r d (false, g (get_reg r s.cpu) (get_reg d s.cpu)) s
        × Operates (from_dest g testing) r d (false, g (get_reg r s.cpu) (get_reg d s.cpu)) s
  unfolding ◌>>=◌ ◌>>◌ alu_from_src alu_from_dest fetch_src fetch_dest set_alu store_alu zero_of_alu
      negative_of_alu_w
  forms_lem r d g s lt lt' on word =
      let x : ℕ = get_reg r s.cpu in
      let y : ℕ = get_reg d s.cpu in
      let v : ℕ = g x y in
      let set_up = setup_registers r d s false in
      let codes_stored = word_codes_of_alu (with_result r d v v s).cpu word in
      let codes = word_codes_of_alu (with_operands r d v s).cpu word in
      (
        rw
            (
              set_up _ lt lt' on,
              fetch_src_lem r d s s.cpu.alu lt,
              fetch_dest_lem r d s x lt',
              (store_alu_lem r d s v lt').0,
            )
            (ap (λ c. done (tt, record s { cpu = c })) codes_stored.1),
        rw
            (
              set_up _ lt lt' on,
              fetch_dest_lem r d s s.cpu.alu lt',
              fetch_src_lem r d s y lt,
              (store_alu_lem r d s v lt').0,
            )
            (ap (λ c. done (tt, record s { cpu = c })) codes_stored.1),
        rw (set_up _ lt lt' on, fetch_src_lem r d s s.cpu.alu lt, fetch_dest_lem r d s x lt')
            (ap (λ c. done (tt, record s { cpu = c })) codes.0),
        rw (set_up _ lt lt' on, fetch_dest_lem r d s s.cpu.alu lt', fetch_src_lem r d s y lt)
            (ap (λ c. done (tt, record s { cpu = c })) codes.0),
      )

  mov_lem :
      (r d : Reg) (s : Machine S)
      → number r < 8
      → number d < 8
      → OnRegisters r d s.cpu.ir
      → get_reg r s.cpu < 2 ^ 16
      → Operates mov r d (true, get_reg r s.cpu) s
  unfolding ◌>>=◌ ◌>>◌ alu_from_src mov set_alu zero_of_alu negative_of_alu_w
  mov_lem r d s lt lt' on word =
      let x : ℕ = get_reg r s.cpu in
      rw
        (
          setup_registers r d s false _ lt lt' on,
          fetch_src_lem r d s s.cpu.alu lt,
          (store_alu_lem r d s x lt').0,
        )
        (ap (λ c. done (tt, record s { cpu = c }))
          (word_codes_of_alu (with_result r d x x s).cpu word).0)

  -- The result is the one of the table.
  as_tabled :
      {o : Outcome (Unit {0} × Machine S)} (r d : Reg) (s : Machine S) {known result : Bool × ℕ}
      → some known ≡ some result
      → o ≡ done (tt, record s { cpu = operated r d known s.cpu })
      → o ≡ done (tt, record s { cpu = operated r d result s.cpu })
  as_tabled r d s {known} {result} e h =
      let same : known ≡ result = cc in
      h ∙ ap (λ t. done (tt, record s { cpu = operated r d t s.cpu })) same

  -- With mode 0 and the number of a general register, `sp` or `pc` in both operand fields, and
  -- 16-bit words in both registers, MOV, ADD, SUB, BIC, BIS, BIT and CMP compute the function
  -- of the table from the two words, put it into `alu`, and all but BIT and CMP into the second
  -- register. They set N and Z by the result and the two address fields to the bus addresses of
  -- the registers. They end, use no other device, and change nothing else.
  pub binary-OnRegisters :
      (op : OpCode) (r d : Reg) (result : Bool × ℕ) (s : Machine S)
      → binary op (get_reg r s.cpu) (get_reg d s.cpu) ≡ some result
      → number r < 8
      → number d < 8
      → OnRegisters r d s.cpu.ir
      → get_reg r s.cpu < 2 ^ 16
      → get_reg d s.cpu < 2 ^ 16
      → dispatch op s ≡ done (tt, record s { cpu = operated r d result s.cpu })
  unfolding dispatch add sub bic bis bit cmp
  binary-OnRegisters mov_op r d result s e lt lt' on x y =
      as_tabled r d s e (mov_lem r d s lt lt' on x)
  binary-OnRegisters add_op r d result s e lt lt' on x y =
      as_tabled r d s e (forms_lem r d (λ x y. u16 (x + y)) s lt lt' on (omega arith)).0
  binary-OnRegisters sub_op r d result s e lt lt' on x y =
      as_tabled r d s e (forms_lem r d (λ x y. sub16 x y) s lt lt' on (omega arith)).0
  binary-OnRegisters bic_op r d result s e lt lt' on x y =
      as_tabled r d s e
        (forms_lem r d (λ x y. bit_and y (bit_not x)) s lt lt' on
          (omega (arith, bit_and-le (get_reg d s.cpu) (bit_not (get_reg r s.cpu))))).1
  binary-OnRegisters bis_op r d result s e lt lt' on x y =
      as_tabled r d s e
        (forms_lem r d (λ x y. bit_or y x) s lt lt' on
          (bit_or-lt 16 (get_reg d s.cpu) (get_reg r s.cpu) y x)).1
  binary-OnRegisters bit_op r d result s e lt lt' on x y =
      as_tabled r d s e
        (forms_lem r d (λ x y. bit_and x y) s lt lt' on
          (omega (arith, bit_and-le (get_reg r s.cpu) (get_reg d s.cpu)))).2
  binary-OnRegisters cmp_op r d result s e lt lt' on x y =
      as_tabled r d s e (forms_lem r d (λ x y. sub16 y x) s lt lt' on (omega arith)).3
  binary-OnRegisters _ r d result s e lt lt' on x y = absurd (cc)

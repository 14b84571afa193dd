-- ===== src/Cpu/Laws/BinaryByte.antt =====
-- The byte instructions with two operands, on registers.
use xmachine.Base.{
  ℕ, ◌+◌, ◌-◌, ◌%◌, ◌^◌, ◌<◌, ◌≡◌, refl, ap, ◌∙◌, bit_and, bit_or, bit_not, u8, sub16, leb, ◌==◌,
  true, Option, none, some,
}
use xmachine.Base.Bits.{bit_and_low}
use xmachine.Outcome.{done}
use xmachine.Cpu.State.{Cpu, Bus, Machine, M, ◌>>=◌, ◌>>◌}
use xmachine.Cpu.Registers.{Reg, get_reg, set_reg}
use xmachine.Cpu.Addressing.{setup_src_addressing, setup_dest_addressing}
use xmachine.Cpu.Flags.{zero_of_alu, negative_of_alu_b}
use xmachine.Cpu.Ops.Alu.{
  set_alu, fetch_src, fetch_dest, alu_from_src_b, alu_from_dest_b, store_alu_b,
}
use xmachine.Cpu.Ops.Double.{movb, bicb, bisb, bitb, cmpb}
use xmachine.Cpu.Decode.{OpCode, dispatch, movb_op, bicb_op, bisb_op, bitb_op, cmpb_op}
use xmachine.Cpu.Laws.Operands.{
  number, OnRegisters, with_operands, with_result, setup_registers, fetch_src_lem, fetch_dest_lem,
  store_alu_lem, set_reg-get_reg,
}
use xmachine.Cpu.Laws.Codes.{with_codes, byte_codes_of_alu}

-- The value in `alu` after each instruction on the low bytes of source and destination, and what is
-- then in the destination, where `w` was; `none` for the others. What is stored is a whole word with
-- a zero high byte. CMPB takes the source from the destination.
abbrev pub binary_b : OpCode → ℕ → ℕ → ℕ → Option (ℕ × ℕ)
binary_b movb_op x y w = some (x % 256, x)
binary_b bicb_op x y w = some (bit_and y (bit_not x) % 256, bit_and y (bit_not x))
binary_b bisb_op x y w = some (bit_or y x % 256, bit_or y x)
binary_b bitb_op x y w = some (w, bit_and x y)
binary_b cmpb_op x y w = some (w, (y + 0x10000 - x) % 2 ^ 16)
binary_b _ x y w = none

-- The processor with `v` computed from two registers, and `kept` in the second.
abbrev pub operated : Reg → Reg → ℕ × ℕ → Cpu → Cpu
operated r d (kept, v) c = record (set_reg d kept c) {
  alu = v;
  src_address = 0o777700 + number r;
  dest_address = 0o777700 + number d;
  psw = with_codes (leb 0x80 (v % 256)) (v == 0) c.psw;
}

module _ {S : Type 0} ⦃bus : Bus S⦄ (r d : Reg) (s : Machine S) (lt : number r < 8)
    (lt' : number d < 8) (on : OnRegisters r d s.cpu.ir) where
  abbrev low : Reg → ℕ
  low q = bit_and (get_reg q s.cpu) 0o377

  abbrev Operates : M S (Unit {0}) → ℕ × ℕ → Type 0
  Operates m result = m s ≡ done (tt, record s { cpu = operated r d result s.cpu })

  -- A result that is stored, and one that is only tested.
  movb_lem : Operates movb (u8 (low r), low r)
  unfolding ◌>>=◌ ◌>>◌ alu_from_src_b movb set_alu zero_of_alu negative_of_alu_b
  movb_lem =
      rw
        (
          setup_registers r d s true _ lt lt' on,
          fetch_src_lem r d s s.cpu.alu lt,
          (store_alu_lem r d s (low r) lt').1,
        )
        (ap (λ c. done (tt, record s { cpu = c }))
          (byte_codes_of_alu (with_result r d (u8 (low r)) (low r) s).cpu).0)

  abbrev from_dest : (ℕ → ℕ → ℕ) → M S (Unit {0}) → M S (Unit {0})
  from_dest g rest = do
    setup_src_addressing true
    setup_dest_addressing true
    alu_from_dest_b
    value ← fetch_src
    set_alu (λ c. g (bit_and value 0o377) c.alu)
    rest

  abbrev from_src : (ℕ → ℕ → ℕ) → M S (Unit {0}) → M S (Unit {0})
  from_src g rest = do
    setup_src_addressing true
    setup_dest_addressing true
    alu_from_src_b
    value ← fetch_dest
    set_alu (λ c. g c.alu (bit_and value 0o377))
    rest

  abbrev storing : M S (Unit {0})
  storing = do store_alu_b; negative_of_alu_b; zero_of_alu

  abbrev testing : M S (Unit {0})
  testing = do zero_of_alu; negative_of_alu_b

  abbrev testing' : M S (Unit {0})
  testing' = do negative_of_alu_b; zero_of_alu

  stored_lem :
      (g : ℕ → ℕ → ℕ) → Operates (from_dest g storing) (u8 (g (low r) (low d)), g (low r) (low d))
  unfolding ◌>>=◌ ◌>>◌ alu_from_dest_b set_alu zero_of_alu negative_of_alu_b
  stored_lem g =
      let v : ℕ = g (low r) (low d) in
      rw
        (
          setup_registers r d s true _ lt lt' on,
          fetch_dest_lem r d s s.cpu.alu lt',
          fetch_src_lem r d s (low d) lt,
          (store_alu_lem r d s v lt').1,
        )
        (ap (λ c. done (tt, record s { cpu = c }))
          (byte_codes_of_alu (with_result r d (u8 v) v s).cpu).1)

  -- A test leaves the register as it is.
  kept :
      (v : ℕ)
      → record s { cpu = operated r d (get_reg d s.cpu, v) s.cpu } ≡ record s {
        cpu = record (with_operands r d v s).cpu {
          psw = with_codes (leb 0x80 (v % 256)) (v == 0) s.cpu.psw;
        };
      }
  kept v = rw (set_reg-get_reg d s.cpu) refl

  bitb_lem : (g : ℕ → ℕ → ℕ) → Operates (from_src g testing') (get_reg d s.cpu, g (low r) (low d))
  unfolding ◌>>=◌ ◌>>◌ alu_from_src_b set_alu zero_of_alu negative_of_alu_b
  bitb_lem g =
      let v : ℕ = g (low r) (low d) in
      rw
        (
          setup_registers r d s true _ lt lt' on,
          fetch_src_lem r d s s.cpu.alu lt,
          fetch_dest_lem r d s (low r) lt',
          kept v,
        )
        (ap (λ c. done (tt, record s { cpu = c }))
          (byte_codes_of_alu (with_operands r d v s).cpu).1)

  cmpb_lem : (g : ℕ → ℕ → ℕ) → Operates (from_dest g testing) (get_reg d s.cpu, g (low r) (low d))
  unfolding ◌>>=◌ ◌>>◌ alu_from_dest_b set_alu zero_of_alu negative_of_alu_b
  cmpb_lem g =
      let v : ℕ = g (low r) (low d) in
      rw
        (
          setup_registers r d s true _ lt lt' on,
          fetch_dest_lem r d s s.cpu.alu lt',
          fetch_src_lem r d s (low d) lt,
          kept v,
        )
        (ap (λ c. done (tt, record s { cpu = c }))
          (byte_codes_of_alu (with_operands r d v s).cpu).0)

  -- The operands as the table has them.
  tabled :
      {result : ℕ × ℕ} (f : ℕ → ℕ → ℕ × ℕ)
      → some (f (get_reg r s.cpu % 256) (get_reg d s.cpu % 256)) ≡ some result
      → (m : M S (Unit {0})) → Operates m (f (low r) (low d))
      → Operates m result
  tabled {result} f e m h =
      let same : f (low r) (low d) ≡ result =
        rw (bit_and_low 8 (get_reg r s.cpu), bit_and_low 8 (get_reg d s.cpu)) (cc) in
      h ∙ ap (λ t. done (tt, record s { cpu = operated r d t s.cpu })) same

  -- With mode 0 and the number of a general register, `sp` or `pc` in both operand fields, MOVB,
  -- BICB, BISB, BITB and CMPB compute the function of the table from the low bytes of both registers
  -- and leave it in `alu`; all but BITB and CMPB put its low byte into the second register, with a
  -- zero high byte. They set N by bit 7 of `alu`, Z by whether all of `alu` is zero, and the two
  -- address fields to the bus addresses of the registers. They end, use no other device, and change
  -- nothing else.
  pub binary_b-OnRegisters :
      (op : OpCode) (result : ℕ × ℕ)
      → binary_b op (get_reg r s.cpu % 256) (get_reg d s.cpu % 256) (get_reg d s.cpu) ≡ some result
      → dispatch op s ≡ done (tt, record s { cpu = operated r d result s.cpu })
  unfolding dispatch bicb bisb bitb cmpb
  binary_b-OnRegisters movb_op result e = tabled (λ x y. (x % 256, x)) e movb movb_lem
  binary_b-OnRegisters bicb_op result e =
      tabled (λ x y. (bit_and y (bit_not x) % 256, bit_and y (bit_not x))) e bicb
        (stored_lem (λ x y. bit_and y (bit_not x)))
  binary_b-OnRegisters bisb_op result e =
      tabled (λ x y. (bit_or y x % 256, bit_or y x)) e bisb (stored_lem (λ x y. bit_or y x))
  binary_b-OnRegisters bitb_op result e =
      tabled (λ x y. (get_reg d s.cpu, bit_and x y)) e bitb (bitb_lem (λ x y. bit_and x y))
  binary_b-OnRegisters cmpb_op result e =
      tabled (λ x y. (get_reg d s.cpu, (y + 0x10000 - x) % 2 ^ 16)) e cmpb
        (cmpb_lem (λ x y. sub16 y x))
  binary_b-OnRegisters _ result e = absurd (cc)

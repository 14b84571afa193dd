-- ===== src/Cpu/Addressing.antt =====
-- The operand modes: where an instruction finds its source and its destination.
use xmachine.Base.{ℕ, ◌+◌, bit_and, u16, u32, sub16, ◌>>>◌, if◌then◌else◌, Bool, true, false}
use xmachine.Base.{[], ◌∷◌}
use xmachine.Cpu.State.{Cpu, Bus, M, ◌>>=◌, ◌>>◌, reads, assign, skip}
use xmachine.Cpu.Registers.{
  switch, stride, inc_register, dec_register, fetch_register_contents, register_to_bus_addr,
}
use xmachine.Cpu.Access.{fetch_data, store_data}

-- `loc`: which of the two address fields is set up.
pub data Loc : Type 0 where
  src dest : Loc

abbrev pub set_loc : Loc → ℕ → Cpu → Cpu
set_loc src v c = record c { src_address = v }
set_loc dest v c = record c { dest_address = v }

abbrev pub add_pc : Cpu → Cpu
add_pc c = record c { pc = u16 (c.pc + 2) }

abbrev pub add_sp : Cpu → Cpu
add_sp c = record c { sp = u16 (c.sp + 2) }

module _ {S : Type 0} ⦃bus : Bus S⦄ where
  -- `fetch_data(CPU_STATE->pc)` and `CPU_STATE->pc += 2`.
  unfoldable pub next_word : M S ℕ
  next_word = do pc ← reads (λ c. c.pc); word ← fetch_data pc; assign add_pc; reads (λ _. word)

  -- Modes with no case leave the address field as it was.
  unfoldable pub setup_pc_addressing : Loc → ℕ → ℕ → M S (Unit {0})
  unfolding next_word
  setup_pc_addressing loc mode reg =
      switch mode
        ((0, assign (set_loc loc (register_to_bus_addr reg)))
          ∷ (2, do assign (λ c. set_loc loc c.pc c); assign add_pc)
          ∷ (3, do addr ← next_word; assign (set_loc loc addr))
          ∷ (6, do relative ← next_word; assign (λ c. set_loc loc (u32 (c.pc + relative)) c))
          ∷ [])
        skip

  unfoldable pub setup_sp_addressing : Loc → ℕ → ℕ → M S (Unit {0})
  unfolding next_word
  setup_sp_addressing loc mode reg =
      switch mode
        ((0, assign (set_loc loc (register_to_bus_addr reg)))
          ∷ (1, assign (λ c. set_loc loc c.sp c))
          ∷ (2, do assign (λ c. set_loc loc c.sp c); assign add_sp)
          ∷ (
            3,
            do
              sp ← reads (λ c. c.sp)
              addr ← fetch_data sp
              assign (set_loc loc addr)
              assign add_sp,
          )
          ∷ (4, do assign (λ c. record c { sp = sub16 c.sp 2 }); assign (λ c. set_loc loc c.sp c))
          ∷ (6, do index ← next_word; assign (λ c. set_loc loc (u32 (c.sp + index)) c))
          ∷ (
            7,
            do
              index ← next_word
              sp ← reads (λ c. c.sp)
              addr ← fetch_data (u32 (index + sp))
              assign (set_loc loc addr),
          )
          ∷ [])
        skip

  -- The word and the byte version differ in the amount by which they step.
  unfoldable pub general_addressing : Bool → Loc → ℕ → ℕ → M S (Unit {0})
  unfolding next_word
  general_addressing is_byte loc mode reg =
      switch mode
        ((0, assign (set_loc loc (register_to_bus_addr reg)))
          ∷ (1, assign (λ c. set_loc loc (fetch_register_contents reg c) c))
          ∷ (
            2,
            do
              assign (λ c. set_loc loc (fetch_register_contents reg c) c)
              assign (inc_register reg is_byte),
          )
          ∷ (
            3,
            do
              deferred ← reads (fetch_register_contents reg)
              index ← fetch_data deferred
              assign (inc_register reg is_byte)
              addr ← fetch_data index
              assign (set_loc loc addr),
          )
          ∷ (
            4,
            do
              assign (λ c. set_loc loc (fetch_register_contents reg c) c)
              assign (dec_register reg is_byte),
          )
          ∷ (
            5,
            do
              deferred ← reads (fetch_register_contents reg)
              index ← fetch_data deferred
              addr ← fetch_data index
              assign (set_loc loc addr)
              store_data deferred (sub16 index (stride is_byte)),
          )
          ∷ (
            6,
            do
              index ← next_word
              deferred ← reads (fetch_register_contents reg)
              addr ← fetch_data (u32 (index + deferred))
              assign (set_loc loc addr),
          )
          ∷ (
            7,
            do
              index ← next_word
              deferred ← reads (fetch_register_contents reg)
              pointer ← fetch_data deferred
              addr ← fetch_data (u32 (pointer + index))
              assign (set_loc loc addr),
          )
          ∷ [])
        skip

  unfoldable pub setup_general_addressing : Loc → ℕ → ℕ → M S (Unit {0})
  unfolding general_addressing
  setup_general_addressing = general_addressing false

  unfoldable pub setup_general_byte_addressing : Loc → ℕ → ℕ → M S (Unit {0})
  unfolding general_addressing
  setup_general_byte_addressing = general_addressing true

  -- The `switch (reg)` of both functions below.
  unfoldable pub setup_addressing : Loc → Bool → ℕ → ℕ → M S (Unit {0})
  setup_addressing loc use_byte_addr mode reg =
      switch reg
        ((7, setup_pc_addressing loc mode reg) ∷ (6, setup_sp_addressing loc mode reg) ∷ [])
        (if use_byte_addr
          then setup_general_byte_addressing loc mode reg
          else setup_general_addressing loc mode reg)

  unfoldable pub setup_dest_addressing : Bool → M S (Unit {0})
  setup_dest_addressing use_byte_addr = do
    ir ← reads (λ c. c.ir)
    setup_addressing Loc.dest use_byte_addr (bit_and ir 0o70 >>> 3) (bit_and ir 0o7)

  unfoldable pub setup_src_addressing : Bool → M S (Unit {0})
  setup_src_addressing use_byte_addr = do
    ir ← reads (λ c. c.ir)
    setup_addressing Loc.src use_byte_addr (bit_and ir 0o7000 >>> 9) (bit_and ir 0o700 >>> 6)

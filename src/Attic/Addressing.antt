-- ===== src/Attic/Addressing.antt =====
-- attic/src/handlers.c: the operands of an instruction.
use xmachine.Base.{ℕ, ◌+◌, bit_and, u16, ◌>>>◌, [], ◌∷◌}
use xmachine.Attic.State.{Effect, Memory, Command, ◌>>=◌, ◌>>◌, skip, assign}
use xmachine.Attic.Memory.{
  r_pc, translate_register, get_r, direct_read_word, direct_read_byte, word_advance, byte_advance,
  word_decrease, byte_decrease, word_advance_r, byte_advance_r, word_decrease_r, byte_decrease_r,
}
use xmachine.Cpu.Registers.{switch}

-- Which of `memory->src` and `memory->dest` is set up.
pub data Loc : Type 0 where
  src dest : Loc

abbrev pub set_loc : Loc → ℕ → Command Memory (Unit {0})
set_loc Loc.src addr = assign (λ m. record m { src = addr })
set_loc Loc.dest addr = assign (λ m. record m { dest = addr })

-- The mode and the register of an operand in the instruction word.
abbrev pub mode_of : Loc → ℕ → ℕ
mode_of Loc.src ir = bit_and ir 0o7000 >>> 9
mode_of Loc.dest ir = bit_and ir 0o70 >>> 3

abbrev pub reg_of : Loc → ℕ → ℕ
reg_of Loc.src ir = bit_and ir 0o700 >>> 6
reg_of Loc.dest ir = bit_and ir 0o7

module _ (call : Effect → Command Memory (Unit {0})) where
  -- The word at `pc`, and `pc` behind it.
  abbrev next_word : Command Memory ℕ
  next_word = do pc ← get_r r_pc; word_advance_r r_pc; direct_read_word call pc

  -- The four functions for `pc` are alike. In mode 0 the register is that of the destination field,
  -- for a source as well.
  unfoldable pub pc_addressing : Loc → ℕ → Command Memory (Unit {0})
  unfolding ◌>>=◌ ◌>>◌ switch
  pc_addressing loc ir =
      switch (mode_of loc ir)
        ((0, set_loc loc (translate_register (bit_and ir 0o7)))
          ∷ (2, do pc ← get_r r_pc; word_advance_r r_pc; set_loc loc pc)
          ∷ (3, do addr ← next_word; set_loc loc addr)
          ∷ (
            6,
            do
              pc ← get_r r_pc
              relative ← direct_read_word call pc
              word_advance_r r_pc
              next ← get_r r_pc
              set_loc loc (u16 (next + relative)),
          )
          ∷ [])
        skip

  -- The index word of modes 6 and 7: for a source, `pc` stays before it.
  abbrev sp_index : Loc → Command Memory ℕ
  sp_index Loc.dest = next_word
  sp_index Loc.src = do pc ← get_r r_pc; direct_read_word call pc

  unfoldable pub sp_addressing : Loc → ℕ → ℕ → Command Memory (Unit {0})
  unfolding ◌>>=◌ ◌>>◌ switch
  sp_addressing loc mode reg =
      switch mode
        ((0, set_loc loc (translate_register reg))
          ∷ (1, do addr ← get_r reg; set_loc loc addr)
          ∷ (2, do addr ← get_r reg; set_loc loc addr; word_advance_r reg)
          ∷ (
            3,
            do
              deferred ← get_r reg
              addr ← direct_read_word call deferred
              word_advance_r reg
              set_loc loc addr,
          )
          ∷ (4, do word_decrease_r reg; addr ← get_r reg; set_loc loc addr)
          ∷ (6, do index ← sp_index loc; addr ← get_r reg; set_loc loc (u16 (addr + index)))
          ∷ (
            7,
            do
              index ← sp_index loc
              addr ← get_r reg
              item ← direct_read_word call (u16 (addr + index))
              set_loc loc item,
          )
          ∷ [])
        skip

  -- Mode 5 of a word operand: for a source, `reg` itself is decreased before its use.
  abbrev deferred_decrement : Loc → ℕ → Command Memory (Unit {0})
  deferred_decrement Loc.src reg = do
    word_decrease_r reg
    deferred ← get_r reg
    index ← direct_read_word call deferred
    set_loc Loc.src index
  deferred_decrement Loc.dest reg = do
    deferred ← get_r reg
    index ← direct_read_word call deferred
    addr ← direct_read_word call index
    set_loc Loc.dest addr
    word_decrease deferred

  unfoldable pub general_addressing : Loc → ℕ → ℕ → Command Memory (Unit {0})
  unfolding ◌>>=◌ ◌>>◌ switch
  general_addressing loc mode reg =
      switch mode
        ((0, set_loc loc (translate_register reg))
          ∷ (1, do addr ← get_r reg; set_loc loc addr)
          ∷ (2, do addr ← get_r reg; set_loc loc addr; word_advance_r reg)
          ∷ (
            3,
            do
              deferred ← get_r reg
              index ← direct_read_word call deferred
              word_advance deferred
              addr ← direct_read_word call index
              set_loc loc addr,
          )
          ∷ (4, do addr ← get_r reg; set_loc loc addr; word_decrease_r reg)
          ∷ (5, deferred_decrement loc reg)
          ∷ (
            6,
            do
              index ← next_word
              base ← get_r reg
              addr ← direct_read_word call (u16 (base + index))
              set_loc loc addr,
          )
          ∷ (
            7,
            do
              index ← next_word
              deferred ← get_r reg
              pointer ← direct_read_word call deferred
              addr ← direct_read_word call (u16 (pointer + index))
              set_loc loc addr,
          )
          ∷ [])
        skip

  -- As it stands, the operands of a byte instruction are reached through bytes.
  unfoldable pub general_byte_addressing : Loc → ℕ → ℕ → Command Memory (Unit {0})
  unfolding ◌>>=◌ ◌>>◌ switch
  general_byte_addressing loc mode reg =
      switch mode
        ((0, set_loc loc (translate_register reg))
          ∷ (1, do addr ← get_r reg; set_loc loc addr)
          ∷ (2, do addr ← get_r reg; set_loc loc addr; byte_advance_r reg)
          ∷ (
            3,
            do
              deferred ← get_r reg
              index ← direct_read_byte call deferred
              byte_advance deferred
              addr ← direct_read_byte call index
              set_loc loc addr,
          )
          ∷ (4, do addr ← get_r reg; set_loc loc addr; byte_decrease_r reg)
          ∷ (
            5,
            do
              deferred ← get_r reg
              index ← direct_read_byte call deferred
              addr ← direct_read_byte call index
              set_loc loc addr
              byte_decrease deferred,
          )
          ∷ (
            6,
            do
              pc ← get_r r_pc
              word_advance_r r_pc
              index ← direct_read_byte call pc
              base ← get_r reg
              addr ← direct_read_byte call (u16 (base + index))
              set_loc loc addr,
          )
          ∷ (
            7,
            do
              pc ← get_r r_pc
              word_advance_r r_pc
              index ← direct_read_byte call pc
              deferred ← get_r reg
              pointer ← direct_read_byte call deferred
              addr ← direct_read_byte call (u16 (pointer + index))
              set_loc loc addr,
          )
          ∷ [])
        skip

-- ===== src/Attic/Steps.antt =====
-- The steps that the instructions share.
use xmachine.Base.{ℕ, bit_and, u8}
use xmachine.Attic.State.{Effect, Memory, Emulator, Command, ◌>>=◌, reads, assign, on_memory}
use xmachine.Attic.Memory.{r_ps, get_r, direct_read_word, direct_read_byte, write_word, write_byte}
use xmachine.Attic.Branches.{carry_flag}

-- `ALU` set, and used.
unfoldable pub set_alu : (Emulator → ℕ) → Command Emulator (Unit {0})
set_alu f = assign (λ s. record s { alu = f s })

-- `get_r(R_PS) & CARRYFLAG`
unfoldable pub carry : Command Emulator ℕ
unfolding ◌>>=◌
carry = do ps ← on_memory (get_r r_ps); reads (λ s. bit_and ps carry_flag)

module _ (call : Effect → Command Memory (Unit {0})) where
  -- The operand at `memory->dest`.
  unfoldable pub dest_word : Command Emulator ℕ
  unfolding ◌>>=◌
  dest_word = do loc ← reads (λ s. s.memory.dest); on_memory (direct_read_word call loc)

  unfoldable pub dest_byte : Command Emulator ℕ
  unfolding ◌>>=◌
  dest_byte = do loc ← reads (λ s. s.memory.dest); on_memory (direct_read_byte call loc)

  unfoldable pub put_word : ℕ → Command Emulator (Unit {0})
  put_word word = on_memory (write_word call word)

  -- The argument is a `uint8_t`.
  unfoldable pub put_byte : ℕ → Command Emulator (Unit {0})
  put_byte byte = on_memory (write_byte call (u8 byte))

  unfoldable pub put_alu : Command Emulator (Unit {0})
  unfolding ◌>>=◌ put_word
  put_alu = do word ← reads (λ s. s.alu); put_word word

  unfoldable pub put_alu_b : Command Emulator (Unit {0})
  unfolding ◌>>=◌ put_byte
  put_alu_b = do byte ← reads (λ s. s.alu); put_byte byte

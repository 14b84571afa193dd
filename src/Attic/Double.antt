-- ===== src/Attic/Double.antt =====
-- attic/src/handlers.c: the instructions with two operands.
use xmachine.Base.{◌+◌, bit_and, bit_or, bit_not, u16, sub16}
use xmachine.Attic.State.{Effect, Memory, Emulator, Command, ◌>>=◌, ◌>>◌, reads, on_memory}
use xmachine.Attic.Memory.{read_word, read_byte}
use xmachine.Attic.Operands.{
  setup_src_addressing, setup_src_byte_addressing, setup_dest_addressing,
  setup_dest_byte_addressing,
}
use xmachine.Attic.Branches.{set_zero_flag, set_negative_flag_b, set_negative_flag_w, nop}
use xmachine.Attic.Steps.{set_alu, dest_word, dest_byte, put_alu, put_alu_b}

unfoldable pub zero_of_alu : Command Emulator (Unit {0})
unfolding ◌>>=◌
zero_of_alu = do value ← reads (λ s. s.alu); set_zero_flag value

module _ (call : Effect → Command Memory (Unit {0})) where
  unfoldable pub mov : Command Emulator (Unit {0})
  unfolding ◌>>=◌ ◌>>◌
  mov = do
    setup_src_addressing call
    setup_dest_addressing call
    value ← on_memory (read_word call)
    set_alu (λ s. value)
    put_alu call
    zero_of_alu
    set_negative_flag_w value

  unfoldable pub movb : Command Emulator (Unit {0})
  unfolding ◌>>=◌ ◌>>◌
  movb = do
    setup_src_byte_addressing call
    setup_dest_byte_addressing call
    value ← on_memory (read_byte call)
    set_alu (λ s. value)
    put_alu_b call
    zero_of_alu
    set_negative_flag_b value

  unfoldable pub cmp : Command Emulator (Unit {0})
  unfolding ◌>>=◌ ◌>>◌
  cmp = do
    setup_src_addressing call
    setup_dest_addressing call
    first ← dest_word call
    set_alu (λ s. first)
    value ← on_memory (read_word call)
    set_alu (λ s. sub16 s.alu value)
    zero_of_alu

  unfoldable pub cmpb : Command Emulator (Unit {0})
  unfolding ◌>>=◌ ◌>>◌
  cmpb = do
    setup_src_byte_addressing call
    setup_dest_byte_addressing call
    first ← dest_byte call
    set_alu (λ s. first)
    value ← on_memory (read_byte call)
    set_alu (λ s. sub16 s.alu value)
    zero_of_alu

  unfoldable pub bit : Command Emulator (Unit {0})
  unfolding ◌>>=◌ ◌>>◌
  bit = do
    setup_src_addressing call
    setup_dest_addressing call
    first ← on_memory (read_word call)
    set_alu (λ s. first)
    value ← dest_word call
    set_alu (λ s. bit_and s.alu value)
    zero_of_alu

  unfoldable pub bitb : Command Emulator (Unit {0})
  bitb = nop

  unfoldable pub bic : Command Emulator (Unit {0})
  unfolding ◌>>=◌ ◌>>◌
  bic = do
    setup_src_addressing call
    setup_dest_addressing call
    first ← dest_word call
    set_alu (λ s. first)
    value ← on_memory (read_word call)
    set_alu (λ s. bit_and s.alu (bit_not value))
    put_alu call

  unfoldable pub bicb : Command Emulator (Unit {0})
  bicb = nop

  unfoldable pub bis : Command Emulator (Unit {0})
  unfolding ◌>>=◌ ◌>>◌
  bis = do
    setup_src_addressing call
    setup_dest_addressing call
    first ← dest_word call
    set_alu (λ s. first)
    value ← on_memory (read_word call)
    set_alu (λ s. bit_or s.alu value)
    put_alu call

  unfoldable pub bisb : Command Emulator (Unit {0})
  bisb = nop

  unfoldable pub add : Command Emulator (Unit {0})
  unfolding ◌>>=◌ ◌>>◌
  add = do
    setup_src_addressing call
    setup_dest_addressing call
    first ← dest_word call
    set_alu (λ s. first)
    value ← on_memory (read_word call)
    set_alu (λ s. u16 (s.alu + value))
    put_alu call

  unfoldable pub sub : Command Emulator (Unit {0})
  unfolding ◌>>=◌ ◌>>◌
  sub = do
    setup_src_addressing call
    setup_dest_addressing call
    first ← dest_word call
    set_alu (λ s. first)
    value ← on_memory (read_word call)
    set_alu (λ s. sub16 s.alu value)
    put_alu call
    zero_of_alu

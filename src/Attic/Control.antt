-- ===== src/Attic/Control.antt =====
-- attic/src/handlers.c: jumps, subroutines, the status word, and the instructions that do nothing.
use xmachine.Base.{bit_and, bit_xor, ◌>>>◌, true}
use xmachine.Attic.State.{Effect, Memory, Emulator, Command, ◌>>=◌, ◌>>◌, reads, assign, on_memory}
use xmachine.Attic.Memory.{
  r_sp, r_pc, r_ps, get_r, set_r, word_advance_r, word_decrease_r, direct_read_word,
  direct_write_word,
}
use xmachine.Attic.Operands.{setup_dest_addressing}
use xmachine.Attic.Branches.{nop}
use xmachine.Attic.Steps.{set_alu, dest_word, put_word, put_alu}
use xmachine.Attic.Double.{zero_of_alu}

unfoldable pub mfpi : Command Emulator (Unit {0})
unfolding nop
mfpi = nop

unfoldable pub mfpd : Command Emulator (Unit {0})
unfolding nop
mfpd = nop

unfoldable pub mtpi : Command Emulator (Unit {0})
unfolding nop
mtpi = nop

unfoldable pub mtpd : Command Emulator (Unit {0})
unfolding nop
mtpd = nop

unfoldable pub sxt : Command Emulator (Unit {0})
unfolding nop
sxt = nop

unfoldable pub mul : Command Emulator (Unit {0})
unfolding nop
mul = nop

unfoldable pub div : Command Emulator (Unit {0})
unfolding nop
div = nop

unfoldable pub ash : Command Emulator (Unit {0})
unfolding nop
ash = nop

unfoldable pub ashc : Command Emulator (Unit {0})
unfolding nop
ashc = nop

unfoldable pub halt : Command Emulator (Unit {0})
halt = assign (λ s. record s { halted = true })

module _ (call : Effect → Command Memory (Unit {0})) where
  unfoldable pub jmp : Command Emulator (Unit {0})
  unfolding ◌>>=◌ ◌>>◌
  jmp = do setup_dest_addressing call; addr ← dest_word call; on_memory (set_r r_pc addr)

  unfoldable pub mtps : Command Emulator (Unit {0})
  unfolding ◌>>=◌ ◌>>◌
  mtps = do setup_dest_addressing call; ps ← dest_word call; on_memory (set_r r_ps ps)

  unfoldable pub mfps : Command Emulator (Unit {0})
  unfolding ◌>>=◌ ◌>>◌
  mfps = do setup_dest_addressing call; ps ← on_memory (get_r r_ps); put_word call ps

  unfoldable pub xor : Command Emulator (Unit {0})
  unfolding ◌>>=◌ ◌>>◌
  xor = do
    ir ← reads (λ s. s.ir)
    setup_dest_addressing call
    first ← on_memory (get_r (bit_and ir 0o700 >>> 6))
    set_alu (λ s. first)
    value ← dest_word call
    set_alu (λ s. bit_xor s.alu value)
    put_alu call
    zero_of_alu

  unfoldable pub jsr : Command Emulator (Unit {0})
  unfolding ◌>>=◌ ◌>>◌
  jsr = do
    ir ← reads (λ s. s.ir)
    let reg = bit_and ir 0o700 >>> 6
    setup_dest_addressing call
    tmp ← dest_word call
    contents ← on_memory (get_r reg)
    sp ← on_memory (get_r r_sp)
    on_memory (direct_write_word call sp contents)
    on_memory (word_decrease_r r_sp)
    pc ← on_memory (get_r r_pc)
    on_memory (set_r reg pc)
    on_memory (set_r r_pc tmp)

  unfoldable pub rts : Command Emulator (Unit {0})
  unfolding ◌>>=◌ ◌>>◌
  rts = do
    ir ← reads (λ s. s.ir)
    let reg = bit_and ir 0o7
    contents ← on_memory (get_r reg)
    on_memory (set_r r_pc contents)
    on_memory (word_advance_r r_sp)
    sp ← on_memory (get_r r_sp)
    top ← on_memory (direct_read_word call sp)
    on_memory (set_r reg top)

-- ===== src/Attic/Single.antt =====
-- attic/src/handlers.c: the instructions with one operand.
use xmachine.Base.{◌+◌, ◌-◌, ◌^◌, bit_and, bit_or, bit_not, u8, u16, sub16, ◌<<<◌, ◌>>>◌}
use xmachine.Attic.State.{Effect, Memory, Emulator, Command, ◌>>=◌, ◌>>◌}
use xmachine.Attic.Operands.{setup_dest_addressing, setup_dest_byte_addressing}
use xmachine.Attic.Branches.{set_zero_flag, set_negative_flag_b, set_negative_flag_w}
use xmachine.Attic.Steps.{
  set_alu, carry, dest_word, dest_byte, put_word, put_byte, put_alu, put_alu_b,
}
use xmachine.Attic.Double.{zero_of_alu}

module _ (call : Effect → Command Memory (Unit {0})) where
  unfoldable pub swab : Command Emulator (Unit {0})
  unfolding ◌>>=◌ ◌>>◌
  swab = do
    setup_dest_addressing call
    word ← dest_word call
    let result = bit_or (bit_and word 0o177400 >>> 8) (bit_and word 0o377 <<< 8)
    put_word call result

  unfoldable pub clr : Command Emulator (Unit {0})
  unfolding ◌>>=◌ ◌>>◌
  clr = do setup_dest_addressing call; put_word call 0

  unfoldable pub clrb : Command Emulator (Unit {0})
  unfolding ◌>>=◌ ◌>>◌
  clrb = do setup_dest_addressing call; put_byte call 0

  unfoldable pub com_word : Command Emulator (Unit {0})
  unfolding ◌>>=◌ ◌>>◌
  com_word = do
    setup_dest_addressing call
    word ← dest_word call
    let result = u16 (bit_not word)
    put_word call result

  unfoldable pub comb : Command Emulator (Unit {0})
  unfolding ◌>>=◌ ◌>>◌
  comb = do
    setup_dest_addressing call
    byte ← dest_byte call
    let result = u8 (bit_not byte)
    put_byte call result

  unfoldable pub inc : Command Emulator (Unit {0})
  unfolding ◌>>=◌ ◌>>◌
  inc = do
    setup_dest_addressing call
    word ← dest_word call
    let result = u16 (word + 1)
    put_word call result

  unfoldable pub incb : Command Emulator (Unit {0})
  unfolding ◌>>=◌ ◌>>◌
  incb = do
    setup_dest_addressing call
    byte ← dest_byte call
    let result = u8 (byte + 1)
    put_byte call result

  unfoldable pub dec : Command Emulator (Unit {0})
  unfolding ◌>>=◌ ◌>>◌
  dec = do
    setup_dest_addressing call
    word ← dest_word call
    let result = sub16 word 1
    put_word call result
    set_zero_flag result

  unfoldable pub decb : Command Emulator (Unit {0})
  unfolding ◌>>=◌ ◌>>◌
  decb = do
    setup_dest_byte_addressing call
    byte ← dest_byte call
    let result = u8 (byte + 2 ^ 8 - 1)
    put_byte call result
    set_zero_flag result

  unfoldable pub neg : Command Emulator (Unit {0})
  unfolding ◌>>=◌ ◌>>◌
  neg = do
    setup_dest_addressing call
    operand ← dest_word call
    set_alu (λ s. operand)
    set_alu (λ s. u16 (bit_not s.alu + 1))
    put_alu call
    zero_of_alu

  unfoldable pub negb : Command Emulator (Unit {0})
  unfolding ◌>>=◌ ◌>>◌
  negb = do
    setup_dest_byte_addressing call
    byte ← dest_byte call
    let result = u8 (bit_not byte + 1)
    put_byte call result
    set_zero_flag result

  unfoldable pub adc : Command Emulator (Unit {0})
  unfolding ◌>>=◌ ◌>>◌
  adc = do
    setup_dest_addressing call
    word ← dest_word call
    c ← carry
    let result = u16 (word + c)
    put_word call result
    set_zero_flag result

  unfoldable pub adcb : Command Emulator (Unit {0})
  unfolding ◌>>=◌ ◌>>◌
  adcb = do
    setup_dest_byte_addressing call
    byte ← dest_byte call
    c ← carry
    let result = u8 (byte + c)
    put_byte call result
    set_zero_flag result

  unfoldable pub sbc : Command Emulator (Unit {0})
  unfolding ◌>>=◌ ◌>>◌
  sbc = do
    setup_dest_addressing call
    word ← dest_word call
    c ← carry
    let result = sub16 word c
    put_word call result
    set_zero_flag result

  unfoldable pub sbcb : Command Emulator (Unit {0})
  unfolding ◌>>=◌ ◌>>◌
  sbcb = do
    setup_dest_byte_addressing call
    byte ← dest_byte call
    c ← carry
    let result = u8 (byte + 2 ^ 8 - c)
    put_byte call result
    set_zero_flag result

  unfoldable pub tst : Command Emulator (Unit {0})
  unfolding ◌>>=◌ ◌>>◌
  tst = do
    setup_dest_addressing call
    operand ← dest_word call
    set_alu (λ s. operand)
    zero_of_alu
    set_negative_flag_w operand

  unfoldable pub tstb : Command Emulator (Unit {0})
  unfolding ◌>>=◌ ◌>>◌
  tstb = do
    setup_dest_byte_addressing call
    operand ← dest_byte call
    set_alu (λ s. operand)
    zero_of_alu
    set_negative_flag_b operand

  unfoldable pub ror : Command Emulator (Unit {0})
  unfolding ◌>>=◌ ◌>>◌
  ror = do
    setup_dest_addressing call
    word ← dest_word call
    let result = u16 (bit_or (word <<< 1) (word >>> 15))
    put_word call result
    set_zero_flag result

  unfoldable pub rorb : Command Emulator (Unit {0})
  unfolding ◌>>=◌ ◌>>◌
  rorb = do
    setup_dest_byte_addressing call
    byte ← dest_byte call
    let result = u8 (bit_or (byte <<< 1) (byte >>> 7))
    put_byte call result
    set_zero_flag result

  unfoldable pub rol : Command Emulator (Unit {0})
  unfolding ◌>>=◌ ◌>>◌
  rol = do
    setup_dest_addressing call
    word ← dest_word call
    let result = u16 (bit_or (word <<< 15) (word >>> 1))
    put_word call result
    set_zero_flag result

  unfoldable pub rolb : Command Emulator (Unit {0})
  unfolding ◌>>=◌ ◌>>◌
  rolb = do
    setup_dest_byte_addressing call
    byte ← dest_byte call
    let result = u8 (bit_or (byte <<< 7) (byte >>> 1))
    put_byte call result
    set_zero_flag result

  unfoldable pub asr : Command Emulator (Unit {0})
  unfolding ◌>>=◌ ◌>>◌
  asr = do
    setup_dest_addressing call
    operand ← dest_word call
    set_alu (λ s. operand)
    set_alu (λ s. s.alu >>> 1)
    put_alu call
    zero_of_alu

  unfoldable pub asrb : Command Emulator (Unit {0})
  unfolding ◌>>=◌ ◌>>◌
  asrb = do
    setup_dest_byte_addressing call
    operand ← dest_byte call
    set_alu (λ s. operand)
    set_alu (λ s. s.alu >>> 1)
    put_alu_b call
    zero_of_alu

  unfoldable pub asl : Command Emulator (Unit {0})
  unfolding ◌>>=◌ ◌>>◌
  asl = do
    setup_dest_addressing call
    operand ← dest_word call
    set_alu (λ s. operand)
    set_alu (λ s. u16 (s.alu <<< 1))
    put_alu call
    zero_of_alu

  unfoldable pub aslb : Command Emulator (Unit {0})
  unfolding ◌>>=◌ ◌>>◌
  aslb = do
    setup_dest_byte_addressing call
    operand ← dest_byte call
    set_alu (λ s. operand)
    set_alu (λ s. u16 (s.alu <<< 1))
    put_alu_b call
    zero_of_alu

-- ===== src/Cpu/Ops/Single.antt =====
-- The instructions with one operand.
use xmachine.Base.{◌+◌, bit_and, bit_or, bit_not, u16, sub16, ◌<<<◌, ◌>>>◌, true, false}
use xmachine.Cpu.State.{Bus, M, ◌>>=◌, ◌>>◌}
use xmachine.Cpu.Flags.{carry_flag, zero_of_alu, negative_of_alu_b, negative_of_alu_w}
use xmachine.Cpu.Addressing.{setup_dest_addressing}
use xmachine.Cpu.Ops.Alu.{
  set_alu, fetch_dest, alu_from_dest, alu_from_dest_b, store_alu, store_alu_b,
}

module _ {S : Type 0} ⦃bus : Bus S⦄ where
  unfoldable pub adcb : M S (Unit {0})
  adcb = do
    setup_dest_addressing true
    alu_from_dest_b
    set_alu (λ c. u16 (c.alu + bit_and c.psw carry_flag))
    store_alu_b
    zero_of_alu
    negative_of_alu_b

  unfoldable pub adc : M S (Unit {0})
  adc = do
    setup_dest_addressing false
    alu_from_dest
    set_alu (λ c. u16 (c.alu + bit_and c.psw carry_flag))
    store_alu
    zero_of_alu
    negative_of_alu_w

  unfoldable pub aslb : M S (Unit {0})
  aslb = do
    setup_dest_addressing true
    alu_from_dest_b
    set_alu (λ c. u16 (c.alu <<< 1))
    store_alu
    zero_of_alu
    negative_of_alu_b

  unfoldable pub asl : M S (Unit {0})
  asl = do
    setup_dest_addressing false
    alu_from_dest
    set_alu (λ c. u16 (c.alu <<< 1))
    store_alu
    zero_of_alu
    negative_of_alu_w

  unfoldable pub asrb : M S (Unit {0})
  asrb = do
    setup_dest_addressing true
    alu_from_dest_b
    set_alu (λ c. c.alu >>> 1)
    store_alu_b
    zero_of_alu
    negative_of_alu_b

  unfoldable pub asr : M S (Unit {0})
  asr = do
    setup_dest_addressing false
    alu_from_dest
    set_alu (λ c. c.alu >>> 1)
    store_alu
    zero_of_alu
    negative_of_alu_w

  unfoldable pub clrb : M S (Unit {0})
  clrb = do
    setup_dest_addressing true
    set_alu (λ c. 0)
    store_alu_b
    negative_of_alu_b
    zero_of_alu

  unfoldable pub clr : M S (Unit {0})
  clr = do setup_dest_addressing false; set_alu (λ c. 0); store_alu; negative_of_alu_w; zero_of_alu

  unfoldable pub comb : M S (Unit {0})
  comb = do
    setup_dest_addressing false
    value ← fetch_dest
    set_alu (λ c. u16 (bit_not (bit_and value 0o377)))
    store_alu_b
    negative_of_alu_b
    zero_of_alu

  unfoldable pub com_word : M S (Unit {0})
  com_word = do
    setup_dest_addressing false
    value ← fetch_dest
    set_alu (λ c. u16 (bit_not value))
    store_alu
    negative_of_alu_w
    zero_of_alu

  unfoldable pub decb : M S (Unit {0})
  decb = do
    setup_dest_addressing true
    alu_from_dest_b
    set_alu (λ c. sub16 c.alu 1)
    store_alu_b
    zero_of_alu
    negative_of_alu_b

  unfoldable pub dec : M S (Unit {0})
  dec = do
    setup_dest_addressing false
    alu_from_dest
    set_alu (λ c. sub16 c.alu 1)
    store_alu
    zero_of_alu
    negative_of_alu_w

  unfoldable pub incb : M S (Unit {0})
  incb = do
    setup_dest_addressing true
    alu_from_dest_b
    set_alu (λ c. u16 (c.alu + 1))
    store_alu_b
    zero_of_alu
    negative_of_alu_b

  unfoldable pub inc : M S (Unit {0})
  inc = do
    setup_dest_addressing false
    alu_from_dest
    set_alu (λ c. u16 (c.alu + 1))
    store_alu
    zero_of_alu
    negative_of_alu_w

  unfoldable pub negb : M S (Unit {0})
  negb = do
    setup_dest_addressing true
    alu_from_dest_b
    set_alu (λ c. bit_and (bit_not c.alu + 1) 0o377)
    store_alu_b
    zero_of_alu
    negative_of_alu_b

  unfoldable pub neg : M S (Unit {0})
  neg = do
    setup_dest_addressing false
    alu_from_dest
    set_alu (λ c. u16 (bit_not c.alu + 1))
    store_alu
    zero_of_alu
    negative_of_alu_w

  unfoldable pub rolb : M S (Unit {0})
  rolb = do
    setup_dest_addressing true
    alu_from_dest_b
    set_alu (λ c. u16 (bit_or (c.alu <<< 7) (c.alu >>> 1)))
    store_alu_b
    zero_of_alu
    negative_of_alu_b

  unfoldable pub rol : M S (Unit {0})
  rol = do
    setup_dest_addressing false
    alu_from_dest
    set_alu (λ c. u16 (bit_or (c.alu <<< 15) (c.alu >>> 1)))
    store_alu
    zero_of_alu
    negative_of_alu_w

  unfoldable pub rorb : M S (Unit {0})
  rorb = do
    setup_dest_addressing true
    alu_from_dest_b
    set_alu (λ c. u16 (bit_or (c.alu <<< 1) (c.alu >>> 7)))
    store_alu_b
    zero_of_alu
    negative_of_alu_b

  unfoldable pub ror : M S (Unit {0})
  ror = do
    setup_dest_addressing false
    alu_from_dest
    set_alu (λ c. u16 (bit_or (c.alu <<< 1) (c.alu >>> 15)))
    store_alu
    zero_of_alu
    negative_of_alu_w

  unfoldable pub sbcb : M S (Unit {0})
  sbcb = do
    setup_dest_addressing true
    alu_from_dest_b
    set_alu (λ c. sub16 c.alu (bit_and c.psw carry_flag))
    store_alu_b
    zero_of_alu
    negative_of_alu_b

  unfoldable pub sbc : M S (Unit {0})
  sbc = do
    setup_dest_addressing false
    alu_from_dest
    set_alu (λ c. sub16 c.alu (bit_and c.psw carry_flag))
    store_alu
    zero_of_alu
    negative_of_alu_w

  unfoldable pub swab : M S (Unit {0})
  swab = do
    setup_dest_addressing false
    alu_from_dest
    set_alu (λ c. bit_or (bit_and c.alu 0o177400 >>> 8) (bit_and c.alu 0o377 <<< 8))
    store_alu
    negative_of_alu_w
    zero_of_alu

  unfoldable pub tstb : M S (Unit {0})
  tstb = do setup_dest_addressing true; alu_from_dest_b; zero_of_alu; negative_of_alu_b

  unfoldable pub tst : M S (Unit {0})
  tst = do setup_dest_addressing false; alu_from_dest; zero_of_alu; negative_of_alu_w

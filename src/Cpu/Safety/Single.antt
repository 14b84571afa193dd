-- ===== src/Cpu/Safety/Single.antt =====
-- The instructions with one operand keep the machine good.
use xmachine.Base.{ℕ, ◌+◌, ◌^◌, ◌<◌, arith, bit_and, bit_or, bit_not, ◌<<<◌, ◌>>>◌, true, false}
use xmachine.Base.Bits.{bit_and-le, bit_and_low, bit_or-lt}
use xmachine.Cpu.State.{Bus, M, ◌>>◌}
use xmachine.Cpu.Ops.Single.{
  adcb, adc, aslb, asl, asrb, asr, clrb, clr, comb, com_word, decb, dec, incb, inc, negb, neg, rolb,
  rol, rorb, ror, sbcb, sbc, swab, tstb, tst,
}
use xmachine.Cpu.Safety.Rules.{BusLaws, Keeps, Gives-bind, ◌then◌}
use xmachine.Cpu.Safety.Addressing.{setup_dest_addressing-Keeps}
use xmachine.Cpu.Safety.Alu.{
  flags_zw-Keeps, flags_zb-Keeps, flags_wz-Keeps, flags_bz-Keeps, set_alu-Keeps,
  fetch_dest-GivesWord, alu_from_dest-Keeps, alu_from_dest_b-Keeps, store_alu-Keeps,
  store_alu_b-Keeps,
}

-- The two bytes of a word, swapped.
swapped-lt :
    (a : ℕ) → a < 2 ^ 16 → bit_or (bit_and a 0o177400 >>> 8) (bit_and a 0o377 <<< 8) < 2 ^ 16
swapped-lt a lt =
    bit_or-lt 16 (bit_and a 0o177400 >>> 8) (bit_and a 0o377 <<< 8)
      (omega (arith, bit_and-le a 0o177400)) (omega (arith, bit_and_low 8 a))

module _ {S : Type 0} ⦃bus : Bus S⦄ (laws : BusLaws S) where
  infixr 5 ◌⨟◌
  abbrev ◌⨟◌ : {m n : M S (Unit {0})} → Keeps laws m → Keeps laws n → Keeps laws (m >> n)
  ◌⨟◌ = ◌then◌ laws

  pub adcb-Keeps : Keeps laws adcb
  unfolding adcb
  adcb-Keeps =
      setup_dest_addressing-Keeps laws true
      ⨟ alu_from_dest_b-Keeps laws
      ⨟ set_alu-Keeps laws _ (λ c h. omega arith)
      ⨟ store_alu_b-Keeps laws
      ⨟ flags_zb-Keeps laws

  pub adc-Keeps : Keeps laws adc
  unfolding adc
  adc-Keeps =
      setup_dest_addressing-Keeps laws false
      ⨟ alu_from_dest-Keeps laws
      ⨟ set_alu-Keeps laws _ (λ c h. omega arith)
      ⨟ store_alu-Keeps laws
      ⨟ flags_zw-Keeps laws

  pub aslb-Keeps : Keeps laws aslb
  unfolding aslb
  aslb-Keeps =
      setup_dest_addressing-Keeps laws true
      ⨟ alu_from_dest_b-Keeps laws
      ⨟ set_alu-Keeps laws _ (λ c h. omega arith)
      ⨟ store_alu-Keeps laws
      ⨟ flags_zb-Keeps laws

  pub asl-Keeps : Keeps laws asl
  unfolding asl
  asl-Keeps =
      setup_dest_addressing-Keeps laws false
      ⨟ alu_from_dest-Keeps laws
      ⨟ set_alu-Keeps laws _ (λ c h. omega arith)
      ⨟ store_alu-Keeps laws
      ⨟ flags_zw-Keeps laws

  pub asrb-Keeps : Keeps laws asrb
  unfolding asrb
  asrb-Keeps =
      setup_dest_addressing-Keeps laws true
      ⨟ alu_from_dest_b-Keeps laws
      ⨟ set_alu-Keeps laws _ (λ c h. omega arith)
      ⨟ store_alu_b-Keeps laws
      ⨟ flags_zb-Keeps laws

  pub asr-Keeps : Keeps laws asr
  unfolding asr
  asr-Keeps =
      setup_dest_addressing-Keeps laws false
      ⨟ alu_from_dest-Keeps laws
      ⨟ set_alu-Keeps laws _ (λ c h. omega arith)
      ⨟ store_alu-Keeps laws
      ⨟ flags_zw-Keeps laws

  pub clrb-Keeps : Keeps laws clrb
  unfolding clrb
  clrb-Keeps =
      setup_dest_addressing-Keeps laws true
      ⨟ set_alu-Keeps laws _ (λ c h. omega arith)
      ⨟ store_alu_b-Keeps laws
      ⨟ flags_bz-Keeps laws

  pub clr-Keeps : Keeps laws clr
  unfolding clr
  clr-Keeps =
      setup_dest_addressing-Keeps laws false
      ⨟ set_alu-Keeps laws _ (λ c h. omega arith)
      ⨟ store_alu-Keeps laws
      ⨟ flags_wz-Keeps laws

  pub comb-Keeps : Keeps laws comb
  unfolding comb
  comb-Keeps =
      setup_dest_addressing-Keeps laws false
      ⨟ Gives-bind laws (fetch_dest-GivesWord laws) λ value lt.
        set_alu-Keeps laws _ (λ c h. omega arith) ⨟ store_alu_b-Keeps laws ⨟ flags_bz-Keeps laws

  pub com_word-Keeps : Keeps laws com_word
  unfolding com_word
  com_word-Keeps =
      setup_dest_addressing-Keeps laws false
      ⨟ Gives-bind laws (fetch_dest-GivesWord laws) λ value lt.
        set_alu-Keeps laws _ (λ c h. omega arith) ⨟ store_alu-Keeps laws ⨟ flags_wz-Keeps laws

  pub decb-Keeps : Keeps laws decb
  unfolding decb
  decb-Keeps =
      setup_dest_addressing-Keeps laws true
      ⨟ alu_from_dest_b-Keeps laws
      ⨟ set_alu-Keeps laws _ (λ c h. omega arith)
      ⨟ store_alu_b-Keeps laws
      ⨟ flags_zb-Keeps laws

  pub dec-Keeps : Keeps laws dec
  unfolding dec
  dec-Keeps =
      setup_dest_addressing-Keeps laws false
      ⨟ alu_from_dest-Keeps laws
      ⨟ set_alu-Keeps laws _ (λ c h. omega arith)
      ⨟ store_alu-Keeps laws
      ⨟ flags_zw-Keeps laws

  pub incb-Keeps : Keeps laws incb
  unfolding incb
  incb-Keeps =
      setup_dest_addressing-Keeps laws true
      ⨟ alu_from_dest_b-Keeps laws
      ⨟ set_alu-Keeps laws _ (λ c h. omega arith)
      ⨟ store_alu_b-Keeps laws
      ⨟ flags_zb-Keeps laws

  pub inc-Keeps : Keeps laws inc
  unfolding inc
  inc-Keeps =
      setup_dest_addressing-Keeps laws false
      ⨟ alu_from_dest-Keeps laws
      ⨟ set_alu-Keeps laws _ (λ c h. omega arith)
      ⨟ store_alu-Keeps laws
      ⨟ flags_zw-Keeps laws

  pub negb-Keeps : Keeps laws negb
  unfolding negb
  negb-Keeps =
      setup_dest_addressing-Keeps laws true
      ⨟ alu_from_dest_b-Keeps laws
      ⨟ set_alu-Keeps laws _ (λ c h. omega (arith, bit_and_low 8 (bit_not c.alu + 1)))
      ⨟ store_alu_b-Keeps laws
      ⨟ flags_zb-Keeps laws

  pub neg-Keeps : Keeps laws neg
  unfolding neg
  neg-Keeps =
      setup_dest_addressing-Keeps laws false
      ⨟ alu_from_dest-Keeps laws
      ⨟ set_alu-Keeps laws _ (λ c h. omega arith)
      ⨟ store_alu-Keeps laws
      ⨟ flags_zw-Keeps laws

  pub rolb-Keeps : Keeps laws rolb
  unfolding rolb
  rolb-Keeps =
      setup_dest_addressing-Keeps laws true
      ⨟ alu_from_dest_b-Keeps laws
      ⨟ set_alu-Keeps laws _ (λ c h. omega arith)
      ⨟ store_alu_b-Keeps laws
      ⨟ flags_zb-Keeps laws

  pub rol-Keeps : Keeps laws rol
  unfolding rol
  rol-Keeps =
      setup_dest_addressing-Keeps laws false
      ⨟ alu_from_dest-Keeps laws
      ⨟ set_alu-Keeps laws _ (λ c h. omega arith)
      ⨟ store_alu-Keeps laws
      ⨟ flags_zw-Keeps laws

  pub rorb-Keeps : Keeps laws rorb
  unfolding rorb
  rorb-Keeps =
      setup_dest_addressing-Keeps laws true
      ⨟ alu_from_dest_b-Keeps laws
      ⨟ set_alu-Keeps laws _ (λ c h. omega arith)
      ⨟ store_alu_b-Keeps laws
      ⨟ flags_zb-Keeps laws

  pub ror-Keeps : Keeps laws ror
  unfolding ror
  ror-Keeps =
      setup_dest_addressing-Keeps laws false
      ⨟ alu_from_dest-Keeps laws
      ⨟ set_alu-Keeps laws _ (λ c h. omega arith)
      ⨟ store_alu-Keeps laws
      ⨟ flags_zw-Keeps laws

  pub sbcb-Keeps : Keeps laws sbcb
  unfolding sbcb
  sbcb-Keeps =
      setup_dest_addressing-Keeps laws true
      ⨟ alu_from_dest_b-Keeps laws
      ⨟ set_alu-Keeps laws _ (λ c h. omega arith)
      ⨟ store_alu_b-Keeps laws
      ⨟ flags_zb-Keeps laws

  pub sbc-Keeps : Keeps laws sbc
  unfolding sbc
  sbc-Keeps =
      setup_dest_addressing-Keeps laws false
      ⨟ alu_from_dest-Keeps laws
      ⨟ set_alu-Keeps laws _ (λ c h. omega arith)
      ⨟ store_alu-Keeps laws
      ⨟ flags_zw-Keeps laws

  pub swab-Keeps : Keeps laws swab
  unfolding swab
  swab-Keeps =
      setup_dest_addressing-Keeps laws false
      ⨟ alu_from_dest-Keeps laws
      ⨟ set_alu-Keeps laws _ (λ c h. swapped-lt c.alu h.alu)
      ⨟ store_alu-Keeps laws
      ⨟ flags_wz-Keeps laws

  pub tstb-Keeps : Keeps laws tstb
  unfolding tstb
  tstb-Keeps =
      setup_dest_addressing-Keeps laws true ⨟ alu_from_dest_b-Keeps laws ⨟ flags_zb-Keeps laws

  pub tst-Keeps : Keeps laws tst
  unfolding tst
  tst-Keeps =
      setup_dest_addressing-Keeps laws false ⨟ alu_from_dest-Keeps laws ⨟ flags_zw-Keeps laws

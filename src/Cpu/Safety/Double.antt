-- ===== src/Cpu/Safety/Double.antt =====
-- The instructions with two operands keep the machine good.
use xmachine.Base.{arith, bit_and, bit_not, true, false}
use xmachine.Base.Bits.{bit_and-le, bit_or-lt}
use xmachine.Cpu.State.{Bus, M, ◌>>◌}
use xmachine.Cpu.Ops.Double.{add, bicb, bic, bisb, bis, bitb, bit, cmpb, cmp, movb, mov, sub}
use xmachine.Cpu.Safety.Rules.{BusLaws, Keeps, Gives-bind, ◌then◌}
use xmachine.Cpu.Safety.Addressing.{setup_dest_addressing-Keeps, setup_src_addressing-Keeps}
use xmachine.Cpu.Safety.Alu.{
  flags_zw-Keeps, flags_zb-Keeps, flags_wz-Keeps, flags_bz-Keeps, set_alu-Keeps,
  fetch_src-GivesWord, fetch_dest-GivesWord, alu_from_dest-Keeps, alu_from_dest_b-Keeps,
  alu_from_src-Keeps, alu_from_src_b-Keeps, store_alu-Keeps, store_alu_b-Keeps,
}

module _ {S : Type 0} ⦃bus : Bus S⦄ (laws : BusLaws S) where
  infixr 5 ◌⨟◌
  abbrev ◌⨟◌ : {m n : M S (Unit {0})} → Keeps laws m → Keeps laws n → Keeps laws (m >> n)
  ◌⨟◌ = ◌then◌ laws

  pub add-Keeps : Keeps laws add
  unfolding add
  add-Keeps =
      setup_src_addressing-Keeps laws false
      ⨟ setup_dest_addressing-Keeps laws false
      ⨟ alu_from_src-Keeps laws
      ⨟ Gives-bind laws (fetch_dest-GivesWord laws) λ value lt.
        set_alu-Keeps laws _ (λ c h. omega arith) ⨟ store_alu-Keeps laws ⨟ flags_wz-Keeps laws

  pub bicb-Keeps : Keeps laws bicb
  unfolding bicb
  bicb-Keeps =
      setup_src_addressing-Keeps laws true
      ⨟ setup_dest_addressing-Keeps laws true
      ⨟ alu_from_dest_b-Keeps laws
      ⨟ Gives-bind laws (fetch_src-GivesWord laws) λ value lt.
        set_alu-Keeps laws _
          (λ c h. omega (arith, bit_and-le c.alu (bit_not (bit_and value 0o377))))
        ⨟ store_alu_b-Keeps laws
        ⨟ flags_bz-Keeps laws

  pub bic-Keeps : Keeps laws bic
  unfolding bic
  bic-Keeps =
      setup_src_addressing-Keeps laws false
      ⨟ setup_dest_addressing-Keeps laws false
      ⨟ alu_from_dest-Keeps laws
      ⨟ Gives-bind laws (fetch_src-GivesWord laws) λ value lt.
        set_alu-Keeps laws _ (λ c h. omega (arith, bit_and-le c.alu (bit_not value)))
        ⨟ store_alu-Keeps laws
        ⨟ flags_wz-Keeps laws

  pub bisb-Keeps : Keeps laws bisb
  unfolding bisb
  bisb-Keeps =
      setup_src_addressing-Keeps laws true
      ⨟ setup_dest_addressing-Keeps laws true
      ⨟ alu_from_dest_b-Keeps laws
      ⨟ Gives-bind laws (fetch_src-GivesWord laws) λ value lt.
        set_alu-Keeps laws _ (λ c h.
          bit_or-lt 16 c.alu (bit_and value 0o377) h.alu (omega (arith, bit_and-le value 0o377)))
        ⨟ store_alu_b-Keeps laws
        ⨟ flags_bz-Keeps laws

  pub bis-Keeps : Keeps laws bis
  unfolding bis
  bis-Keeps =
      setup_src_addressing-Keeps laws false
      ⨟ setup_dest_addressing-Keeps laws false
      ⨟ alu_from_dest-Keeps laws
      ⨟ Gives-bind laws (fetch_src-GivesWord laws) λ value lt.
        set_alu-Keeps laws _ (λ c h. bit_or-lt 16 c.alu value h.alu lt)
        ⨟ store_alu-Keeps laws
        ⨟ flags_wz-Keeps laws

  pub bitb-Keeps : Keeps laws bitb
  unfolding bitb
  bitb-Keeps =
      setup_src_addressing-Keeps laws true
      ⨟ setup_dest_addressing-Keeps laws true
      ⨟ alu_from_src_b-Keeps laws
      ⨟ Gives-bind laws (fetch_dest-GivesWord laws) λ value lt.
        set_alu-Keeps laws _ (λ c h. omega (arith, bit_and-le c.alu (bit_and value 0o377)))
        ⨟ flags_bz-Keeps laws

  pub bit-Keeps : Keeps laws bit
  unfolding bit
  bit-Keeps =
      setup_src_addressing-Keeps laws false
      ⨟ setup_dest_addressing-Keeps laws false
      ⨟ alu_from_src-Keeps laws
      ⨟ Gives-bind laws (fetch_dest-GivesWord laws) λ value lt.
        set_alu-Keeps laws _ (λ c h. omega (arith, bit_and-le c.alu value)) ⨟ flags_zw-Keeps laws

  pub cmpb-Keeps : Keeps laws cmpb
  unfolding cmpb
  cmpb-Keeps =
      setup_src_addressing-Keeps laws true
      ⨟ setup_dest_addressing-Keeps laws true
      ⨟ alu_from_dest_b-Keeps laws
      ⨟ Gives-bind laws (fetch_src-GivesWord laws)
          λ value lt. set_alu-Keeps laws _ (λ c h. omega arith) ⨟ flags_zb-Keeps laws

  pub cmp-Keeps : Keeps laws cmp
  unfolding cmp
  cmp-Keeps =
      setup_src_addressing-Keeps laws false
      ⨟ setup_dest_addressing-Keeps laws false
      ⨟ alu_from_dest-Keeps laws
      ⨟ Gives-bind laws (fetch_src-GivesWord laws)
          λ value lt. set_alu-Keeps laws _ (λ c h. omega arith) ⨟ flags_zw-Keeps laws

  pub movb-Keeps : Keeps laws movb
  unfolding movb
  movb-Keeps =
      setup_src_addressing-Keeps laws true
      ⨟ setup_dest_addressing-Keeps laws true
      ⨟ alu_from_src_b-Keeps laws
      ⨟ store_alu_b-Keeps laws
      ⨟ flags_zb-Keeps laws

  pub mov-Keeps : Keeps laws mov
  unfolding mov
  mov-Keeps =
      setup_src_addressing-Keeps laws false
      ⨟ setup_dest_addressing-Keeps laws false
      ⨟ alu_from_src-Keeps laws
      ⨟ store_alu-Keeps laws
      ⨟ flags_zw-Keeps laws

  pub sub-Keeps : Keeps laws sub
  unfolding sub
  sub-Keeps =
      setup_src_addressing-Keeps laws false
      ⨟ setup_dest_addressing-Keeps laws false
      ⨟ alu_from_src-Keeps laws
      ⨟ Gives-bind laws (fetch_dest-GivesWord laws) λ value lt.
        set_alu-Keeps laws _ (λ c h. omega arith) ⨟ store_alu-Keeps laws ⨟ flags_wz-Keeps laws

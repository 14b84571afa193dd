-- ===== src/Cpu/Safety/Control.antt =====
-- The control instructions keep the machine good.
use xmachine.Base.{ℕ, ◌<◌, ◌≡◌, arith, bit_and, ◌>>>◌, true, false}
use xmachine.Base.Bits.{bit_and_low, bit_and_field}
use xmachine.Cpu.State.{Bus, M, ◌>>◌}
use xmachine.Cpu.Registers.{register_to_bus_addr, is_internal_bus_addr}
use xmachine.Cpu.Ops.Control.{nop, halt, jmp, jsr, rts, mfps, mtps}
use xmachine.Cpu.Safety.Rules.{
  BusLaws, Keeps, Gives-bind, ◌then◌, reads-GivesWord, Keeps-assign, Keeps-skip,
}
use xmachine.Cpu.Safety.Access.{
  inc_register-IsCpu, dec_register-IsCpu, fetch_register_contents-lt, fetch_data-GivesWord,
  store_data-Keeps, store_data_register-Keeps,
}
use xmachine.Cpu.Safety.Addressing.{setup_dest_addressing-Keeps}
use xmachine.Cpu.Safety.Alu.{
  set_alu-Keeps, fetch_dest-GivesWord, alu_from_dest-Keeps, store_alu-Keeps,
}

-- The register numbers of an instruction have a bus address.
numbered_register : (reg : ℕ) → reg < 8 → is_internal_bus_addr (register_to_bus_addr reg) ≡ true
unfolding is_internal_bus_addr register_to_bus_addr
numbered_register reg lt = ground arith

link_register : (ir : ℕ) → bit_and ir 0o700 >>> 6 < 8
link_register ir = omega (arith, bit_and_field 3 6 ir)

return_register : (ir : ℕ) → bit_and ir 0o7 < 8
return_register ir = omega (arith, bit_and_low 3 ir)

module _ {S : Type 0} ⦃bus : Bus S⦄ (laws : BusLaws S) where
  infixr 5 ◌⨟◌
  abbrev ◌⨟◌ : {m n : M S (Unit {0})} → Keeps laws m → Keeps laws n → Keeps laws (m >> n)
  ◌⨟◌ = ◌then◌ laws

  pub nop-Keeps : Keeps laws nop
  unfolding nop
  nop-Keeps = Keeps-skip laws

  pub halt-Keeps : Keeps laws halt
  unfolding halt
  halt-Keeps = Keeps-assign laws _ (λ c h. omega arith)

  pub jmp-Keeps : Keeps laws jmp
  unfolding jmp
  jmp-Keeps =
      setup_dest_addressing-Keeps laws false
      ⨟ Gives-bind laws (fetch_dest-GivesWord laws)
          λ addr lt. Keeps-assign laws _ (λ c h. omega arith)

  pub mfps-Keeps : Keeps laws mfps
  unfolding mfps
  mfps-Keeps =
      setup_dest_addressing-Keeps laws false
      ⨟ set_alu-Keeps laws _ (λ c h. h.psw)
      ⨟ store_alu-Keeps laws

  pub mtps-Keeps : Keeps laws mtps
  unfolding mtps
  mtps-Keeps =
      setup_dest_addressing-Keeps laws false
      ⨟ alu_from_dest-Keeps laws
      ⨟ Keeps-assign laws _ (λ c h. omega arith)

  pub jsr-Keeps : Keeps laws jsr
  unfolding jsr
  jsr-Keeps = Gives-bind laws (reads-GivesWord laws _ (λ c h. h.ir)) λ ir _.
      setup_dest_addressing-Keeps laws false
      ⨟ Gives-bind laws (reads-GivesWord laws _ (λ c h. omega arith)) λ tmp in_tmp.
        Gives-bind laws (reads-GivesWord laws _ (fetch_register_contents-lt _)) λ contents lt.
          Gives-bind laws (reads-GivesWord laws _ (λ c h. h.sp)) λ sp _.
            store_data-Keeps laws sp contents lt
            ⨟ Keeps-assign laws _ (λ c. dec_register-IsCpu c.sp false c)
            ⨟ Gives-bind laws (reads-GivesWord laws _ (λ c h. h.pc)) λ pc in_pc.
              store_data_register-Keeps laws _ pc (numbered_register _ (link_register ir)) in_pc
              ⨟ Keeps-assign laws _ (λ c h. omega arith)

  pub rts-Keeps : Keeps laws rts
  unfolding rts
  rts-Keeps = Gives-bind laws (reads-GivesWord laws _ (λ c h. h.ir)) λ ir _.
      Gives-bind laws (reads-GivesWord laws _ (fetch_register_contents-lt _)) λ contents lt.
        Keeps-assign laws _ (λ c h. omega arith)
        ⨟ Keeps-assign laws _ (λ c. inc_register-IsCpu c.sp false c)
        ⨟ Gives-bind laws (reads-GivesWord laws _ (λ c h. h.sp)) λ sp _.
          Gives-bind laws (fetch_data-GivesWord laws sp) λ top in_top.
            store_data_register-Keeps laws _ top (numbered_register _ (return_register ir)) in_top

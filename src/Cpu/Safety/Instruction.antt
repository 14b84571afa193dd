-- ===== src/Cpu/Safety/Instruction.antt =====
-- Safety of `exec_instruction` and of the loop.
use xmachine.Base.{
  ℕ, zero, suc, ◌≡◌, arith, true, false, if◌then◌else◌, Option, none, some, Bool, refl,
}
use xmachine.Outcome.{Outcome, done, Safe, returns, Safe-bind, Safe-mono}
use xmachine.Cpu.State.{Bus, Machine}
use xmachine.Cpu.Decode.{OpCode, decode, dispatch, perform, exec_instruction}
use xmachine.Cpu.Ops.Control.{ashc, ash, div, mfpd, mfpi, mtpd, mtpi, mul, sxt, xor}
use xmachine.Cpu.Execute.{cycle, execute}
use xmachine.Cpu.Safety.Rules.{
  BusLaws, IsGood, Keeps, Gives-bind, ◌then◌, reads-GivesWord, Keeps-assign,
}
use xmachine.Cpu.Safety.Access.{fetch_data-GivesWord}
use xmachine.Cpu.Safety.Branch
use xmachine.Cpu.Safety.Single
use xmachine.Cpu.Safety.Double
use xmachine.Cpu.Safety.Control

-- Where a run has ended, the processor has halted in a good state.
abbrev pub WhenDone : {S : Type 0} ⦃bus : Bus S⦄ → BusLaws S → Option (Machine S) → Type 0
WhenDone laws none = Unit
WhenDone laws (some s) = IsGood laws s × (s.cpu.halted ≡ true)

module _ {S : Type 0} ⦃bus : Bus S⦄ (laws : BusLaws S) where
  dispatch-Keeps : (op : OpCode) → Keeps laws (dispatch op)
  unfolding dispatch ashc ash div mfpd mfpi mtpd mtpi mul sxt xor
  dispatch-Keeps OpCode.br_op = Branch.br-Keeps laws
  dispatch-Keeps OpCode.bne_op = Branch.bne-Keeps laws
  dispatch-Keeps OpCode.beq_op = Branch.beq-Keeps laws
  dispatch-Keeps OpCode.bge_op = Branch.bge-Keeps laws
  dispatch-Keeps OpCode.blt_op = Branch.blt-Keeps laws
  dispatch-Keeps OpCode.bgt_op = Branch.bgt-Keeps laws
  dispatch-Keeps OpCode.ble_op = Branch.ble-Keeps laws
  dispatch-Keeps OpCode.bpl_op = Branch.bpl-Keeps laws
  dispatch-Keeps OpCode.bmi_op = Branch.bmi-Keeps laws
  dispatch-Keeps OpCode.bhi_op = Branch.bhi-Keeps laws
  dispatch-Keeps OpCode.blos_op = Branch.blos-Keeps laws
  dispatch-Keeps OpCode.bvc_op = Branch.bvc-Keeps laws
  dispatch-Keeps OpCode.bvs_op = Branch.bvs-Keeps laws
  dispatch-Keeps OpCode.bcc_op = Branch.bcc-Keeps laws
  dispatch-Keeps OpCode.bcs_op = Branch.bcs-Keeps laws
  dispatch-Keeps OpCode.mul_op = Control.nop-Keeps laws
  dispatch-Keeps OpCode.div_op = Control.nop-Keeps laws
  dispatch-Keeps OpCode.ash_op = Control.nop-Keeps laws
  dispatch-Keeps OpCode.ashc_op = Control.nop-Keeps laws
  dispatch-Keeps OpCode.xor_op = Control.nop-Keeps laws
  dispatch-Keeps OpCode.jsr_op = Control.jsr-Keeps laws
  dispatch-Keeps OpCode.mov_op = Double.mov-Keeps laws
  dispatch-Keeps OpCode.movb_op = Double.movb-Keeps laws
  dispatch-Keeps OpCode.cmp_op = Double.cmp-Keeps laws
  dispatch-Keeps OpCode.cmpb_op = Double.cmpb-Keeps laws
  dispatch-Keeps OpCode.bit_op = Double.bit-Keeps laws
  dispatch-Keeps OpCode.bitb_op = Double.bitb-Keeps laws
  dispatch-Keeps OpCode.bic_op = Double.bic-Keeps laws
  dispatch-Keeps OpCode.bicb_op = Double.bicb-Keeps laws
  dispatch-Keeps OpCode.bis_op = Double.bis-Keeps laws
  dispatch-Keeps OpCode.bisb_op = Double.bisb-Keeps laws
  dispatch-Keeps OpCode.add_op = Double.add-Keeps laws
  dispatch-Keeps OpCode.sub_op = Double.sub-Keeps laws
  dispatch-Keeps OpCode.jmp_op = Control.jmp-Keeps laws
  dispatch-Keeps OpCode.swab_op = Single.swab-Keeps laws
  dispatch-Keeps OpCode.clr_op = Single.clr-Keeps laws
  dispatch-Keeps OpCode.clrb_op = Single.clrb-Keeps laws
  dispatch-Keeps OpCode.com_op = Single.com_word-Keeps laws
  dispatch-Keeps OpCode.comb_op = Single.comb-Keeps laws
  dispatch-Keeps OpCode.inc_op = Single.inc-Keeps laws
  dispatch-Keeps OpCode.incb_op = Single.incb-Keeps laws
  dispatch-Keeps OpCode.dec_op = Single.dec-Keeps laws
  dispatch-Keeps OpCode.decb_op = Single.decb-Keeps laws
  dispatch-Keeps OpCode.neg_op = Single.neg-Keeps laws
  dispatch-Keeps OpCode.negb_op = Single.negb-Keeps laws
  dispatch-Keeps OpCode.adc_op = Single.adc-Keeps laws
  dispatch-Keeps OpCode.adcb_op = Single.adcb-Keeps laws
  dispatch-Keeps OpCode.sbc_op = Single.sbc-Keeps laws
  dispatch-Keeps OpCode.sbcb_op = Single.sbcb-Keeps laws
  dispatch-Keeps OpCode.tst_op = Single.tst-Keeps laws
  dispatch-Keeps OpCode.tstb_op = Single.tstb-Keeps laws
  dispatch-Keeps OpCode.ror_op = Single.ror-Keeps laws
  dispatch-Keeps OpCode.rorb_op = Single.rorb-Keeps laws
  dispatch-Keeps OpCode.rol_op = Single.rol-Keeps laws
  dispatch-Keeps OpCode.rolb_op = Single.rolb-Keeps laws
  dispatch-Keeps OpCode.asr_op = Single.asr-Keeps laws
  dispatch-Keeps OpCode.asrb_op = Single.asrb-Keeps laws
  dispatch-Keeps OpCode.asl_op = Single.asl-Keeps laws
  dispatch-Keeps OpCode.aslb_op = Single.aslb-Keeps laws
  dispatch-Keeps OpCode.mtps_op = Control.mtps-Keeps laws
  dispatch-Keeps OpCode.mfpi_op = Control.nop-Keeps laws
  dispatch-Keeps OpCode.mfpd_op = Control.nop-Keeps laws
  dispatch-Keeps OpCode.mtpi_op = Control.nop-Keeps laws
  dispatch-Keeps OpCode.mtpd_op = Control.nop-Keeps laws
  dispatch-Keeps OpCode.sxt_op = Control.nop-Keeps laws
  dispatch-Keeps OpCode.mfps_op = Control.mfps-Keeps laws
  dispatch-Keeps OpCode.rts_op = Control.rts-Keeps laws

  performs : (op : Option OpCode) → Keeps laws (perform op)
  unfolding perform
  performs none = Control.halt-Keeps laws
  performs (some op) = dispatch-Keeps op

  exec_instruction-Keeps : Keeps laws exec_instruction
  unfolding exec_instruction
  exec_instruction-Keeps =
      Gives-bind laws (reads-GivesWord laws _ (λ c h. h.ir)) (λ ir _. performs (decode ir))

  -- From a machine whose registers and addresses are within their widths, over a bus with the
  -- laws `BusLaws` whose devices are in a good state, one instruction does not follow a null
  -- pointer or run over a device's array, whatever word the instruction register holds. If it
  -- ends, registers and addresses are within their widths and the devices in a good state
  -- again.
  pub exec_instruction-Safe :
      (s : Machine S) → IsGood laws s → Safe (λ r. IsGood laws r.1) (exec_instruction s)
  exec_instruction-Safe s good = Safe-mono (exec_instruction-Keeps.run s good) (λ r p. p.1)

  pub cycle-Keeps : Keeps laws cycle
  unfolding cycle
  cycle-Keeps = Gives-bind laws (reads-GivesWord laws _ (λ c h. h.pc)) λ pc _.
      Gives-bind laws (fetch_data-GivesWord laws pc) λ word lt.
        ◌then◌ laws (Keeps-assign laws _ (λ c h. omega arith))
          (◌then◌ laws (Keeps-assign laws _ (λ c h. omega arith)) exec_instruction-Keeps)

  ends :
      (s : Machine S) {rest : Outcome (Option (Machine S))}
      → IsGood laws s
      → (b : Bool) → s.cpu.halted ≡ b
      → (b ≡ false → Safe (WhenDone laws) rest)
      → Safe (WhenDone laws) (if b then done (some s) else rest)
  ends s good true e h = returns (good, e)
  ends s good false e h = h refl

  -- From a machine whose registers and addresses are within their widths, over a bus with the
  -- laws `BusLaws` whose devices are in a good state, a run of `execute` for any number of
  -- rounds does not follow a null pointer or run over a device's array. If it ends with a
  -- machine, the processor has halted, its registers and addresses are within their widths and
  -- the devices are in a good state.
  pub execute-Safe :
      (fuel : ℕ) (s : Machine S) → IsGood laws s → Safe (WhenDone laws) (execute fuel s)
  unfolding execute
  execute-Safe zero s good = ends s good s.cpu.halted refl (λ _. returns tt)
  execute-Safe (suc fuel) s good =
      ends s good s.cpu.halted refl
        (λ _. Safe-bind (cycle-Keeps.run s good) (λ r p. execute-Safe fuel r.1 p.1))

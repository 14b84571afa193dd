-- ===== src/Attic/Decode.antt =====
-- attic/src/handlers.c: `exec_instruction`. The codes of opcodes.h and the cases of the nested switches are
-- those of the processor in src/cpu.
use xmachine.Attic.State.{Effect, Memory, Emulator, Command, ◌>>=◌, reads}
use xmachine.Attic.Branches
use xmachine.Attic.Single
use xmachine.Attic.Double
use xmachine.Attic.Control
use xmachine.Base.{Option, none, some}
use xmachine.Cpu.Decode.{OpCode, decode}

module _ (call : Effect → Command Memory (Unit {0})) where
  unfoldable pub dispatch : OpCode → Command Emulator (Unit {0})
  dispatch OpCode.br_op = Branches.br
  dispatch OpCode.bne_op = Branches.bne
  dispatch OpCode.beq_op = Branches.beq
  dispatch OpCode.bge_op = Branches.bge
  dispatch OpCode.blt_op = Branches.blt
  dispatch OpCode.bgt_op = Branches.bgt
  dispatch OpCode.ble_op = Branches.ble
  dispatch OpCode.bpl_op = Branches.bpl
  dispatch OpCode.bmi_op = Branches.bmi
  dispatch OpCode.bhi_op = Branches.bhi
  dispatch OpCode.blos_op = Branches.blos
  dispatch OpCode.bvc_op = Branches.bvc
  dispatch OpCode.bvs_op = Branches.bvs
  dispatch OpCode.bcc_op = Branches.bcc
  dispatch OpCode.bcs_op = Branches.bcs
  dispatch OpCode.mul_op = Control.mul
  dispatch OpCode.div_op = Control.div
  dispatch OpCode.ash_op = Control.ash
  dispatch OpCode.ashc_op = Control.ashc
  dispatch OpCode.xor_op = Control.xor call
  dispatch OpCode.jsr_op = Control.jsr call
  dispatch OpCode.mov_op = Double.mov call
  dispatch OpCode.movb_op = Double.movb call
  dispatch OpCode.cmp_op = Double.cmp call
  dispatch OpCode.cmpb_op = Double.cmpb call
  dispatch OpCode.bit_op = Double.bit call
  dispatch OpCode.bitb_op = Double.bitb call
  dispatch OpCode.bic_op = Double.bic call
  dispatch OpCode.bicb_op = Double.bicb call
  dispatch OpCode.bis_op = Double.bis call
  dispatch OpCode.bisb_op = Double.bisb call
  dispatch OpCode.add_op = Double.add call
  dispatch OpCode.sub_op = Double.sub call
  dispatch OpCode.jmp_op = Control.jmp call
  dispatch OpCode.swab_op = Single.swab call
  dispatch OpCode.clr_op = Single.clr call
  dispatch OpCode.clrb_op = Single.clrb call
  dispatch OpCode.com_op = Single.com_word call
  dispatch OpCode.comb_op = Single.comb call
  dispatch OpCode.inc_op = Single.inc call
  dispatch OpCode.incb_op = Single.incb call
  dispatch OpCode.dec_op = Single.dec call
  dispatch OpCode.decb_op = Single.decb call
  dispatch OpCode.neg_op = Single.neg call
  dispatch OpCode.negb_op = Single.negb call
  dispatch OpCode.adc_op = Single.adc call
  dispatch OpCode.adcb_op = Single.adcb call
  dispatch OpCode.sbc_op = Single.sbc call
  dispatch OpCode.sbcb_op = Single.sbcb call
  dispatch OpCode.tst_op = Single.tst call
  dispatch OpCode.tstb_op = Single.tstb call
  dispatch OpCode.ror_op = Single.ror call
  dispatch OpCode.rorb_op = Single.rorb call
  dispatch OpCode.rol_op = Single.rol call
  dispatch OpCode.rolb_op = Single.rolb call
  dispatch OpCode.asr_op = Single.asr call
  dispatch OpCode.asrb_op = Single.asrb call
  dispatch OpCode.asl_op = Single.asl call
  dispatch OpCode.aslb_op = Single.aslb call
  dispatch OpCode.mtps_op = Control.mtps call
  dispatch OpCode.mfpi_op = Control.mfpi
  dispatch OpCode.mfpd_op = Control.mfpd
  dispatch OpCode.mtpi_op = Control.mtpi
  dispatch OpCode.mtpd_op = Control.mtpd
  dispatch OpCode.sxt_op = Control.sxt
  dispatch OpCode.mfps_op = Control.mfps call
  dispatch OpCode.rts_op = Control.rts call

  unfoldable pub perform : Option OpCode → Command Emulator (Unit {0})
  unfolding dispatch
  perform none = Control.halt
  perform (some op) = dispatch op

  unfoldable pub exec_instruction : Command Emulator (Unit {0})
  unfolding ◌>>=◌ decode perform
  exec_instruction = do ir ← reads (λ s. s.ir); perform (decode ir)

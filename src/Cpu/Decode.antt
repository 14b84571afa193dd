-- ===== src/Cpu/Decode.antt =====
-- `exec_instruction`: which instruction a word stands for, and its execution.
pub mod Table
use xmachine.Base.{ℕ, bit_and, ◌==◌, if◌then◌else◌, Option, none, some, List, [], ◌∷◌}
use xmachine.Cpu.State.{Bus, M, ◌>>=◌, reads}
use xmachine.Cpu.Ops.Branch
use xmachine.Cpu.Ops.Single
use xmachine.Cpu.Ops.Double
use xmachine.Cpu.Ops.Control

-- `enum OPCode`
pub data OpCode : Type 0 where
  br_op bne_op beq_op bge_op blt_op bgt_op ble_op bpl_op bmi_op bhi_op blos_op bvc_op bvs_op :
      OpCode
  bcc_op bcs_op : OpCode
  mul_op div_op ash_op ashc_op xor_op jsr_op : OpCode
  mov_op movb_op cmp_op cmpb_op bit_op bitb_op bic_op bicb_op bis_op bisb_op add_op sub_op : OpCode
  jmp_op swab_op clr_op clrb_op com_op comb_op inc_op incb_op dec_op decb_op neg_op negb_op : OpCode
  adc_op adcb_op sbc_op sbcb_op tst_op tstb_op ror_op rorb_op rol_op rolb_op asr_op asrb_op : OpCode
  asl_op aslb_op mtps_op mfpi_op mfpd_op mtpi_op mtpd_op sxt_op mfps_op rts_op : OpCode

-- The value of each enumerator.
abbrev pub code : OpCode → ℕ
code br_op = 0o000400
code bne_op = 0o001000
code beq_op = 0o001400
code bge_op = 0o002000
code blt_op = 0o002400
code bgt_op = 0o003000
code ble_op = 0o003400
code bpl_op = 0o100000
code bmi_op = 0o100400
code bhi_op = 0o101000
code blos_op = 0o101400
code bvc_op = 0o102000
code bvs_op = 0o102400
code bcc_op = 0o103000
code bcs_op = 0o103400
code mul_op = 0o070000
code div_op = 0o071000
code ash_op = 0o072000
code ashc_op = 0o073000
code xor_op = 0o074000
code jsr_op = 0o004000
code mov_op = 0o010000
code movb_op = 0o110000
code cmp_op = 0o020000
code cmpb_op = 0o120000
code bit_op = 0o030000
code bitb_op = 0o130000
code bic_op = 0o040000
code bicb_op = 0o140000
code bis_op = 0o050000
code bisb_op = 0o150000
code add_op = 0o060000
code sub_op = 0o160000
code jmp_op = 0o000100
code swab_op = 0o000300
code clr_op = 0o005000
code clrb_op = 0o105000
code com_op = 0o005100
code comb_op = 0o105100
code inc_op = 0o005200
code incb_op = 0o105200
code dec_op = 0o005300
code decb_op = 0o105300
code neg_op = 0o005400
code negb_op = 0o105400
code adc_op = 0o005500
code adcb_op = 0o105500
code sbc_op = 0o005600
code sbcb_op = 0o105600
code tst_op = 0o005700
code tstb_op = 0o105700
code ror_op = 0o006000
code rorb_op = 0o106000
code rol_op = 0o006100
code rolb_op = 0o106100
code asr_op = 0o006200
code asrb_op = 0o106200
code asl_op = 0o006300
code aslb_op = 0o106300
code mtps_op = 0o106400
code mfpi_op = 0o006500
code mfpd_op = 0o106500
code mtpi_op = 0o006600
code mtpd_op = 0o106600
code sxt_op = 0o006700
code mfps_op = 0o106700
code rts_op = 0o000200

-- The cases of the four nested switches, in order.
abbrev pub branch_ops : List OpCode
branch_ops =
    br_op ∷ bne_op ∷ beq_op ∷ bge_op ∷ blt_op ∷ bgt_op ∷ ble_op ∷ bpl_op ∷ bmi_op ∷ bhi_op ∷ blos_op
    ∷ bvc_op ∷ bvs_op ∷ bcc_op ∷ bcs_op ∷ []

abbrev pub register_source_ops : List OpCode
register_source_ops = mul_op ∷ div_op ∷ ash_op ∷ ashc_op ∷ xor_op ∷ jsr_op ∷ []

abbrev pub double_ops : List OpCode
double_ops =
    mov_op ∷ movb_op ∷ cmp_op ∷ cmpb_op ∷ bit_op ∷ bitb_op ∷ bic_op ∷ bicb_op ∷ bis_op ∷ bisb_op
    ∷ add_op ∷ sub_op ∷ []

abbrev pub single_ops : List OpCode
single_ops =
    jmp_op ∷ swab_op ∷ clr_op ∷ clrb_op ∷ com_op ∷ comb_op ∷ inc_op ∷ incb_op ∷ dec_op ∷ decb_op
    ∷ neg_op ∷ negb_op ∷ adc_op ∷ adcb_op ∷ sbc_op ∷ sbcb_op ∷ tst_op ∷ tstb_op ∷ ror_op ∷ rorb_op
    ∷ rol_op ∷ rolb_op ∷ asr_op ∷ asrb_op ∷ asl_op ∷ aslb_op ∷ mtps_op ∷ mfpi_op ∷ mfpd_op ∷ mtpi_op
    ∷ mtpd_op ∷ sxt_op ∷ mfps_op ∷ rts_op ∷ []

-- One `switch`: the first case that is equal to `key`, or what `default` leads to.
unfoldable pub select : ℕ → List OpCode → Option OpCode → Option OpCode
select key [] default = default
select key (op ∷ ops) default = if key == code op then some op else select key ops default

-- `none` is the innermost `default`, which halts.
unfoldable pub decode : ℕ → Option OpCode
unfolding select
decode ir = select (bit_and ir 0o177400) branch_ops (
    select (bit_and ir 0o177000) register_source_ops
      (select (bit_and ir 0o170000) double_ops (select (bit_and ir 0o177700) single_ops none)))

module _ {S : Type 0} ⦃bus : Bus S⦄ where
  unfoldable pub dispatch : OpCode → M S (Unit {0})
  dispatch br_op = Branch.br
  dispatch bne_op = Branch.bne
  dispatch beq_op = Branch.beq
  dispatch bge_op = Branch.bge
  dispatch blt_op = Branch.blt
  dispatch bgt_op = Branch.bgt
  dispatch ble_op = Branch.ble
  dispatch bpl_op = Branch.bpl
  dispatch bmi_op = Branch.bmi
  dispatch bhi_op = Branch.bhi
  dispatch blos_op = Branch.blos
  dispatch bvc_op = Branch.bvc
  dispatch bvs_op = Branch.bvs
  dispatch bcc_op = Branch.bcc
  dispatch bcs_op = Branch.bcs
  dispatch mul_op = Control.mul
  dispatch div_op = Control.div
  dispatch ash_op = Control.ash
  dispatch ashc_op = Control.ashc
  dispatch xor_op = Control.xor
  dispatch jsr_op = Control.jsr
  dispatch mov_op = Double.mov
  dispatch movb_op = Double.movb
  dispatch cmp_op = Double.cmp
  dispatch cmpb_op = Double.cmpb
  dispatch bit_op = Double.bit
  dispatch bitb_op = Double.bitb
  dispatch bic_op = Double.bic
  dispatch bicb_op = Double.bicb
  dispatch bis_op = Double.bis
  dispatch bisb_op = Double.bisb
  dispatch add_op = Double.add
  dispatch sub_op = Double.sub
  dispatch jmp_op = Control.jmp
  dispatch swab_op = Single.swab
  dispatch clr_op = Single.clr
  dispatch clrb_op = Single.clrb
  dispatch com_op = Single.com_word
  dispatch comb_op = Single.comb
  dispatch inc_op = Single.inc
  dispatch incb_op = Single.incb
  dispatch dec_op = Single.dec
  dispatch decb_op = Single.decb
  dispatch neg_op = Single.neg
  dispatch negb_op = Single.negb
  dispatch adc_op = Single.adc
  dispatch adcb_op = Single.adcb
  dispatch sbc_op = Single.sbc
  dispatch sbcb_op = Single.sbcb
  dispatch tst_op = Single.tst
  dispatch tstb_op = Single.tstb
  dispatch ror_op = Single.ror
  dispatch rorb_op = Single.rorb
  dispatch rol_op = Single.rol
  dispatch rolb_op = Single.rolb
  dispatch asr_op = Single.asr
  dispatch asrb_op = Single.asrb
  dispatch asl_op = Single.asl
  dispatch aslb_op = Single.aslb
  dispatch mtps_op = Control.mtps
  dispatch mfpi_op = Control.mfpi
  dispatch mfpd_op = Control.mfpd
  dispatch mtpi_op = Control.mtpi
  dispatch mtpd_op = Control.mtpd
  dispatch sxt_op = Control.sxt
  dispatch mfps_op = Control.mfps
  dispatch rts_op = Control.rts

  unfoldable pub perform : Option OpCode → M S (Unit {0})
  unfolding dispatch
  perform none = Control.halt
  perform (some op) = dispatch op

  unfoldable pub exec_instruction : M S (Unit {0})
  unfolding decode perform
  exec_instruction = do ir ← reads (λ c. c.ir); perform (decode ir)

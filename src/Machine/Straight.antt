-- ===== src/Machine/Straight.antt =====
-- Programs without jumps, from the memory to HALT: word instructions on one register each.
pub mod Runs
use xmachine.Base.{
  ℕ, zero, suc, ◌+◌, ◌*◌, ◌%◌, ◌^◌, ◌<◌, ◌≡◌, refl, sym, subst, ap, ◌∙◌, arith, u16, bit_and, ◌>>>◌,
  ltb, Bool, true, false, if◌then◌else◌, Option, none, some, List, [], ◌∷◌, length,
}
use xmachine.Base.Bits.{bit_and_low, bit_and_field}
use xmachine.Outcome.{Outcome, done, Safe, returns}
use xmachine.Mem.{MemDev}
use xmachine.Unibus.Link.{System, linked}
use xmachine.Unibus.Transfer.{after_read}
use xmachine.Cpu.State.{Cpu, Machine, ◌>>=◌, ◌>>◌}
use xmachine.Cpu.Registers.{Reg, r0, r1, r2, r3, r4, r5, sp, pc, psw, get_reg, set_reg}
use xmachine.Cpu.Ops.Control.{halt}
use xmachine.Cpu.Decode.{
  OpCode, code, decode, dispatch, perform, exec_instruction, clr_op, com_op, inc_op, dec_op, neg_op,
  adc_op, sbc_op, asr_op, asl_op, rol_op, ror_op, swab_op,
}
use xmachine.Cpu.Decode.Table.{size, decode_lem}
use xmachine.Cpu.Execute.{cycle, execute}
use xmachine.Cpu.Safety.Rules.{IsCpu, IsGood}
use xmachine.Cpu.Safety.Instruction.{cycle-Keeps}
use xmachine.Cpu.Laws.Operands.{number}
use xmachine.Cpu.Laws.Unary.{unary, operated, unary_on_register}
use xmachine.Machine.Laws.{linked_laws}
use xmachine.Machine.Reach.{fetch_data_reach}

abbrev is_some : Option ℕ → Bool
is_some none = false
is_some (some v) = true

abbrev pub is_unary : OpCode → Bool
is_unary op = is_some (unary op 0 0)

-- What an instruction makes of its register.
abbrev pub result : OpCode → ℕ → ℕ → ℕ
result op carry x = elim (unary op carry x) [ none ↦ x | some v ↦ v ]

pub unary-result :
    (op : OpCode) (carry x : ℕ) → is_unary op ≡ true → unary op carry x ≡ some (result op carry x)
unary-result clr_op carry x e = refl
unary-result com_op carry x e = refl
unary-result inc_op carry x e = refl
unary-result dec_op carry x e = refl
unary-result neg_op carry x e = refl
unary-result adc_op carry x e = refl
unary-result sbc_op carry x e = refl
unary-result asr_op carry x e = refl
unary-result asl_op carry x e = refl
unary-result rol_op carry x e = refl
unary-result ror_op carry x e = refl
unary-result swab_op carry x e = refl
unary-result _ carry x e = absurd (cc)

unary_code :
    (op : OpCode) → is_unary op ≡ true → (code op % 64 ≡ 0) × (size op ≡ 64) × (code op < 0xffc0)
unary_code clr_op e = (refl, refl, omega arith)
unary_code com_op e = (refl, refl, omega arith)
unary_code inc_op e = (refl, refl, omega arith)
unary_code dec_op e = (refl, refl, omega arith)
unary_code neg_op e = (refl, refl, omega arith)
unary_code adc_op e = (refl, refl, omega arith)
unary_code sbc_op e = (refl, refl, omega arith)
unary_code asr_op e = (refl, refl, omega arith)
unary_code asl_op e = (refl, refl, omega arith)
unary_code rol_op e = (refl, refl, omega arith)
unary_code ror_op e = (refl, refl, omega arith)
unary_code swab_op e = (refl, refl, omega arith)
unary_code _ e = absurd (cc)

-- An instruction: its operation and its register.
abbrev pub word_of : OpCode × Reg → ℕ
word_of (op, r) = code op + number r

pub decode-word_of :
    (op : OpCode) (r : Reg) → is_unary op ≡ true → number r < 8 → decode (word_of (op, r)) ≡ some op
decode-word_of op r e lt =
    let (low, one, below) = unary_code op e in
    (decode_lem (word_of (op, r)) op (omega arith)).1 (omega arith, omega (arith, one))

-- The operand fields: mode 0, and the register's number.
pub fields :
    (op : OpCode) (r : Reg)
    → is_unary op ≡ true
    → number r < 8
    → (bit_and (word_of (op, r)) 0o70 >>> 3 ≡ 0) × (bit_and (word_of (op, r)) 0o7 ≡ number r)
fields op r e lt =
    let (low, one, below) = unary_code op e in
    (
      omega (arith, bit_and_field 3 3 (word_of (op, r))),
      omega (arith, bit_and_low 3 (word_of (op, r))),
    )

-- What an instruction makes of the processor, and a program, one instruction after the other.
abbrev pub fetched : ℕ → Cpu → Cpu
fetched w c = record c { ir = w; pc = u16 (c.pc + 2) }

abbrev pub stepped : OpCode × Reg → Cpu → Cpu
stepped (op, r) c =
    let f = fetched (word_of (op, r)) c in operated r (result op (f.psw % 2) (get_reg r f)) f

abbrev pub interpret : List (OpCode × Reg) → Cpu → Cpu
interpret [] c = record (fetched 0 c) { halted = true }
interpret (i ∷ is) c = interpret is (stepped i c)

-- The memory holds the program from an address on, and a HALT behind it.
abbrev pub word_in : MemDev → ℕ → ℕ
word_in d a = d.store (a + 1) * 256 + d.store a

abbrev pub Holds : MemDev → List (OpCode × Reg) → ℕ → Type 0
Holds d [] a = word_in d a ≡ 0
Holds d ((op, r) ∷ is) a =
    (is_unary op ≡ true) × (number r < 7) × (word_in d a ≡ word_of (op, r)) × Holds d is (a + 2)

pub set_reg-others :
    (r : Reg) (v : ℕ) (c : Cpu)
    → number r < 7
    → ((set_reg r v c).pc ≡ c.pc) × ((set_reg r v c).halted ≡ c.halted)
set_reg-others pc v c lt = absurd (omega arith)
set_reg-others psw v c lt = absurd (omega arith)
set_reg-others r v c lt = (refl, refl)

pub get_reg-lt : (r : Reg) (c : Cpu) → number r < 7 → IsCpu c → get_reg r c < 2 ^ 16
get_reg-lt r0 c lt h = h.r0
get_reg-lt r1 c lt h = h.r1
get_reg-lt r2 c lt h = h.r2
get_reg-lt r3 c lt h = h.r3
get_reg-lt r4 c lt h = h.r4
get_reg-lt r5 c lt h = h.r5
get_reg-lt sp c lt h = h.sp
get_reg-lt _ c lt h = absurd (omega arith)

pub get_reg-fetched :
    (r : Reg) (w : ℕ) (c : Cpu) → number r < 7 → get_reg r (fetched w c) ≡ get_reg r c
get_reg-fetched pc w c lt = absurd (omega arith)
get_reg-fetched r w c lt = refl

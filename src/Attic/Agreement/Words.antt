-- ===== src/Attic/Agreement/Words.antt =====
-- The word instructions with one operand in the two emulators.
use xmachine.Base.{
  false, Bool, leb, ℕ, ◌+◌, ◌%◌, ◌^◌, ◌<◌, ◌≡◌, refl, sym, subst, ap, ◌∙◌, arith, ◌==◌, bit_and,
  bit_or, bit_not, u16, sub16, ◌>>>◌, ◌<<<◌, true, Bool-cases, inl, inr, if◌then◌else◌, some,
  ==_iff,
}
use xmachine.Outcome.{Outcome, done}
use xmachine.Attic.State.{Effect, Memory, Emulator, Command, ◌>>=◌}
use xmachine.Attic.Single.{clr, com_word, inc, dec, neg, adc, sbc, asr, asl, rol, ror, swab}
use xmachine.Attic.Branches.{zero_flag, with_flag}
use xmachine.Attic.Decode as Earlier
use xmachine.Cpu.Laws.Codes.{with_codes}
use xmachine.Attic.Registers.{word_at, reg_loc, word_at-lt}
use xmachine.Attic.Effects.Table.{IsWired}
use xmachine.Attic.Agreement.{status, register}
use xmachine.Attic.Agreement.Forms.{
  Gives, EndsWith, plain_lem, clr_lem, zero_lem, carry_form_lem, alu_lem, carry_bit,
}
use xmachine.Cpu.State
use xmachine.Cpu.State.{Cpu, Bus, Machine}
use xmachine.Cpu.Registers.{Reg, r0, r1, r2, r3, r4, r5, sp, pc, psw, get_reg}
use xmachine.Cpu.Decode as Later
use xmachine.Cpu.Decode.{
  OpCode, decode, clr_op, com_op, inc_op, dec_op, neg_op, adc_op, sbc_op, asr_op, asl_op, rol_op,
  ror_op, swab_op,
}
use xmachine.Cpu.Laws.Operands.{number}
use xmachine.Cpu.Laws.Unary.{operated, unary_on_register, low_bit_up, high_bit_down, swapped}
use xmachine.Machine.Straight.{is_unary, result, unary-result}

-- The instructions of the earlier emulator that set Z; no other flag is set by any of these.
abbrev sets_zero : OpCode → Bool
sets_zero clr_op = false
sets_zero com_op = false
sets_zero inc_op = false
sets_zero swab_op = false
sets_zero _ = true

-- The status word of the earlier emulator after the result `v`.
abbrev pub earlier_codes : OpCode → ℕ → ℕ → ℕ
earlier_codes op v p = if sets_zero op then with_flag zero_flag (v == 0) p else p

-- The general registers of the two machines hold the same words.
pub record Agrees (s : Emulator) (c : Cpu) : Type 0 where
  pub r0 : register Reg.r0 s ≡ c.r0
  pub r1 : register Reg.r1 s ≡ c.r1
  pub r2 : register Reg.r2 s ≡ c.r2
  pub r3 : register Reg.r3 s ≡ c.r3
  pub r4 : register Reg.r4 s ≡ c.r4
  pub r5 : register Reg.r5 s ≡ c.r5
  pub sp : register Reg.sp s ≡ c.sp
  pub pc : register Reg.pc s ≡ c.pc

pub at_register :
    (s : Emulator) (c : Cpu) (q : Reg) → number q < 8 → Agrees s c → register q s ≡ get_reg q c
at_register s c Reg.r0 lt h = h.r0
at_register s c Reg.r1 lt h = h.r1
at_register s c Reg.r2 lt h = h.r2
at_register s c Reg.r3 lt h = h.r3
at_register s c Reg.r4 lt h = h.r4
at_register s c Reg.r5 lt h = h.r5
at_register s c Reg.sp lt h = h.sp
at_register s c Reg.pc lt h = h.pc
at_register s c Reg.psw lt h = absurd (omega arith)

pub everywhere :
    (s : Emulator) (c : Cpu) → ((q : Reg) → number q < 8 → register q s ≡ get_reg q c) → Agrees s c
everywhere s c h = record {
  r0 = h Reg.r0 (omega arith);
  r1 = h Reg.r1 (omega arith);
  r2 = h Reg.r2 (omega arith);
  r3 = h Reg.r3 (omega arith);
  r4 = h Reg.r4 (omega arith);
  r5 = h Reg.r5 (omega arith);
  sp = h Reg.sp (omega arith);
  pc = h Reg.pc (omega arith);
}

-- The processor of src/cpu, after a register was set.
operated-register :
    (q r : Reg) (v : ℕ) (c : Cpu)
    → number q < 8
    → get_reg q (operated r v c) ≡ (if number q == number r then v else get_reg q c)
operated-register psw _ v c lt = absurd (omega arith)
operated-register _ r0 v c lt = refl
operated-register _ r1 v c lt = refl
operated-register _ r2 v c lt = refl
operated-register _ r3 v c lt = refl
operated-register _ r4 v c lt = refl
operated-register _ r5 v c lt = refl
operated-register _ sp v c lt = refl
operated-register _ pc v c lt = refl
operated-register _ psw v c lt = refl

-- A register agrees after both, if it agreed before.
after_both :
    (q r : Reg) (v p : ℕ) (s s' : Emulator) (c : Cpu)
    → number q < 8
    → Gives r v p s s'
    → register q s ≡ get_reg q c
    → register q s' ≡ get_reg q (operated r v c)
after_both q r v p s s' c lt gives before = elim (Bool-cases (number q == number r)) [
  | inl e ↦
      let same : number q ≡ number r = (==_iff (number q) (number r)).0 e in
      ap (λ n. word_at (reg_loc n) s'.memory) same
      ∙ gives.value
      ∙ sym (operated-register q r v c lt ∙ rw e refl)
  | inr e ↦ gives.others q lt e ∙ before ∙ sym (operated-register q r v c lt ∙ rw e refl)
]

module _ (c : Effect → Command Memory (Unit {0})) (r : Reg) (s : Emulator) (lt : number r < 8)
    (mode : bit_and s.ir 0o70 >>> 3 ≡ 0) (reg : bit_and s.ir 0o7 ≡ number r)
    (h : IsWired s.memory) where
  retarget :
      (codes : ℕ → ℕ) (o : Outcome (Unit {0} × Emulator)) (known v : ℕ)
      → known ≡ v
      → EndsWith r known (codes known) s o
      → EndsWith r v (codes v) s o
  retarget codes o known v e ends = subst (λ v. EndsWith r v (codes v) s o) e ends

  abbrev kept : ℕ → ℕ
  kept v = status s

  abbrev zeroed : ℕ → ℕ
  zeroed v = with_flag zero_flag (v == 0) (status s)

  abbrev x : ℕ
  x = register r s

  word : x < 2 ^ 16
  word = word_at-lt (reg_loc (number r)) s.memory h.bytes

  -- What each instruction leaves in its register, in the earlier emulator.
  pub unary_of_earlier :
      (op : OpCode)
      → is_unary op ≡ true
      → EndsWith r
          (result op (carry_bit s) x)
          (earlier_codes op (result op (carry_bit s) x) (status s))
          s
          (Earlier.dispatch c op s)
  unfolding Earlier.dispatch clr com_word inc dec neg adc sbc asr asl rol ror swab
  unary_of_earlier clr_op e = clr_lem c r s lt mode reg h
  unary_of_earlier com_op e =
      retarget kept _ _ _ (omega (arith, word))
        (plain_lem c r s lt mode reg h (λ w. u16 (bit_not w)) (omega arith))
  unary_of_earlier inc_op e = plain_lem c r s lt mode reg h (λ w. u16 (w + 1)) (omega arith)
  unary_of_earlier dec_op e =
      retarget zeroed _ _ _ (omega (arith, word))
        (zero_lem c r s lt mode reg h (λ w. sub16 w 1) (omega arith))
  unary_of_earlier neg_op e =
      retarget zeroed _ _ _ (omega (arith, word))
        (alu_lem c r s lt mode reg h (λ w. u16 (bit_not w + 1)) (omega arith))
  unary_of_earlier adc_op e = carry_form_lem c r s lt mode reg h (λ b w. u16 (w + b)) (omega arith)
  unary_of_earlier sbc_op e = carry_form_lem c r s lt mode reg h (λ b w. sub16 w b) (omega arith)
  unary_of_earlier asr_op e = alu_lem c r s lt mode reg h (λ w. w >>> 1) (omega (arith, word))
  unary_of_earlier asl_op e = alu_lem c r s lt mode reg h (λ w. u16 (w <<< 1)) (omega arith)
  unary_of_earlier rol_op e =
      retarget zeroed _ _ _ (low_bit_up x word)
        (zero_lem c r s lt mode reg h (λ w. u16 (bit_or (w <<< 15) (w >>> 1))) (omega arith))
  unary_of_earlier ror_op e =
      retarget zeroed _ _ _ (high_bit_down x word)
        (zero_lem c r s lt mode reg h (λ w. u16 (bit_or (w <<< 1) (w >>> 15))) (omega arith))
  unary_of_earlier swab_op e = retarget kept _ _ _ (swapped x word) (
      plain_lem c r s lt mode reg h (λ w. bit_or (bit_and w 0o177400 >>> 8) (bit_and w 0o377 <<< 8))
        (omega (arith, swapped x word)))
  unary_of_earlier _ e = absurd (cc)

  -- If the general registers of the two machines and their carries agree, and so do the instruction
  -- words, and the memory of the earlier one has bytes and the program's side effects, then CLR, COM,
  -- INC, DEC, NEG, ADC, SBC, ASR, ASL, ROL, ROR and SWAB on a general register, in mode 0, end in both,
  -- and the general registers agree again. The status words need not: the processor sets N and Z by
  -- the result, the earlier emulator sets only Z, and after CLR, COM, INC and SWAB not even that; each
  -- keeps every other bit. The memory of the earlier one has bytes and the side effects still; what
  -- their handlers do plays no part.
  pub emulators_agree :
      {S : Type 0} ⦃bus : Bus S⦄ (op : OpCode) (t : Machine S)
      → is_unary op ≡ true
      → decode s.ir ≡ some op
      → t.cpu.ir ≡ s.ir
      → Agrees s t.cpu
      → carry_bit s ≡ t.cpu.psw % 2
      → (s' : Emulator) × (t' : Machine S) × (Earlier.exec_instruction c s ≡ done (tt, s'))
        × (Later.exec_instruction t ≡ done (tt, t'))
        × Agrees s' t'.cpu
        × (let v = result op (t.cpu.psw % 2) (get_reg r t.cpu) in
            (status s' ≡ earlier_codes op v (status s))
            × (t'.cpu.psw ≡ with_codes (leb 0x8000 v) (v == 0) t.cpu.psw))
        × IsWired s'.memory
  unfolding Earlier.exec_instruction Earlier.perform Later.exec_instruction Later.perform
      State.◌>>=◌ ◌>>=◌
  emulators_agree op t unary_op decoded same agrees carries =
      let at_r : x ≡ get_reg r t.cpu = at_register s t.cpu r lt agrees in
      let v : ℕ = result op (t.cpu.psw % 2) (get_reg r t.cpu) in
      let same_v : result op (carry_bit s) x ≡ v = rw (carries, at_r) refl in
      let (s', ends, gives) =
        retarget (λ v. earlier_codes op v (status s)) _ _ v same_v (unary_of_earlier op unary_op) in
      let decoded' : decode t.cpu.ir ≡ some op = ap decode same ∙ decoded in
      let t' : Machine _ = record t { cpu = operated r v t.cpu } in
      (
        s',
        t',
        rw decoded ends,
        rw decoded' (
            unary_on_register r t lt (ap (λ ir. bit_and ir 0o70 >>> 3) same ∙ mode)
              (ap (λ ir. bit_and ir 0o7) same ∙ reg) op v
              (unary-result op (t.cpu.psw % 2) (get_reg r t.cpu) unary_op)
              (subst (λ x. x < 2 ^ 16) at_r word)),
        everywhere s' t'.cpu
            (λ q q8. after_both q r v _ s s' t.cpu q8 gives (at_register s t.cpu q q8 agrees)),
        (gives.codes, refl),
        gives.wired,
      )

-- ===== src/Attic/Agreement/Jumps.antt =====
-- The registers of the two emulators over a branch.
use xmachine.Base.{
  ℕ, ◌^◌, ◌≤◌, ◌<◌, ◌≡◌, ◌⊎◌, refl, ap, ◌∙◌, arith, bit_and, if◌then◌else◌, Bool, true, false, some,
  inl, inr,
}
use xmachine.Outcome.{done}
use xmachine.Attic.State.{Effect, Memory, Emulator, Command, ◌>>=◌}
use xmachine.Attic.Branches.{get_branch_offset, target}
use xmachine.Attic.Decode as Earlier
use xmachine.Attic.Registers.{AreBytes, reg_loc, word_at-lt, word_at-with_word, word_at-other}
use xmachine.Attic.Agreement.{status}
use xmachine.Attic.Agreement.Words.{Agrees}
use xmachine.Attic.Agreement.Branching.{
  counter, turned, goal, add_doubled-lt, narrow_target-target, earlier_branch_conditions,
}
use xmachine.Cpu.State
use xmachine.Cpu.State.{Cpu, Bus, Machine}
use xmachine.Cpu.Ops.Branch as Later_branch
use xmachine.Cpu.Decode as Later
use xmachine.Cpu.Decode.{OpCode, decode, bne_op}
use xmachine.Cpu.Laws.Conditions.{taken, after_branch, branch_conditions}

-- An offset of at most 63 words forward or 64 back.
abbrev pub IsNear : ℕ → Type 0
IsNear ir = (bit_and ir 0o377 < 64) ⊎ (192 ≤ bit_and ir 0o377)

same_goal :
    (op : OpCode) (pc ir : ℕ)
    → (op ≡ bne_op → IsNear ir)
    → pc < 2 ^ 16
    → goal op pc ir ≡ target pc ir
same_goal bne_op pc ir near lt = narrow_target-target pc ir (near refl) lt
same_goal _ pc ir near lt = refl

-- The general registers and the status word, after both have moved `pc`.
moved :
    (alu alu' v : ℕ) (s : Emulator) (c : Cpu)
    → v < 2 ^ 16
    → Agrees s c
    → Agrees (turned alu true v s) (record c { alu = alu'; pc = v })
moved alu alu' v s c lt h = record {
  r0 = word_at-other (reg_loc 0) (reg_loc 7) v s.memory (inl (omega arith)) ∙ h.r0;
  r1 = word_at-other (reg_loc 1) (reg_loc 7) v s.memory (inl (omega arith)) ∙ h.r1;
  r2 = word_at-other (reg_loc 2) (reg_loc 7) v s.memory (inl (omega arith)) ∙ h.r2;
  r3 = word_at-other (reg_loc 3) (reg_loc 7) v s.memory (inl (omega arith)) ∙ h.r3;
  r4 = word_at-other (reg_loc 4) (reg_loc 7) v s.memory (inl (omega arith)) ∙ h.r4;
  r5 = word_at-other (reg_loc 5) (reg_loc 7) v s.memory (inl (omega arith)) ∙ h.r5;
  sp = word_at-other (reg_loc 6) (reg_loc 7) v s.memory (inl (omega arith)) ∙ h.sp;
  pc = word_at-with_word (reg_loc 7) v s.memory lt;
}

abbrev pub AgreesWithCodes : Emulator → Cpu → Type 0
AgreesWithCodes s c = Agrees s c × (status s ≡ c.psw)

after_both :
    (alu alu' v : ℕ) (b : Bool) (s : Emulator) (c : Cpu)
    → v < 2 ^ 16
    → AgreesWithCodes s c
    → AgreesWithCodes (turned alu b v s) (record c { alu = alu'; pc = if b then v else c.pc })
after_both alu alu' v true s c lt (h, e) = (
  moved alu alu' v s c lt h,
  word_at-other (reg_loc 8) (reg_loc 7) v s.memory (inr (omega arith)) ∙ e,
)
after_both alu alu' v false s c lt (h, e) = (
  record { r0 = h.r0; r1 = h.r1; r2 = h.r2; r3 = h.r3; r4 = h.r4; r5 = h.r5; sp = h.sp; pc = h.pc },
  e,
)

module _ (c : Effect → Command Memory (Unit {0})) where
  -- If the general registers, the status words and the instruction words of the two machines agree,
  -- then a branch ends in both, taken or not, and the registers and status words agree again; for BNE
  -- its offset must be at most 63 words forward or 64 back. The memory of the earlier
  -- emulator must hold bytes.
  pub branches_agree :
      {S : Type 0} ⦃bus : Bus S⦄ (op : OpCode) (b : Bool) (s : Emulator) (t : Machine S)
      → taken op t.cpu.psw ≡ some b
      → decode s.ir ≡ some op
      → t.cpu.ir ≡ s.ir
      → AgreesWithCodes s t.cpu
      → (op ≡ bne_op → IsNear s.ir)
      → AreBytes s.memory
      → (s' : Emulator) × (t' : Machine S) × (Earlier.exec_instruction c s ≡ done (tt, s'))
        × (Later.exec_instruction t ≡ done (tt, t'))
        × AgreesWithCodes s' t'.cpu
  unfolding Earlier.exec_instruction Earlier.perform Later.exec_instruction Later.perform
      State.◌>>=◌ ◌>>=◌ get_branch_offset Later_branch.get_branch_offset
  branches_agree op b s t at_flags decoded same (agrees, codes) near bytes =
      let (alu, first) =
        earlier_branch_conditions c op b s (ap (taken op) codes ∙ at_flags) bytes in
      let (alu', second) = branch_conditions op b t at_flags in
      let decoded' : decode t.cpu.ir ≡ some op = ap decode same ∙ decoded in
      let place : goal op (counter s) s.ir ≡ target t.cpu.pc t.cpu.ir =
        same_goal op (counter s) s.ir near (word_at-lt (reg_loc 7) s.memory bytes)
        ∙ rw (agrees.pc, same) refl in
      (
        turned alu b (target t.cpu.pc t.cpu.ir) s,
        after_branch alu' b t,
        rw decoded (first ∙ ap (λ v. done (tt, turned alu b v s)) place),
        rw decoded' second,
        after_both alu alu' (target t.cpu.pc t.cpu.ir) b s t.cpu (add_doubled-lt t.cpu.pc t.cpu.ir)
            (agrees, codes),
      )

-- ===== src/Attic/Agreement/Branching.antt =====
-- The branches in the two emulators.
use xmachine.Base.{
  ℕ, suc, ◌^◌, ◌≤◌, ◌<◌, ◌≡◌, ◌⊎◌, refl, ap, ◌∙◌, arith, bit_and, ◌==◌, if◌then◌else◌, Bool, true,
  false, not, some,
}
use xmachine.Base.Bits.{bit_and_low}
use xmachine.Outcome.{Outcome, done}
use xmachine.Attic.State.{Effect, Memory, Emulator, Command, ◌>>=◌, ◌>>◌, on_memory}
use xmachine.Attic.Memory.{r_pc, r_ps}
use xmachine.Attic.Branches.{
  zero_flag, get_branch_offset, target, narrow_target, branch_with, branch_if, br, bne, beq, bge,
  blt, bgt, ble, bpl, bmi, bhi, blos, bvc, bvs, bcc, bcs,
}
use xmachine.Attic.Agreement.{status}
use xmachine.Attic.Decode as Earlier
use xmachine.Attic.Registers.{AreBytes, word_at, with_word, reg_loc, get_r_lem, set_r_lem}
use xmachine.Cpu.Decode.{
  OpCode, br_op, bne_op, beq_op, bge_op, blt_op, bgt_op, ble_op, bpl_op, bmi_op, bhi_op, blos_op,
  bvc_op, bvs_op, bcc_op, bcs_op,
}
use xmachine.Cpu.Laws.Conditions.{bit_of, taken, flag_values, sign_test, order_test, unsigned_test}

abbrev pub counter : Emulator → ℕ
counter s = word_at (reg_loc r_pc) s.memory

-- The emulator after a branch to `pc`, or after none.
abbrev pub turned : ℕ → Bool → ℕ → Emulator → Emulator
turned alu b pc s = record s {
  alu = alu;
  memory = if b then with_word (reg_loc r_pc) pc s.memory else s.memory;
}

pub add_doubled-lt : (pc ir : ℕ) → target pc ir < 2 ^ 16
unfolding get_branch_offset
add_doubled-lt pc ir = ground arith

module _ (new_pc : ℕ → ℕ → ℕ) (fits : (pc ir : ℕ) → new_pc pc ir < 2 ^ 16) where
  branch_with_lem :
      (flags : ℕ → ℕ) (test : ℕ → Bool) (s : Emulator) (b : Bool)
      → test (flags (status s)) ≡ b
      → AreBytes s.memory
      → branch_with new_pc flags test s
        ≡ done (tt, turned (flags (status s)) b (new_pc (counter s) s.ir) s)
  unfolding ◌>>=◌ ◌>>◌ on_memory
  branch_with_lem flags test s true e h =
      rw
        (
          get_r_lem r_pc s.memory (omega arith) h,
          get_r_lem r_ps s.memory (omega arith) h,
          e,
          set_r_lem r_pc (new_pc (counter s) s.ir) s.memory (omega arith) (fits (counter s) s.ir),
        )
        refl
  branch_with_lem flags test s false e h =
      rw (get_r_lem r_pc s.memory (omega arith) h, get_r_lem r_ps s.memory (omega arith) h, e) refl

  -- A test of a flag combination that is nonzero or 0.
  by_value :
      (k : ℕ) (flags : ℕ → ℕ) (s : Emulator) (b : Bool)
      → flags (status s) ≡ (if b then suc k else 0)
      → AreBytes s.memory
      → (branch_with new_pc flags (λ alu. not (alu == 0)) s
          ≡ done (tt, turned (flags (status s)) b (new_pc (counter s) s.ir) s))
        × (branch_with new_pc flags (λ alu. alu == 0) s
            ≡ done (tt, turned (flags (status s)) (not b) (new_pc (counter s) s.ir) s))
  by_value k flags s true e h = (
    branch_with_lem flags (λ alu. not (alu == 0)) s true (rw e (ground arith)) h,
    branch_with_lem flags (λ alu. alu == 0) s false (rw e (ground arith)) h,
  )
  by_value k flags s false e h = (
    branch_with_lem flags (λ alu. not (alu == 0)) s false (rw e (ground arith)) h,
    branch_with_lem flags (λ alu. alu == 0) s true (rw e (ground arith)) h,
  )

-- BPL and BMI, which leave `alu`.
branch_if_lem :
    (test : ℕ → Bool) (s : Emulator) (b : Bool)
    → test (status s) ≡ b
    → AreBytes s.memory
    → branch_if test s ≡ done (tt, turned s.alu b (target (counter s) s.ir) s)
unfolding ◌>>=◌ on_memory get_branch_offset
branch_if_lem test s true e h =
    rw
      (
        get_r_lem r_pc s.memory (omega arith) h,
        get_r_lem r_ps s.memory (omega arith) h,
        e,
        set_r_lem r_pc (target (counter s) s.ir) s.memory (omega arith)
            (add_doubled-lt (counter s) s.ir),
      )
      refl
branch_if_lem test s false e h =
    rw (get_r_lem r_pc s.memory (omega arith) h, get_r_lem r_ps s.memory (omega arith) h, e) refl

is_nonzero :
    (b : Bool) (k : ℕ)
    → (((if b then suc k else 0) == 0) ≡ not b) × (not ((if b then suc k else 0) == 0) ≡ b)
is_nonzero true k = (ground arith, ground arith)
is_nonzero false k = (refl, refl)

br_lem :
    (s : Emulator)
    → AreBytes s.memory
    → br s ≡ done (tt, turned s.alu true (target (counter s) s.ir) s)
unfolding br ◌>>=◌ on_memory get_branch_offset
br_lem s h =
    rw
      (
        get_r_lem r_pc s.memory (omega arith) h,
        set_r_lem r_pc (target (counter s) s.ir) s.memory (omega arith)
            (add_doubled-lt (counter s) s.ir),
      )
      refl

is_zero : (z : Bool) → ((if z then 4 else 0) == zero_flag) ≡ z
is_zero true = refl
is_zero false = refl

narrow_target-lt : (pc ir : ℕ) → narrow_target pc ir < 2 ^ 16
narrow_target-lt pc ir = ground arith

-- The targets of BNE agree with those of the others for 63 words forward and 64 back.
pub narrow_target-target :
    (pc ir : ℕ)
    → (bit_and ir 0o377 < 64) ⊎ (192 ≤ bit_and ir 0o377)
    → pc < 2 ^ 16
    → narrow_target pc ir ≡ target pc ir
unfolding get_branch_offset
narrow_target-target pc ir near lt = ground (arith, bit_and_low 8 ir)

-- Where an operation goes.
abbrev pub goal : OpCode → ℕ → ℕ → ℕ
goal bne_op pc ir = narrow_target pc ir
goal _ pc ir = target pc ir

concluded :
    {o : Outcome (Unit {0} × Emulator)} (alu pc : ℕ) (s : Emulator) {known b : Bool}
    → some known ≡ some b
    → o ≡ done (tt, turned alu known pc s)
    → (alu : ℕ) × (o ≡ done (tt, turned alu b pc s))
concluded alu pc s {known} {b} e h =
    let same : known ≡ b = cc in (alu, h ∙ ap (λ t. done (tt, turned alu t pc s)) same)

module _ (c : Effect → Command Memory (Unit {0})) where
  pub earlier_branch_conditions :
      (op : OpCode) (b : Bool) (s : Emulator)
      → taken op (status s) ≡ some b
      → AreBytes s.memory
      → (alu : ℕ) × (Earlier.dispatch c op s ≡ done (tt, turned alu b (goal op (counter s) s.ir) s))
  unfolding Earlier.dispatch br bcc bcs beq bge bgt bhi ble blos blt bmi bne bpl bvc bvs
  earlier_branch_conditions br_op b s e h = concluded s.alu _ s e (br_lem s h)
  earlier_branch_conditions bne_op b s e h =
      concluded _ _ s e
        (by_value narrow_target narrow_target-lt 3 _ s (bit_of 2 (status s))
          (flag_values (status s)).2 h).1
  earlier_branch_conditions beq_op b s e h =
      let (carry, overflow, zero, negative) = flag_values (status s) in
      concluded _ _ s e (
        branch_with_lem target add_doubled-lt _ (λ alu. alu == zero_flag) s (bit_of 2 (status s))
          (rw zero (is_zero (bit_of 2 (status s)))) h)
  earlier_branch_conditions bge_op b s e h =
      concluded _ _ s e (by_value target add_doubled-lt 0 _ s _ (sign_test (status s)) h).1
  earlier_branch_conditions blt_op b s e h =
      concluded _ _ s e (by_value target add_doubled-lt 0 _ s _ (sign_test (status s)) h).0
  earlier_branch_conditions bgt_op b s e h =
      concluded _ _ s e (by_value target add_doubled-lt 0 _ s _ (order_test (status s)) h).1
  earlier_branch_conditions ble_op b s e h =
      concluded _ _ s e (by_value target add_doubled-lt 0 _ s _ (order_test (status s)) h).0
  earlier_branch_conditions bpl_op b s e h =
      let (carry, overflow, zero, negative) = flag_values (status s) in
      concluded _ _ s e (branch_if_lem _ s _ (rw negative (is_nonzero (bit_of 3 (status s)) 7).0) h)
  earlier_branch_conditions bmi_op b s e h =
      let (carry, overflow, zero, negative) = flag_values (status s) in
      concluded _ _ s e (branch_if_lem _ s _ (rw negative (is_nonzero (bit_of 3 (status s)) 7).1) h)
  earlier_branch_conditions bhi_op b s e h =
      concluded _ _ s e (by_value target add_doubled-lt 0 _ s _ (unsigned_test (status s)) h).1
  earlier_branch_conditions blos_op b s e h =
      concluded _ _ s e (by_value target add_doubled-lt 0 _ s _ (unsigned_test (status s)) h).0
  earlier_branch_conditions bvc_op b s e h =
      concluded _ _ s e (by_value target add_doubled-lt 1 _ s _ (flag_values (status s)).1 h).1
  earlier_branch_conditions bvs_op b s e h =
      concluded _ _ s e (by_value target add_doubled-lt 1 _ s _ (flag_values (status s)).1 h).0
  earlier_branch_conditions bcc_op b s e h =
      concluded _ _ s e (by_value target add_doubled-lt 0 _ s _ (flag_values (status s)).0 h).1
  earlier_branch_conditions bcs_op b s e h =
      concluded _ _ s e (by_value target add_doubled-lt 0 _ s _ (flag_values (status s)).0 h).0
  earlier_branch_conditions _ b s e h = absurd (cc)

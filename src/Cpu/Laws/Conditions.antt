-- ===== src/Cpu/Laws/Conditions.antt =====
-- The fifteen branches against the PDP-11's table of conditions.
use xmachine.Base.{
  ℕ, suc, ◌/◌, ◌%◌, ◌^◌, ◌≡◌, refl, arith, bit_and, bit_or, bit_xor, ◌>>>◌, add_doubled, ◌==◌,
  if◌then◌else◌, Bool, true, false, ◌||◌, not, Option, none, some, ap, ◌∙◌,
}
use xmachine.Base.Bits.{bit_and_field}
use xmachine.Outcome.{Outcome, done}
use xmachine.Cpu.State.{Bus, Machine}
use xmachine.Cpu.Flags.{carry_flag, overflow_flag, zero_flag, negative_flag}
use xmachine.Cpu.Ops.Branch.{
  get_branch_offset, branch_on, br, bcc, bcs, beq, bge, bgt, bhi, ble, blos, blt, bmi, bne, bpl,
  bvc, bvs,
}
use xmachine.Cpu.Decode.{
  OpCode, dispatch, br_op, bne_op, beq_op, bge_op, blt_op, bgt_op, ble_op, bpl_op, bmi_op, bhi_op,
  blos_op, bvc_op, bvs_op, bcc_op, bcs_op,
}

abbrev pub differ : Bool → Bool → Bool
differ true b = not b
differ false b = b

-- When a branch is taken, by N, Z, V and C; `none` for an operation that is no branch.
abbrev pub condition : OpCode → Bool → Bool → Bool → Bool → Option Bool
condition br_op n z v c = some true
condition bne_op n z v c = some (not z)
condition beq_op n z v c = some z
condition bge_op n z v c = some (not (differ n v))
condition blt_op n z v c = some (differ n v)
condition bgt_op n z v c = some (not (z || differ n v))
condition ble_op n z v c = some (z || differ n v)
condition bpl_op n z v c = some (not n)
condition bmi_op n z v c = some n
condition bhi_op n z v c = some (not (c || z))
condition blos_op n z v c = some (c || z)
condition bvc_op n z v c = some (not v)
condition bvs_op n z v c = some v
condition bcc_op n z v c = some (not c)
condition bcs_op n z v c = some c
condition _ n z v c = none

-- One bit of the status word.
abbrev pub bit_of : ℕ → ℕ → Bool
bit_of k p = p / 2 ^ k % 2 == 1

-- The condition of an operation, at the flags of a status word.
abbrev pub taken : OpCode → ℕ → Option Bool
taken op p = condition op (bit_of 3 p) (bit_of 2 p) (bit_of 1 p) (bit_of 0 p)

-- The four masked flags.
pub flag_values :
    (p : ℕ)
    → (bit_and p carry_flag ≡ (if bit_of 0 p then 1 else 0))
      × (bit_and p overflow_flag ≡ (if bit_of 1 p then 2 else 0))
      × (bit_and p zero_flag ≡ (if bit_of 2 p then 4 else 0))
      × (bit_and p negative_flag ≡ (if bit_of 3 p then 8 else 0))
flag_values p = (
  ground (arith, bit_and_field 1 0 p),
  ground (arith, bit_and_field 1 1 p),
  ground (arith, bit_and_field 1 2 p),
  ground (arith, bit_and_field 1 3 p),
)

-- `alu` as a test of the flags, when each is known.
abbrev tested : (ℕ → ℕ) → (ℕ → Bool) → ℕ → Bool
tested flags test p = test (flags p)

pub sign_test :
    (p : ℕ)
    → bit_xor (bit_and p negative_flag >>> 3) (bit_and p overflow_flag >>> 1)
      ≡ (if differ (bit_of 3 p) (bit_of 1 p) then 1 else 0)
sign_test p = let (c, v, z, n) = flag_values p in rw (n, v) (table (bit_of 3 p) (bit_of 1 p))
  where
    table :
        (n v : Bool)
        → bit_xor ((if n then 8 else 0) >>> 3) ((if v then 2 else 0) >>> 1)
          ≡ (if differ n v then 1 else 0)
    table true true = refl
    table true false = refl
    table false true = refl
    table false false = refl

pub order_test :
    (p : ℕ)
    → bit_or
        (bit_and p zero_flag >>> 2)
        (bit_xor (bit_and p negative_flag >>> 3) (bit_and p overflow_flag >>> 1))
      ≡ (if bit_of 2 p || differ (bit_of 3 p) (bit_of 1 p) then 1 else 0)
order_test p =
    let (c, v, z, n) = flag_values p in
    rw (sign_test, z) (table (bit_of 2 p) (differ (bit_of 3 p) (bit_of 1 p)))
  where
    table :
        (z s : Bool)
        → bit_or ((if z then 4 else 0) >>> 2) (if s then 1 else 0) ≡ (if z || s then 1 else 0)
    table true true = refl
    table true false = refl
    table false true = refl
    table false false = refl

pub unsigned_test :
    (p : ℕ)
    → bit_or (bit_and p carry_flag) (bit_and p zero_flag >>> 2)
      ≡ (if bit_of 0 p || bit_of 2 p then 1 else 0)
unsigned_test p = let (c, v, z, n) = flag_values p in rw (c, z) (table (bit_of 0 p) (bit_of 2 p))
  where
    table :
        (c z : Bool)
        → bit_or (if c then 1 else 0) ((if z then 4 else 0) >>> 2) ≡ (if c || z then 1 else 0)
    table true true = refl
    table true false = refl
    table false true = refl
    table false false = refl

-- A machine after a branch: `alu` has changed, `pc` has moved if the branch was taken.
abbrev pub after_branch : {S : Type 0} → ℕ → Bool → Machine S → Machine S
after_branch alu taken s = record s {
  cpu = record s.cpu {
    alu = alu;
    pc = if taken then add_doubled s.cpu.pc (get_branch_offset s.cpu) else s.cpu.pc;
  };
}

module _ {S : Type 0} where
  branched_lem :
      (flags : ℕ → ℕ) (test : ℕ → Bool) (s : Machine S) (taken : Bool)
      → test (flags s.cpu.psw) ≡ taken
      → branch_on flags test s ≡ done (tt, after_branch (flags s.cpu.psw) taken s)
  unfolding branch_on
  branched_lem flags test s true e = rw e
  branched_lem flags test s false e = rw e

  -- A test of a flag combination that is nonzero or 0.
  by_value :
      (k : ℕ) (flags : ℕ → ℕ) (s : Machine S) (b : Bool)
      → flags s.cpu.psw ≡ (if b then suc k else 0)
      → (branch_on flags (λ alu. not (alu == 0)) s ≡ done (tt, after_branch (flags s.cpu.psw) b s))
        × (branch_on flags (λ alu. alu == 0) s
            ≡ done (tt, after_branch (flags s.cpu.psw) (not b) s))
  by_value k flags s true e = (
    branched_lem flags _ s true (rw e (ground arith)),
    branched_lem flags _ s false (rw e (ground arith)),
  )
  by_value k flags s false e = (
    branched_lem flags _ s false (rw e (ground arith)),
    branched_lem flags _ s true (rw e (ground arith)),
  )

  is_zero :
      (s : Machine S)
      → branch_on (λ psw. bit_and psw zero_flag) (λ alu. alu == zero_flag) s
        ≡ done (tt, after_branch (bit_and s.cpu.psw zero_flag) (bit_of 2 s.cpu.psw) s)
  is_zero s = branched_lem _ _ s _ (rw ((flag_values s.cpu.psw).2) (by_case (bit_of 2 s.cpu.psw)))
    where
      by_case : (z : Bool) → ((if z then 4 else 0) == zero_flag) ≡ z
      by_case true = refl
      by_case false = refl

  -- A branch whose `alu` and condition are known.
  concluded :
      {o : Outcome (Unit {0} × Machine S)} (alu : ℕ) (s : Machine S) {known b : Bool}
      → some known ≡ some b
      → o ≡ done (tt, after_branch alu known s)
      → (alu : ℕ) × (o ≡ done (tt, after_branch alu b s))
  concluded alu s {known} {b} e h =
      let same : known ≡ b = cc in (alu, h ∙ ap (λ t. done (tt, after_branch alu t s)) same)

module _ {S : Type 0} ⦃bus : Bus S⦄ where
  -- Every branch instruction is taken exactly when the PDP-11's condition on N, Z, V and C holds:
  -- `pc` then moves by twice the signed low byte of the instruction, modulo 2 ^ 16. Taken or not,
  -- it changes nothing else but `alu`.
  pub branch_conditions :
      (op : OpCode) (b : Bool) (s : Machine S)
      → taken op s.cpu.psw ≡ some b
      → (alu : ℕ) × (dispatch op s ≡ done (tt, after_branch alu b s))
  unfolding dispatch br bcc bcs beq bge bgt bhi ble blos blt bmi bne bpl bvc bvs
  branch_conditions br_op b s e = concluded s.cpu.alu s e refl
  branch_conditions bne_op b s e = concluded _ s e (by_value 3 _ s _ (flag_values s.cpu.psw).2).1
  branch_conditions beq_op b s e = concluded _ s e (is_zero s)
  branch_conditions bge_op b s e = concluded _ s e (by_value 0 _ s _ (sign_test s.cpu.psw)).1
  branch_conditions blt_op b s e = concluded _ s e (by_value 0 _ s _ (sign_test s.cpu.psw)).0
  branch_conditions bgt_op b s e = concluded _ s e (by_value 0 _ s _ (order_test s.cpu.psw)).1
  branch_conditions ble_op b s e = concluded _ s e (by_value 0 _ s _ (order_test s.cpu.psw)).0
  branch_conditions bpl_op b s e = concluded _ s e (by_value 7 _ s _ (flag_values s.cpu.psw).3).1
  branch_conditions bmi_op b s e = concluded _ s e (by_value 7 _ s _ (flag_values s.cpu.psw).3).0
  branch_conditions bhi_op b s e = concluded _ s e (by_value 0 _ s _ (unsigned_test s.cpu.psw)).1
  branch_conditions blos_op b s e = concluded _ s e (by_value 0 _ s _ (unsigned_test s.cpu.psw)).0
  branch_conditions bvc_op b s e = concluded _ s e (by_value 1 _ s _ (flag_values s.cpu.psw).1).1
  branch_conditions bvs_op b s e = concluded _ s e (by_value 1 _ s _ (flag_values s.cpu.psw).1).0
  branch_conditions bcc_op b s e = concluded _ s e (by_value 0 _ s _ (flag_values s.cpu.psw).0).1
  branch_conditions bcs_op b s e = concluded _ s e (by_value 0 _ s _ (flag_values s.cpu.psw).0).0
  branch_conditions _ b s e = absurd (cc)

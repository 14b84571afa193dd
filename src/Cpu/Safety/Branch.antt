-- ===== src/Cpu/Safety/Branch.antt =====
-- The branches keep the machine good.
use xmachine.Base.{
  ℕ, ℤ, ◌^◌, ◌<◌, arith, bit_and, bit_or, bit_xor, ◌>>>◌, add_doubled, if◌then◌else◌, Bool, true,
  false,
}
use xmachine.Base.Bits.{bit_and-le, bit_or-lt, bit_xor-lt}
use xmachine.Cpu.State.{Cpu, Bus}
use xmachine.Cpu.Flags.{carry_flag, overflow_flag, zero_flag, negative_flag}
use xmachine.Cpu.Ops.Branch.{
  get_branch_offset, jump, branched, branch_on, br, bcc, bcs, beq, bge, bgt, bhi, ble, blos, blt,
  bmi, bne, bpl, bvc, bvs,
}
use xmachine.Cpu.Safety.Rules.{IsCpu, BusLaws, Keeps, Keeps-assign}

add_doubled-lt : (x : ℕ) (k : ℤ) → add_doubled x k < 2 ^ 16
add_doubled-lt x (ℤ.pos n) = omega arith
add_doubled-lt x (ℤ.negsuc n) = omega arith

jump-IsCpu : (c : Cpu) → IsCpu c → IsCpu (jump c)
jump-IsCpu c h = omega (arith, add_doubled-lt c.pc (get_branch_offset c))

branched-IsCpu :
    (flags : ℕ → ℕ) (test : ℕ → Bool)
    → ((p : ℕ) → p < 2 ^ 16 → flags p < 2 ^ 16)
    → (c : Cpu) → IsCpu c
    → IsCpu (branched flags test c)
branched-IsCpu flags test lt c h = go (test (flags c.psw))
  where
    moved : IsCpu (record c { alu = flags c.psw })
    moved = omega (arith, lt c.psw h.psw)

    go :
        (b : Bool)
        → IsCpu
            (if b then jump (record c { alu = flags c.psw }) else record c { alu = flags c.psw })
    go true = jump-IsCpu _ moved
    go false = moved

-- The bounds of the flag expressions.
mask-lt : (m p : ℕ) → p < 2 ^ 16 → bit_and p m < 2 ^ 16
mask-lt m p h = omega (arith, bit_and-le p m)

sign-lt :
    (p : ℕ)
    → p < 2 ^ 16
    → bit_xor (bit_and p negative_flag >>> 3) (bit_and p overflow_flag >>> 1) < 2 ^ 16
sign-lt p h =
    bit_xor-lt 16 _ _ (omega (arith, bit_and-le p negative_flag))
      (omega (arith, bit_and-le p overflow_flag))

sign_or_zero-lt :
    (p : ℕ)
    → p < 2 ^ 16
    → bit_or
        (bit_and p zero_flag >>> 2)
        (bit_xor (bit_and p negative_flag >>> 3) (bit_and p overflow_flag >>> 1))
      < 2 ^ 16
sign_or_zero-lt p h = bit_or-lt 16 _ _ (omega (arith, bit_and-le p zero_flag)) (sign-lt p h)

carry_or_zero-lt :
    (p : ℕ) → p < 2 ^ 16 → bit_or (bit_and p carry_flag) (bit_and p zero_flag >>> 2) < 2 ^ 16
carry_or_zero-lt p h =
    bit_or-lt 16 _ _ (mask-lt carry_flag p h) (omega (arith, bit_and-le p zero_flag))

module _ {S : Type 0} ⦃bus : Bus S⦄ (laws : BusLaws S) where
  branch-Keeps :
      (flags : ℕ → ℕ) (test : ℕ → Bool)
      → ((p : ℕ) → p < 2 ^ 16 → flags p < 2 ^ 16)
      → Keeps laws (branch_on flags test)
  unfolding branch_on
  branch-Keeps flags test lt = Keeps-assign laws _ (branched-IsCpu flags test lt)

  pub br-Keeps : Keeps laws br
  unfolding br
  br-Keeps = Keeps-assign laws _ jump-IsCpu

  pub bcc-Keeps : Keeps laws bcc
  unfolding bcc
  bcc-Keeps = branch-Keeps _ _ (mask-lt carry_flag)

  pub bcs-Keeps : Keeps laws bcs
  unfolding bcs
  bcs-Keeps = branch-Keeps _ _ (mask-lt carry_flag)

  pub beq-Keeps : Keeps laws beq
  unfolding beq
  beq-Keeps = branch-Keeps _ _ (mask-lt zero_flag)

  pub bge-Keeps : Keeps laws bge
  unfolding bge
  bge-Keeps = branch-Keeps _ _ sign-lt

  pub bgt-Keeps : Keeps laws bgt
  unfolding bgt
  bgt-Keeps = branch-Keeps _ _ sign_or_zero-lt

  pub bhi-Keeps : Keeps laws bhi
  unfolding bhi
  bhi-Keeps = branch-Keeps _ _ carry_or_zero-lt

  pub ble-Keeps : Keeps laws ble
  unfolding ble
  ble-Keeps = branch-Keeps _ _ sign_or_zero-lt

  pub blos-Keeps : Keeps laws blos
  unfolding blos
  blos-Keeps = branch-Keeps _ _ carry_or_zero-lt

  pub blt-Keeps : Keeps laws blt
  unfolding blt
  blt-Keeps = branch-Keeps _ _ sign-lt

  pub bmi-Keeps : Keeps laws bmi
  unfolding bmi
  bmi-Keeps = branch-Keeps _ _ (mask-lt negative_flag)

  pub bne-Keeps : Keeps laws bne
  unfolding bne
  bne-Keeps = branch-Keeps _ _ (mask-lt zero_flag)

  pub bpl-Keeps : Keeps laws bpl
  unfolding bpl
  bpl-Keeps = branch-Keeps _ _ (mask-lt negative_flag)

  pub bvc-Keeps : Keeps laws bvc
  unfolding bvc
  bvc-Keeps = branch-Keeps _ _ (mask-lt overflow_flag)

  pub bvs-Keeps : Keeps laws bvs
  unfolding bvs
  bvs-Keeps = branch-Keeps _ _ (mask-lt overflow_flag)

-- ===== src/Cpu/Ops/Branch.antt =====
-- The branches: `alu` is a combination of the flags, and a test of it moves `pc`.
use xmachine.Base.{
  ℕ, ℤ, bit_and, bit_or, bit_xor, ◌>>>◌, int8, add_doubled, ◌==◌, if◌then◌else◌, Bool, not,
}
use xmachine.Cpu.State.{Cpu, M, assign}
use xmachine.Cpu.Flags.{carry_flag, overflow_flag, zero_flag, negative_flag}

unfoldable pub get_branch_offset : Cpu → ℤ
get_branch_offset c = int8 (bit_and c.ir 0o377)

-- `CPU_STATE->pc = CPU_STATE->pc + (2 * offset)`
abbrev pub jump : Cpu → Cpu
jump c = record c { pc = add_doubled c.pc (get_branch_offset c) }

-- `alu` from the status word, and the branch if `test` holds of it.
abbrev pub branched : (ℕ → ℕ) → (ℕ → Bool) → Cpu → Cpu
branched flags test c =
    let alu = flags c.psw in let c' = record c { alu = alu } in if test alu then jump c' else c'

module _ {S : Type 0} where
  unfoldable pub branch_on : (ℕ → ℕ) → (ℕ → Bool) → M S (Unit {0})
  unfolding get_branch_offset
  branch_on flags test = assign (branched flags test)

  unfoldable pub br : M S (Unit {0})
  unfolding get_branch_offset
  br = assign jump

  unfoldable pub bcc : M S (Unit {0})
  bcc = branch_on (λ p. bit_and p carry_flag) (λ alu. alu == 0)

  unfoldable pub bcs : M S (Unit {0})
  bcs = branch_on (λ p. bit_and p carry_flag) (λ alu. not (alu == 0))

  unfoldable pub beq : M S (Unit {0})
  beq = branch_on (λ p. bit_and p zero_flag) (λ alu. alu == zero_flag)

  unfoldable pub bge : M S (Unit {0})
  bge =
      branch_on (λ p. bit_xor (bit_and p negative_flag >>> 3) (bit_and p overflow_flag >>> 1))
        (λ alu. alu == 0)

  unfoldable pub bgt : M S (Unit {0})
  bgt =
      branch_on
        (λ p.
          bit_or (bit_and p zero_flag >>> 2)
            (bit_xor (bit_and p negative_flag >>> 3) (bit_and p overflow_flag >>> 1)))
        (λ alu. alu == 0)

  unfoldable pub bhi : M S (Unit {0})
  bhi = branch_on (λ p. bit_or (bit_and p carry_flag) (bit_and p zero_flag >>> 2)) (λ alu. alu == 0)

  unfoldable pub ble : M S (Unit {0})
  ble =
      branch_on
        (λ p.
          bit_or (bit_and p zero_flag >>> 2)
            (bit_xor (bit_and p negative_flag >>> 3) (bit_and p overflow_flag >>> 1)))
        (λ alu. not (alu == 0))

  unfoldable pub blos : M S (Unit {0})
  blos =
      branch_on (λ p. bit_or (bit_and p carry_flag) (bit_and p zero_flag >>> 2))
        (λ alu. not (alu == 0))

  unfoldable pub blt : M S (Unit {0})
  blt =
      branch_on (λ p. bit_xor (bit_and p negative_flag >>> 3) (bit_and p overflow_flag >>> 1))
        (λ alu. not (alu == 0))

  unfoldable pub bmi : M S (Unit {0})
  bmi = branch_on (λ p. bit_and p negative_flag) (λ alu. not (alu == 0))

  unfoldable pub bne : M S (Unit {0})
  bne = branch_on (λ p. bit_and p zero_flag) (λ alu. alu == 0)

  unfoldable pub bpl : M S (Unit {0})
  bpl = branch_on (λ p. bit_and p negative_flag) (λ alu. alu == 0)

  unfoldable pub bvc : M S (Unit {0})
  bvc = branch_on (λ p. bit_and p overflow_flag) (λ alu. alu == 0)

  unfoldable pub bvs : M S (Unit {0})
  bvs = branch_on (λ p. bit_and p overflow_flag) (λ alu. not (alu == 0))

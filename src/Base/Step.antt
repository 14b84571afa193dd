-- ===== src/Base/Step.antt =====
-- The native bit operations, one binary digit at a time.
use Prim.Native.Nat.{ℕ, zero, suc, ◌+◌, ◌-◌, ◌*◌, ◌/◌, ◌%◌, ◌≤◌, ◌<◌, min, max}
use Prim.Native.Nat.{bit_and, bit_or, bit_xor, digits, bitwise, differ}
use Prim.Native.Nat.{bit_and-bitwise, bit_or-bitwise, bit_xor-bitwise}
use mathlib.Core.Path.{◌≡◌, refl, ◌∙◌}
use native.Mathlib.Omega.{arith}

-- Induction on a number by its half.
by_halves_below :
    (P : ℕ → Type 0) → P 0 → ((a : ℕ) → P (suc a / 2) → P (suc a)) → (bound a : ℕ) → a < bound → P a
by_halves_below P base step zero a lt = absurd (omega arith)
by_halves_below P base step (suc bound) zero lt = base
by_halves_below P base step (suc bound) (suc a) lt =
    step a (by_halves_below P base step bound (suc a / 2) (omega arith))

pub by_halves : (P : ℕ → Type 0) → P 0 → ((a : ℕ) → P (suc a / 2) → P (suc a)) → (a : ℕ) → P a
by_halves P base step a = by_halves_below P base step (suc a) a (omega arith)

-- An operation that is `bitwise`, at `last` once its first operand is 0 and at `f` on each digit.
module _ (last : ℕ → ℕ) (f : ℕ → ℕ → ℕ) where
  spare_digit :
      (bound a b : ℕ) → a ≤ bound → digits last f (suc bound) a b ≡ digits last f bound a b
  spare_digit zero zero b le = refl
  spare_digit (suc bound) zero b le = refl
  spare_digit zero (suc a) b le = absurd (omega arith)
  spare_digit (suc bound) (suc a) b le =
      rw (spare_digit bound (suc a / 2) (b / 2) (omega arith)) refl

  spare_digits : (more a b : ℕ) → digits last f (more + a) a b ≡ bitwise last f a b
  spare_digits zero a b = let same : 0 + a ≡ a = omega arith in rw same refl
  spare_digits (suc more) a b =
      let next : suc more + a ≡ suc (more + a) = omega arith in
      rw next (spare_digit (more + a) a b (omega arith) ∙ spare_digits more a b)

  lowest_digit :
      (op : ℕ → ℕ → ℕ)
      → ((a b : ℕ) → op a b ≡ bitwise last f a b)
      → ((b : ℕ) → last b ≡ last (b / 2) * 2 + f 0 (b % 2))
      → (a b : ℕ) → op a b ≡ op (a / 2) (b / 2) * 2 + f (a % 2) (b % 2)
  lowest_digit op law end zero b = rw (law 0 b, law 0 (b / 2)) (end b)
  lowest_digit op law end (suc a) b =
      let spare : a - suc a / 2 + suc a / 2 ≡ a = omega arith in
      omega (
        arith,
        law (suc a) b,
        law (suc a / 2) (b / 2),
        rw spare at (spare_digits (a - suc a / 2) (suc a / 2) (b / 2)),
      )

pub bit_and_step : (a b : ℕ) → bit_and a b ≡ bit_and (a / 2) (b / 2) * 2 + min (a % 2) (b % 2)
bit_and_step = lowest_digit (λ _. 0) min bit_and bit_and-bitwise (λ b. omega arith)

pub bit_or_step : (a b : ℕ) → bit_or a b ≡ bit_or (a / 2) (b / 2) * 2 + max (a % 2) (b % 2)
bit_or_step = lowest_digit (λ b. b) max bit_or bit_or-bitwise (λ b. omega arith)

differ-sum : (x y : ℕ) → x < 2 → y < 2 → differ x y ≡ (x + y) % 2
differ-sum zero y p q = omega arith
differ-sum (suc zero) zero p q = refl
differ-sum (suc zero) (suc zero) p q = refl
differ-sum (suc zero) (suc (suc y)) p q = absurd (omega arith)
differ-sum (suc (suc x)) y p q = absurd (omega arith)

pub bit_xor_step : (a b : ℕ) → bit_xor a b ≡ bit_xor (a / 2) (b / 2) * 2 + (a % 2 + b % 2) % 2
bit_xor_step a b = omega (
  arith,
  lowest_digit (λ b. b) differ bit_xor bit_xor-bitwise (λ b. ground arith) a b,
  differ-sum (a % 2) (b % 2) (omega arith) (omega arith),
)

-- ===== src/Base/Bits.antt =====
-- Masks, single bits and bounds of `&`, `|` and `^`, as arithmetic.
use Prim.Native.Nat.{bit_and-bitwise, bit_or-bitwise}
use native.Mathlib.Decide.{dec_lt}
use native.Mathlib.Nat.{pow-suc, one-le-pow, div-div-eq-div-mul, mul_comm}
use xmachine.Base.{ℕ, zero, suc, ◌+◌, ◌-◌, ◌*◌, ◌/◌, ◌%◌, ◌^◌, ◌≤◌, ◌<◌, bit_and, bit_or, bit_xor}
use xmachine.Base.{◌≡◌, refl, ap, arith}
use xmachine.Base.Step.{by_halves, bit_and_step, bit_or_step, bit_xor_step}

pub bit_and-zero : (a : ℕ) → bit_and a 0 ≡ 0
bit_and-zero = by_halves _ refl (λ a half. omega (arith, bit_and_step (suc a) 0, half))

pub bit_or-zero : (a : ℕ) → bit_or a 0 ≡ a
bit_or-zero = by_halves _ refl (λ a half. omega (arith, bit_or_step (suc a) 0, half))

zero-bit_or : (b : ℕ) → bit_or 0 b ≡ b
zero-bit_or b = bit_or-bitwise 0 b

pub bit_xor-zero : (a : ℕ) → bit_xor a 0 ≡ a
bit_xor-zero = by_halves _ refl (λ a half. ground (arith, bit_xor_step (suc a) 0, half))

double : (q k : ℕ) → q * 2 ^ suc k ≡ 2 * (q * 2 ^ k)
double q k = omega (arith, ap (λ (t : ℕ). q * t) (pow-suc 2 k))

-- A mask whose low `k` bits are off drops them.
bit_and_split :
    (k q r m : ℕ) → r < 2 ^ k → bit_and (q * 2 ^ k + r) (m * 2 ^ k) ≡ bit_and q m * 2 ^ k
bit_and_split zero q r m h = ground arith
bit_and_split (suc k) q r m h = ground (
  arith,
  bit_and_step (q * 2 ^ suc k + r) (m * 2 ^ suc k),
  double q k,
  double m k,
  double (bit_and q m) k,
  bit_and_split k q (r / 2) m (omega (arith, pow-suc 2 k)),
)

-- A mask of low bits is a remainder.
low_split : (k q r : ℕ) → r < 2 ^ k → bit_and (q * 2 ^ k + r) (2 ^ k - 1) ≡ r
low_split zero q r h = rw bit_and-zero (omega arith)
low_split (suc k) q r h = ground (
  arith,
  bit_and_step (q * 2 ^ suc k + r) (2 ^ suc k - 1),
  double q k,
  pow-suc 2 k,
  low_split k q (r / 2) (omega (arith, pow-suc 2 k)),
)

pub bit_and_low : (k a : ℕ) → bit_and a (2 ^ k - 1) ≡ a % 2 ^ k
bit_and_low k a = ground (arith, one-le-pow k 2, low_split k (a / 2 ^ k) (a % 2 ^ k))

-- A mask of `j` bits above the low `k` bits.
pub bit_and_field : (j k a : ℕ) → bit_and a ((2 ^ j - 1) * 2 ^ k) ≡ a / 2 ^ k % 2 ^ j * 2 ^ k
bit_and_field j k a = ground (
  arith,
  one-le-pow k 2,
  bit_and_low j (a / 2 ^ k),
  bit_and_split k (a / 2 ^ k) (a % 2 ^ k) (2 ^ j - 1),
)

-- Disjoint fields add up, in either order.
pub bit_or_high : (k q r : ℕ) → r < 2 ^ k → bit_or (q * 2 ^ k) r ≡ q * 2 ^ k + r
bit_or_high zero q r h = ground (arith, bit_or-zero q)
bit_or_high (suc k) q r h = ground (
  arith,
  bit_or_step (q * 2 ^ suc k) r,
  double q k,
  pow-suc 2 k,
  bit_or_high k q (r / 2) (omega (arith, pow-suc 2 k)),
)

pub bit_or_above : (k q r : ℕ) → r < 2 ^ k → bit_or r (q * 2 ^ k) ≡ q * 2 ^ k + r
bit_or_above zero q r h = ground (arith, bit_or_step 0 q, bit_or_high 0 q 0, zero-bit_or q)
bit_or_above (suc k) q r h = ground (
  arith,
  bit_or_step r (q * 2 ^ suc k),
  double q k,
  pow-suc 2 k,
  bit_or_above k q (r / 2) (omega (arith, pow-suc 2 k)),
)

-- Setting one bit.
bit_or_split :
    (k q r : ℕ) → r < 2 ^ k → bit_or (q * 2 ^ k + r) (2 ^ k) ≡ (q + 1 - q % 2) * 2 ^ k + r
bit_or_split zero q r h = ground (arith, bit_or_step (q * 1 + r) 1, bit_or-zero ((q * 1 + r) / 2))
bit_or_split (suc k) q r h = ground (
  arith,
  bit_or_step (q * 2 ^ suc k + r) (2 ^ suc k),
  double q k,
  double (q + 1 - q % 2) k,
  pow-suc 2 k,
  bit_or_split k q (r / 2) (omega (arith, pow-suc 2 k)),
)

set_bit : (t q : ℕ) → (q + 1 - q % 2) * t ≡ q * t + (1 - q % 2) * t
set_bit t q = elim (dec_lt (q % 2) 1) [
  | yes even ↦
      let e : q + 1 - q % 2 ≡ q + 1 = omega arith in
      let e' : 1 - q % 2 ≡ 1 = omega arith in rw (e, e') (omega arith)
  | no odd ↦
      let e : q + 1 - q % 2 ≡ q = omega arith in
      let e' : 1 - q % 2 ≡ 0 = omega arith in rw (e, e') (omega arith)
]

clear_bit : (t q : ℕ) → q % 2 ≡ 1 → (q + 1 - 2 * (q % 2)) * t + t ≡ q * t
clear_bit t q h =
    let e : q + 1 - 2 * (q % 2) + 1 ≡ q = omega arith in omega (arith, ap (λ (n : ℕ). n * t) e)

pub bit_or_bit : (k a : ℕ) → bit_or a (2 ^ k) ≡ a + (1 - a / 2 ^ k % 2) * 2 ^ k
bit_or_bit k a =
    ground
      (arith, one-le-pow k 2, bit_or_split k (a / 2 ^ k) (a % 2 ^ k), set_bit (2 ^ k) (a / 2 ^ k))

-- Flipping one bit.
bit_xor_split :
    (k q r : ℕ) → r < 2 ^ k → bit_xor (q * 2 ^ k + r) (2 ^ k) ≡ (q + 1 - 2 * (q % 2)) * 2 ^ k + r
bit_xor_split zero q r h =
    ground (arith, bit_xor_step (q * 1 + r) 1, bit_xor-zero ((q * 1 + r) / 2))
bit_xor_split (suc k) q r h = ground (
  arith,
  bit_xor_step (q * 2 ^ suc k + r) (2 ^ suc k),
  double q k,
  double (q + 1 - 2 * (q % 2)) k,
  pow-suc 2 k,
  bit_xor_split k q (r / 2) (omega (arith, pow-suc 2 k)),
)

pub bit_xor_bit : (k a : ℕ) → a / 2 ^ k % 2 ≡ 1 → bit_xor a (2 ^ k) ≡ a - 2 ^ k
bit_xor_bit k a h = ground (
  arith,
  one-le-pow k 2,
  bit_xor_split k (a / 2 ^ k) (a % 2 ^ k),
  clear_bit (2 ^ k) (a / 2 ^ k) h,
)

-- Results stay within the width of the operands.
pub bit_or-lt : (k a b : ℕ) → a < 2 ^ k → b < 2 ^ k → bit_or a b < 2 ^ k
bit_or-lt zero a b p q = ground (arith, bit_or-zero a)
bit_or-lt (suc k) a b p q =
    ground (arith, bit_or_step a b, pow-suc 2 k, bit_or-lt k (a / 2) (b / 2))

pub bit_xor-lt : (k a b : ℕ) → a < 2 ^ k → b < 2 ^ k → bit_xor a b < 2 ^ k
bit_xor-lt zero a b p q = ground (arith, bit_xor-zero a)
bit_xor-lt (suc k) a b p q =
    ground (arith, bit_xor_step a b, pow-suc 2 k, bit_xor-lt k (a / 2) (b / 2))

pub bit_and-le : (a b : ℕ) → bit_and a b ≤ a
bit_and-le =
    by_halves _ (λ b. omega (arith, bit_and-bitwise 0 b))
      (λ a half b. omega (arith, bit_and_step (suc a) b, half (b / 2)))

pub le-bit_or : (a b : ℕ) → b ≤ bit_or a b
le-bit_or =
    by_halves _ (λ b. omega (arith, zero-bit_or b))
      (λ a half b. omega (arith, bit_or_step (suc a) b, half (b / 2)))

-- A shift of both operands, and a bit that stays set.
bit_or_shift : (k a b : ℕ) → bit_or a b / 2 ^ k ≡ bit_or (a / 2 ^ k) (b / 2 ^ k)
bit_or_shift zero a b = ground arith
bit_or_shift (suc k) a b =
    let halves : (n : ℕ) → n / 2 ^ suc k ≡ n / 2 / 2 ^ k = λ n. omega (
      arith,
      div-div-eq-div-mul n 2 (2 ^ k),
      ap (λ (d : ℕ). n / d) (pow-suc 2 k),
      ap (λ (d : ℕ). n / d) (mul_comm 2 (2 ^ k)),
    ) in
    let half : bit_or a b / 2 ≡ bit_or (a / 2) (b / 2) = omega (arith, bit_or_step a b) in
    rw (halves (bit_or a b), halves a, halves b, half) (bit_or_shift k (a / 2) (b / 2))

pub bit_or_keeps : (k a b : ℕ) → a / 2 ^ k % 2 ≡ 1 → bit_or a b / 2 ^ k % 2 ≡ 1
bit_or_keeps k a b h = rw (bit_or_shift k a b) (omega (arith, bit_or_step (a / 2 ^ k) (b / 2 ^ k)))

pub bit_or_comm : (a b : ℕ) → bit_or a b ≡ bit_or b a
bit_or_comm =
    by_halves (λ a. (b : ℕ) → bit_or a b ≡ bit_or b a)
      (λ b. ground (arith, zero-bit_or b, bit_or-zero b))
      (λ a half b. ground (arith, bit_or_step (suc a) b, bit_or_step b (suc a), half (b / 2)))

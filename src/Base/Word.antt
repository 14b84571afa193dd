-- ===== src/Base/Word.antt =====
-- Casts to the fixed widths of C, shifts, complements and signed bytes.
use Prim.Native.Nat.{ℕ, ◌+◌, ◌-◌, ◌*◌, ◌/◌, ◌%◌, ◌^◌}
use xmachine.Base.Tests.{ltb, if◌then◌else◌}

abbrev pub u8 : ℕ → ℕ
u8 n = n % 2 ^ 8

abbrev pub u16 : ℕ → ℕ
u16 n = n % 2 ^ 16

abbrev pub u32 : ℕ → ℕ
u32 n = n % 2 ^ 32

-- Shifts of a value that the wider type holds: a cast that cuts bits off is written out.
infixl 75 ◌<<<◌ ◌>>>◌
abbrev pub ◌<<<◌ : ℕ → ℕ → ℕ
x <<< k = x * 2 ^ k

abbrev pub ◌>>>◌ : ℕ → ℕ → ℕ
x >>> k = x / 2 ^ k

-- `~x` on an `int`: the 32-bit pattern. Every use casts it to a narrower type.
abbrev pub bit_not : ℕ → ℕ
bit_not x = 2 ^ 32 - 1 - x

-- Subtraction in 16 bits, `(uint16_t)(x - y)`, of 16-bit operands.
abbrev pub sub16 : ℕ → ℕ → ℕ
sub16 x y = u16 (x + 2 ^ 16 - y)

-- `negsuc n` is -(n + 1).
pub data ℤ : Type 0 where
  pos : ℕ → ℤ
  negsuc : ℕ → ℤ

-- `(int8_t) b` of a byte.
abbrev pub int8 : ℕ → ℤ
int8 b = if ltb b 128 then ℤ.pos b else ℤ.negsuc (255 - b)

-- `(uint16_t)(x + 2 * k)` of a 16-bit `x` and a signed byte `k`.
abbrev pub add_doubled : ℕ → ℤ → ℕ
add_doubled x (ℤ.pos n) = u16 (x + 2 * n)
add_doubled x (ℤ.negsuc n) = u16 (x + 2 ^ 16 - 2 * (n + 1))

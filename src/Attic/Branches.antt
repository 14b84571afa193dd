-- ===== src/Attic/Branches.antt =====
-- attic/src/handlers.c: the condition codes, and the branches.
use xmachine.Base.{
  ℕ, ℤ, ◌+◌, ◌-◌, ◌*◌, ◌^◌, bit_and, bit_or, bit_xor, u8, u16, ◌>>>◌, int8, add_doubled, ◌==◌,
  if◌then◌else◌, Bool, not,
}
use xmachine.Attic.State.{Emulator, Command, ◌>>=◌, ◌>>◌, skip, reads, assign, on_memory}
use xmachine.Attic.Memory.{r_pc, r_ps, get_r, set_r}

abbrev pub carry_flag : ℕ
carry_flag = 0o1

abbrev pub overflow_flag : ℕ
overflow_flag = 0o2

abbrev pub zero_flag : ℕ
zero_flag = 0o4

abbrev pub negative_flag : ℕ
negative_flag = 0o10

-- `PS` with a flag raised or lowered.
abbrev pub with_flag : ℕ → Bool → ℕ → ℕ
with_flag flag raised ps =
    if raised then bit_or ps flag else (if bit_and ps flag == 0 then ps else bit_xor ps flag)

abbrev pub put_flag : ℕ → Bool → Command Emulator (Unit {0})
put_flag flag raised = do
  ps ← on_memory (get_r r_ps)
  on_memory (set_r r_ps (with_flag flag raised ps))

unfoldable pub set_zero_flag : ℕ → Command Emulator (Unit {0})
unfolding ◌>>=◌
set_zero_flag value = put_flag zero_flag (value == 0)

-- `value` is a `uint8_t`.
unfoldable pub set_negative_flag_b : ℕ → Command Emulator (Unit {0})
unfolding ◌>>=◌
set_negative_flag_b value = put_flag negative_flag (not (bit_and (u8 value) 0o200 == 0))

unfoldable pub set_negative_flag_w : ℕ → Command Emulator (Unit {0})
unfolding ◌>>=◌
set_negative_flag_w value = put_flag negative_flag (not (bit_and value 0o100000 == 0))

unfoldable pub get_branch_offset : ℕ → ℤ
get_branch_offset ir = int8 (bit_and ir 0o377)

-- `pc + (2 * OFFSET)`
abbrev pub target : ℕ → ℕ → ℕ
target pc ir = add_doubled pc (get_branch_offset ir)

-- `pc + (int8_t) (2 * OFFSET)`, of BNE alone.
abbrev pub add_signed : ℕ → ℤ → ℕ
add_signed x (ℤ.pos n) = u16 (x + n)
add_signed x (ℤ.negsuc n) = u16 (x + 2 ^ 16 - (n + 1))

abbrev pub narrow_target : ℕ → ℕ → ℕ
narrow_target pc ir = add_signed pc (int8 (u8 (2 * bit_and ir 0o377)))

-- The status word goes through `flags` into `ALU`, and a test of it moves `pc`.
abbrev pub branch_with : (ℕ → ℕ → ℕ) → (ℕ → ℕ) → (ℕ → Bool) → Command Emulator (Unit {0})
branch_with new_pc flags test = do
  pc ← on_memory (get_r r_pc)
  ps ← on_memory (get_r r_ps)
  ir ← reads (λ s. s.ir)
  assign (λ s. record s { alu = flags ps })
  if test (flags ps) then on_memory (set_r r_pc (new_pc pc ir)) else skip

abbrev branch_on : (ℕ → ℕ) → (ℕ → Bool) → Command Emulator (Unit {0})
branch_on = branch_with target

-- BPL and BMI leave `ALU`.
abbrev pub branch_if : (ℕ → Bool) → Command Emulator (Unit {0})
branch_if test = do
  pc ← on_memory (get_r r_pc)
  ps ← on_memory (get_r r_ps)
  ir ← reads (λ s. s.ir)
  if test ps then on_memory (set_r r_pc (target pc ir)) else skip

abbrev signed_less : ℕ → ℕ
signed_less ps = bit_xor (bit_and ps negative_flag >>> 3) (bit_and ps overflow_flag >>> 1)

unfoldable pub nop : Command Emulator (Unit {0})
nop = skip

unfoldable pub br : Command Emulator (Unit {0})
unfolding ◌>>=◌ get_branch_offset
br = do pc ← on_memory (get_r r_pc); ir ← reads (λ s. s.ir); on_memory (set_r r_pc (target pc ir))

unfoldable pub bne : Command Emulator (Unit {0})
unfolding ◌>>=◌ ◌>>◌ get_branch_offset
bne = branch_with narrow_target (λ ps. bit_and ps zero_flag) (λ alu. alu == 0)

unfoldable pub beq : Command Emulator (Unit {0})
unfolding ◌>>=◌ ◌>>◌ get_branch_offset
beq = branch_on (λ ps. bit_and ps zero_flag) (λ alu. alu == zero_flag)

unfoldable pub bge : Command Emulator (Unit {0})
unfolding ◌>>=◌ ◌>>◌ get_branch_offset
bge = branch_on signed_less (λ alu. alu == 0)

unfoldable pub blt : Command Emulator (Unit {0})
unfolding ◌>>=◌ ◌>>◌ get_branch_offset
blt = branch_on signed_less (λ alu. not (alu == 0))

unfoldable pub bgt : Command Emulator (Unit {0})
unfolding ◌>>=◌ ◌>>◌ get_branch_offset
bgt = branch_on (λ ps. bit_or (bit_and ps zero_flag >>> 2) (signed_less ps)) (λ alu. alu == 0)

unfoldable pub ble : Command Emulator (Unit {0})
unfolding ◌>>=◌ ◌>>◌ get_branch_offset
ble = branch_on (λ ps. bit_or (bit_and ps zero_flag >>> 2) (signed_less ps)) (λ alu. not (alu == 0))

unfoldable pub bpl : Command Emulator (Unit {0})
unfolding ◌>>=◌ get_branch_offset
bpl = branch_if (λ ps. bit_and ps negative_flag == 0)

unfoldable pub bmi : Command Emulator (Unit {0})
unfolding ◌>>=◌ get_branch_offset
bmi = branch_if (λ ps. not (bit_and ps negative_flag == 0))

unfoldable pub bhi : Command Emulator (Unit {0})
unfolding ◌>>=◌ ◌>>◌ get_branch_offset
bhi =
    branch_on (λ ps. bit_or (bit_and ps carry_flag) (bit_and ps zero_flag >>> 2)) (λ alu. alu == 0)

unfoldable pub blos : Command Emulator (Unit {0})
unfolding ◌>>=◌ ◌>>◌ get_branch_offset
blos =
    branch_on (λ ps. bit_or (bit_and ps carry_flag) (bit_and ps zero_flag >>> 2))
      (λ alu. not (alu == 0))

unfoldable pub bvc : Command Emulator (Unit {0})
unfolding ◌>>=◌ ◌>>◌ get_branch_offset
bvc = branch_on (λ ps. bit_and ps overflow_flag) (λ alu. alu == 0)

unfoldable pub bvs : Command Emulator (Unit {0})
unfolding ◌>>=◌ ◌>>◌ get_branch_offset
bvs = branch_on (λ ps. bit_and ps overflow_flag) (λ alu. not (alu == 0))

unfoldable pub bcc : Command Emulator (Unit {0})
unfolding ◌>>=◌ ◌>>◌ get_branch_offset
bcc = branch_on (λ ps. bit_and ps carry_flag) (λ alu. alu == 0)

unfoldable pub bcs : Command Emulator (Unit {0})
unfolding ◌>>=◌ ◌>>◌ get_branch_offset
bcs = branch_on (λ ps. bit_and ps carry_flag) (λ alu. not (alu == 0))

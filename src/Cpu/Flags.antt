-- ===== src/Cpu/Flags.antt =====
-- The condition codes in the processor status word.
use xmachine.Base.{ℕ, bit_and, bit_or, bit_xor, u8, ◌==◌, if◌then◌else◌}
use xmachine.Cpu.State.{Cpu, M, assign}

abbrev pub carry_flag : ℕ
carry_flag = 0o1

abbrev pub overflow_flag : ℕ
overflow_flag = 0o2

abbrev pub zero_flag : ℕ
zero_flag = 0o4

abbrev pub negative_flag : ℕ
negative_flag = 0o10

abbrev raise : ℕ → Cpu → Cpu
raise flag c = record c { psw = bit_or c.psw flag }

abbrev lower : ℕ → Cpu → Cpu
lower flag c = record c { psw = if bit_and c.psw flag == 0 then c.psw else bit_xor c.psw flag }

unfoldable pub set_zero_flag : ℕ → Cpu → Cpu
set_zero_flag value c = if value == 0 then raise zero_flag c else lower zero_flag c

-- `value` is a `uint8_t`.
unfoldable pub set_negative_flag_b : ℕ → Cpu → Cpu
set_negative_flag_b value c =
    if bit_and (u8 value) 0o200 == 0 then lower negative_flag c else raise negative_flag c

unfoldable pub set_negative_flag_w : ℕ → Cpu → Cpu
set_negative_flag_w value c =
    if bit_and value 0o100000 == 0 then lower negative_flag c else raise negative_flag c

-- The calls that every instruction makes, on `CPU_STATE->alu`.
module _ {S : Type 0} where
  unfoldable pub zero_of_alu : M S (Unit {0})
  zero_of_alu = assign (λ c. set_zero_flag c.alu c)

  unfoldable pub negative_of_alu_b : M S (Unit {0})
  negative_of_alu_b = assign (λ c. set_negative_flag_b c.alu c)

  unfoldable pub negative_of_alu_w : M S (Unit {0})
  negative_of_alu_w = assign (λ c. set_negative_flag_w c.alu c)

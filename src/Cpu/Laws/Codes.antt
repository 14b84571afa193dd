-- ===== src/Cpu/Laws/Codes.antt =====
-- The condition codes N and Z after an instruction.
use xmachine.Base.{
  ℕ, ◌+◌, ◌-◌, ◌*◌, ◌/◌, ◌%◌, ◌^◌, ◌<◌, ◌≡◌, ap, ◌∙◌, arith, leb, ◌==◌, if◌then◌else◌, Bool,
}
use xmachine.Base.Bits.{bit_and_field, bit_or_bit, bit_xor_bit}
use xmachine.Cpu.State.{Cpu}
use xmachine.Cpu.Flags.{set_zero_flag, set_negative_flag_b, set_negative_flag_w}

-- The status word with N and Z as given, and every other bit as in `p`.
abbrev pub with_codes : Bool → Bool → ℕ → ℕ
with_codes n z p = p - p / 4 % 4 * 4 + (if z then 4 else 0) + (if n then 8 else 0)

abbrev with_zero : Bool → ℕ → ℕ
with_zero z p = p - p / 4 % 2 * 4 + (if z then 4 else 0)

abbrev with_negative : Bool → ℕ → ℕ
with_negative n p = p - p / 8 % 2 * 8 + (if n then 8 else 0)

set_zero_flag_lem :
    (v : ℕ) (c : Cpu) → set_zero_flag v c ≡ record c { psw = with_zero (v == 0) c.psw }
unfolding set_zero_flag
set_zero_flag_lem v c =
    ground (arith, bit_and_field 1 2 c.psw, bit_or_bit 2 c.psw, bit_xor_bit 2 c.psw)

set_negative_flag_w_lem :
    (v : ℕ) (c : Cpu)
    → v < 2 ^ 16
    → set_negative_flag_w v c ≡ record c { psw = with_negative (leb 0x8000 v) c.psw }
unfolding set_negative_flag_w
set_negative_flag_w_lem v c word =
    ground (
      arith,
      bit_and_field 1 15 v,
      bit_and_field 1 3 c.psw,
      bit_or_bit 3 c.psw,
      bit_xor_bit 3 c.psw,
    )

set_negative_flag_b_lem :
    (v : ℕ) (c : Cpu)
    → set_negative_flag_b v c ≡ record c { psw = with_negative (leb 0x80 (v % 256)) c.psw }
unfolding set_negative_flag_b
set_negative_flag_b_lem v c = ground (
  arith,
  bit_and_field 1 7 (v % 2 ^ 8),
  bit_and_field 1 3 c.psw,
  bit_or_bit 3 c.psw,
  bit_xor_bit 3 c.psw,
)

zero_then_negative : (n z : Bool) (p : ℕ) → with_negative n (with_zero z p) ≡ with_codes n z p
zero_then_negative n z p = ground arith

negative_then_zero : (n z : Bool) (p : ℕ) → with_zero z (with_negative n p) ≡ with_codes n z p
negative_then_zero n z p = ground arith

-- At a 16-bit value, in either order, `set_zero_flag` and `set_negative_flag_w` set N to the
-- sign bit of the value and Z to whether it is zero; they change no other bit of the status
-- word, and no other part of the processor.
word_codes :
    (v : ℕ) (c : Cpu)
    → v < 2 ^ 16
    → (set_negative_flag_w v (set_zero_flag v c)
        ≡ record c { psw = with_codes (leb 0x8000 v) (v == 0) c.psw })
      × (set_zero_flag v (set_negative_flag_w v c)
          ≡ record c { psw = with_codes (leb 0x8000 v) (v == 0) c.psw })
word_codes v c word = (
  rw (set_zero_flag_lem, set_negative_flag_w_lem v _ word)
      (ap (λ p. record c { psw = p }) (zero_then_negative _ _ c.psw)),
  rw (set_negative_flag_w_lem v c word, set_zero_flag_lem)
      (ap (λ p. record c { psw = p }) (negative_then_zero _ _ c.psw)),
)

-- The two calls as they stand at the end of an instruction, on `alu`.
pub word_codes_of_alu :
    (c : Cpu)
    → c.alu < 2 ^ 16
    → (let zeroed = set_zero_flag c.alu c in
        set_negative_flag_w zeroed.alu zeroed
        ≡ record c { psw = with_codes (leb 0x8000 c.alu) (c.alu == 0) c.psw })
      × (let signed = set_negative_flag_w c.alu c in
          set_zero_flag signed.alu signed
          ≡ record c { psw = with_codes (leb 0x8000 c.alu) (c.alu == 0) c.psw })
word_codes_of_alu c word =
    let zeroed : (set_zero_flag c.alu c).alu ≡ c.alu =
      ap (λ c'. c'.alu) (set_zero_flag_lem c.alu c) in
    let signed : (set_negative_flag_w c.alu c).alu ≡ c.alu =
      ap (λ c'. c'.alu) (set_negative_flag_w_lem c.alu c word) in
    (
      ap (λ a. set_negative_flag_w a (set_zero_flag c.alu c)) zeroed ∙ (word_codes c.alu c word).0,
      ap (λ a. set_zero_flag a (set_negative_flag_w c.alu c)) signed ∙ (word_codes c.alu c word).1,
    )

-- At any value, in either order, `set_zero_flag` and `set_negative_flag_b` set N to bit 7 of
-- the value and Z to whether all of it is zero, not its low byte alone; they change no other
-- bit of the status word, and no other part of the processor.
byte_codes :
    (v : ℕ) (c : Cpu)
    → (set_negative_flag_b v (set_zero_flag v c)
        ≡ record c { psw = with_codes (leb 0x80 (v % 256)) (v == 0) c.psw })
      × (set_zero_flag v (set_negative_flag_b v c)
          ≡ record c { psw = with_codes (leb 0x80 (v % 256)) (v == 0) c.psw })
byte_codes v c = (
  rw (set_zero_flag_lem, set_negative_flag_b_lem)
      (ap (λ p. record c { psw = p }) (zero_then_negative _ _ c.psw)),
  rw (set_negative_flag_b_lem, set_zero_flag_lem)
      (ap (λ p. record c { psw = p }) (negative_then_zero _ _ c.psw)),
)

pub byte_codes_of_alu :
    (c : Cpu)
    → (let zeroed = set_zero_flag c.alu c in
        set_negative_flag_b zeroed.alu zeroed
        ≡ record c { psw = with_codes (leb 0x80 (c.alu % 256)) (c.alu == 0) c.psw })
      × (let signed = set_negative_flag_b c.alu c in
          set_zero_flag signed.alu signed
          ≡ record c { psw = with_codes (leb 0x80 (c.alu % 256)) (c.alu == 0) c.psw })
byte_codes_of_alu c =
    let zeroed : (set_zero_flag c.alu c).alu ≡ c.alu =
      ap (λ c'. c'.alu) (set_zero_flag_lem c.alu c) in
    let signed : (set_negative_flag_b c.alu c).alu ≡ c.alu =
      ap (λ c'. c'.alu) (set_negative_flag_b_lem c.alu c) in
    (
      ap (λ a. set_negative_flag_b a (set_zero_flag c.alu c)) zeroed ∙ (byte_codes c.alu c).0,
      ap (λ a. set_zero_flag a (set_negative_flag_b c.alu c)) signed ∙ (byte_codes c.alu c).1,
    )

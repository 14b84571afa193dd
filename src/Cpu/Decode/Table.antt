-- ===== src/Cpu/Decode/Table.antt =====
-- The nested switches of `exec_instruction` against the ranges of the operation codes.
use xmachine.Base.{
  ℕ, ◌+◌, ◌-◌, ◌*◌, ◌/◌, ◌%◌, ◌^◌, ◌≤◌, ◌<◌, ◌≡◌, ◌↔◌, ◌∙◌, refl, sym, ap, arith, bit_and, leb,
  ◌==◌, Bool, true, false, ◌&&◌, Option, none, some, all_below, all_below_sound,
}
use xmachine.Base.Bits.{bit_and_field}
use xmachine.Cpu.Decode.{
  OpCode, code, decode, br_op, bne_op, beq_op, bge_op, blt_op, bgt_op, ble_op, bpl_op, bmi_op,
  bhi_op, blos_op, bvc_op, bvs_op, bcc_op, bcs_op, mul_op, div_op, ash_op, ashc_op, xor_op, jsr_op,
  mov_op, movb_op, cmp_op, cmpb_op, bit_op, bitb_op, bic_op, bicb_op, bis_op, bisb_op, add_op,
  sub_op,
}

-- How many words share an operation: those that differ in their operand fields only.
abbrev pub size : OpCode → ℕ
size br_op = 256
size bne_op = 256
size beq_op = 256
size bge_op = 256
size blt_op = 256
size bgt_op = 256
size ble_op = 256
size bpl_op = 256
size bmi_op = 256
size bhi_op = 256
size blos_op = 256
size bvc_op = 256
size bvs_op = 256
size bcc_op = 256
size bcs_op = 256
size mul_op = 512
size div_op = 512
size ash_op = 512
size ashc_op = 512
size xor_op = 512
size jsr_op = 512
size mov_op = 4096
size movb_op = 4096
size cmp_op = 4096
size cmpb_op = 4096
size bit_op = 4096
size bitb_op = 4096
size bic_op = 4096
size bicb_op = 4096
size bis_op = 4096
size bisb_op = 4096
size add_op = 4096
size sub_op = 4096
size _ = 64

same_block : (ir : ℕ) → decode ir ≡ decode (ir / 64 * 64)
unfolding decode
same_block ir =
    let q : ℕ = ir / 64 * 64 in
    let branch : bit_and ir 0o177400 ≡ bit_and q 0o177400 =
      omega (arith, bit_and_field 8 8 ir, bit_and_field 8 8 q) in
    let source : bit_and ir 0o177000 ≡ bit_and q 0o177000 =
      omega (arith, bit_and_field 7 9 ir, bit_and_field 7 9 q) in
    let double : bit_and ir 0o170000 ≡ bit_and q 0o170000 =
      omega (arith, bit_and_field 4 12 ir, bit_and_field 4 12 q) in
    let single : bit_and ir 0o177700 ≡ bit_and q 0o177700 =
      omega (arith, bit_and_field 10 6 ir, bit_and_field 10 6 q) in
    rw (branch, source, double, single)

decode-code : (op : OpCode) → decode (code op) ≡ some op
unfolding decode
decode-code br_op = refl
decode-code _ = refl

abbrev op_of : OpCode → Option OpCode → OpCode
op_of other none = other
op_of other (some op) = op

code_injective : (a b : OpCode) → code a ≡ code b → a ≡ b
code_injective a b e = ap (op_of a) (sym (decode-code a) ∙ ap decode e ∙ decode-code b)

-- Every block of 64 words: what it decodes to covers it.
abbrev covers : Option OpCode → ℕ → Bool
covers none q = true
covers (some op) q = leb (code op) (q * 64) && leb (q * 64 + 64) (code op + size op)

covers_table : all_below 1024 (λ q. covers (decode (q * 64)) q) ≡ true
unfolding decode all_below
covers_table = refl

-- Every operation: the blocks in its range decode to it.
abbrev is_op : OpCode → Option OpCode → Bool
is_op op none = false
is_op op (some other) = code op == code other

range_table :
    (op : OpCode) → all_below (size op / 64) (λ k. is_op op (decode (code op + k * 64))) ≡ true
unfolding decode all_below
range_table br_op = refl
range_table _ = refl

whole_blocks : (op : OpCode) → (code op % 64 ≡ 0) × (size op % 64 ≡ 0)
whole_blocks br_op = (refl, refl)
whole_blocks _ = (refl, refl)

is_op_sound : (op : OpCode) (o : Option OpCode) → is_op op o ≡ true → o ≡ some op
is_op_sound op none h = absurd (cc)
is_op_sound op (some other) h = ap some (code_injective other op (ground arith))

covers_sound :
    (op : OpCode) (q : ℕ)
    → covers (some op) q ≡ true
    → (code op ≤ q * 64) × (q * 64 + 64 ≤ code op + size op)
covers_sound op q h = ground arith

-- `decode` gives the operation `op` for a 16-bit word exactly if the word lies in the range
-- that begins at `op`'s value and has the size of its operand fields: no case of the nested
-- switches hides another.
pub decode_lem :
    (ir : ℕ) (op : OpCode)
    → ir < 2 ^ 16
    → (decode ir ≡ some op) ↔ ((code op ≤ ir) × (ir < code op + size op))
decode_lem ir op word = (
  (λ e.
      let found : decode (ir / 64 * 64) ≡ some op = sym (same_block ir) ∙ e in
      let (lo, hi) =
        covers_sound op (ir / 64)
          (rw found at (all_below_sound 1024 _ (ir / 64) covers_table (omega arith))) in
      (omega arith, omega arith)),
  (λ (lo, hi).
      let block : ir / 64 * 64 ≡ code op + (ir - code op) / 64 * 64 =
        omega (arith, whole_blocks op) in
      same_block ir
      ∙ ap decode block
      ∙ is_op_sound op _ (
          all_below_sound (size op / 64) (λ k. is_op op (decode (code op + k * 64)))
            ((ir - code op) / 64) (range_table op) (omega (arith, whole_blocks op)))),
)

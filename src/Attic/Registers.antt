-- ===== src/Attic/Registers.antt =====
-- Words of the memory, and the registers in it.
use xmachine.Base.{
  ℕ, ◌+◌, ◌*◌, ◌/◌, ◌%◌, ◌^◌, ◌≤◌, ◌<◌, ◌≡◌, ◌⊎◌, refl, ap, ◌∙◌, arith, bit_and, ◌>>>◌, ltb, ◌==◌,
  if◌then◌else◌, true,
}
use xmachine.Base.Bits.{bit_and_low, bit_and_field, bit_or_above}
use xmachine.Outcome.{done}
use xmachine.Attic.State.{Memory, ◌>>=◌, ◌>>◌}
use xmachine.Attic.Memory.{
  mem_bytes, translate_register, get_byte, set_byte, direct_read_word_n, direct_write_word_n, get_r,
  set_r,
}
use xmachine.Cpu.Registers.{switch}

-- Every cell is a byte.
abbrev pub AreBytes : Memory → Type 0
AreBytes m = (j : ℕ) → m.cells j < 256

abbrev pub word_at : ℕ → Memory → ℕ
word_at loc m = m.cells (loc + 1) * 256 + m.cells loc

abbrev pub with_word : ℕ → ℕ → Memory → Memory
with_word loc v m = record m {
  cells = λ j. if j == loc + 1 then v / 256 else if j == loc then v % 256 else m.cells j;
}

pub with_word-AreBytes :
    (loc v : ℕ) (m : Memory) → v < 2 ^ 16 → AreBytes m → AreBytes (with_word loc v m)
with_word-AreBytes loc v m lt h j = ground (arith, h j)

pub word_at-lt : (loc : ℕ) (m : Memory) → AreBytes m → word_at loc m < 2 ^ 16
word_at-lt loc m h = omega (arith, h loc, h (loc + 1))

-- A word is read where it was written, and elsewhere if the two do not overlap.
pub word_at-with_word : (loc v : ℕ) (m : Memory) → v < 2 ^ 16 → word_at loc (with_word loc v m) ≡ v
word_at-with_word loc v m lt = ground arith

pub word_at-other :
    (other loc v : ℕ) (m : Memory)
    → (other + 1 < loc) ⊎ (loc + 1 < other)
    → word_at other (with_word loc v m) ≡ word_at other m
word_at-other other loc v m apart = ground arith

pub get_byte_lem : (loc : ℕ) (m : Memory) → loc < mem_bytes → get_byte loc m ≡ done (m.cells loc, m)
unfolding get_byte
get_byte_lem loc m lt = ground arith

set_byte_lem :
    (loc b : ℕ) (m : Memory)
    → loc < mem_bytes
    → set_byte loc b m ≡ done (tt, record m { cells = λ j. if j == loc then b else m.cells j })
unfolding set_byte
set_byte_lem loc b m lt = let here : ltb loc mem_bytes ≡ true = ground arith in rw here refl

pub direct_read_word_n_lem :
    (loc : ℕ) (m : Memory)
    → loc + 1 < mem_bytes
    → AreBytes m
    → direct_read_word_n loc m ≡ done (word_at loc m, m)
unfolding direct_read_word_n ◌>>=◌
direct_read_word_n_lem loc m fits h =
    rw
      (
        get_byte_lem loc m (omega arith),
        get_byte_lem (loc + 1) m fits,
        bit_or_above 8 (m.cells (loc + 1)) (m.cells loc) (h loc),
      )
      refl

pub direct_write_word_n_lem :
    (loc v : ℕ) (m : Memory)
    → loc + 1 < mem_bytes
    → v < 2 ^ 16
    → direct_write_word_n loc v m ≡ done (tt, with_word loc v m)
unfolding direct_write_word_n ◌>>=◌ ◌>>◌
direct_write_word_n_lem loc v m fits lt =
    let high : bit_and v 0o177400 >>> 8 ≡ v / 256 = omega (arith, bit_and_field 8 8 v) in
    rw
      (
        set_byte_lem loc (bit_and v 0o377) m (omega arith),
        set_byte_lem (loc + 1) (bit_and v 0o177400 >>> 8) _ fits,
        high,
        bit_and_low 8 v,
      )
      refl

-- Where a register lies.
abbrev pub reg_loc : ℕ → ℕ
reg_loc r = 0o17400 + 2 * r

pub translate_register_lem : (r : ℕ) → r ≤ 8 → translate_register r ≡ reg_loc r
unfolding translate_register switch
translate_register_lem r h = ground arith

pub get_r_lem :
    (r : ℕ) (m : Memory) → r ≤ 8 → AreBytes m → get_r r m ≡ done (word_at (reg_loc r) m, m)
unfolding get_r
get_r_lem r m h bytes =
    rw (translate_register_lem r h) (direct_read_word_n_lem (reg_loc r) m (omega arith) bytes)

pub set_r_lem :
    (r v : ℕ) (m : Memory) → r ≤ 8 → v < 2 ^ 16 → set_r r v m ≡ done (tt, with_word (reg_loc r) v m)
unfolding set_r
set_r_lem r v m h lt =
    rw (translate_register_lem r h) (direct_write_word_n_lem (reg_loc r) v m (omega arith) lt)

-- A register that is set to a 16-bit word has it, every other register keeps its word, and so does
-- every byte outside the eighteen of the registers; `get_r` and `set_r` stay in the array.
pub get_r-set_r :
    (r q v j : ℕ) (m : Memory)
    → r ≤ 8
    → q ≤ 8
    → v < 2 ^ 16
    → (j < 0o17400) ⊎ (0o17421 < j)
    → AreBytes m
    → (m' : Memory) × (set_r r v m ≡ done (tt, m'))
      × (get_r q m ≡ done (word_at (reg_loc q) m, m))
      × (get_r q m' ≡ done (if q == r then v else word_at (reg_loc q) m, m'))
      × (m'.cells j ≡ m.cells j)
get_r-set_r r q v j m h h' lt far bytes =
    let m' : Memory = with_word (reg_loc r) v m in
    (
      m',
      set_r_lem r v m h lt,
      get_r_lem q m h' bytes,
      get_r_lem q m' h' (with_word-AreBytes (reg_loc r) v m lt bytes)
          ∙ ap (λ w. done (w, m')) (ground arith),
      ground arith,
    )

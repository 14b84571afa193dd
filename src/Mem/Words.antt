-- ===== src/Mem/Words.antt =====
-- Word and byte accesses of the memory device.
use xmachine.Base.{
  ℕ, ◌+◌, ◌*◌, ◌/◌, ◌%◌, ◌^◌, ◌<◌, bit_and, bit_or, ◌≡◌, arith, ◌<<<◌, ◌>>>◌, true, ltb, ◌==◌,
  if◌then◌else◌,
}
use xmachine.Base.Bits.{bit_and_low, bit_and_field, bit_or_above}
use xmachine.Outcome.{done}
use xmachine.Mem.{mem_bytes, MemDev, write_word, write_byte, read_word}

-- `& 0377`, and `& 0177400` shifted down, of a 16-bit word.
pub low_byte : (w : ℕ) → bit_and w 0o377 ≡ w % 256
low_byte w = bit_and_low 8 w

pub high_byte : (w : ℕ) → w < 2 ^ 16 → bit_and w 0o177400 >>> 8 ≡ w / 256
high_byte w h = omega (arith, bit_and_field 8 8 w)

pub join_bytes : (lo hi : ℕ) → lo < 256 → bit_or lo (hi <<< 8) ≡ hi * 256 + lo
join_bytes lo hi h = bit_or_above 8 hi lo h

-- The device after a write of both bytes, and of one.
abbrev pub with_word : ℕ → ℕ → MemDev → MemDev
with_word addr w d = record {
  mar = addr;
  mbr = w;
  store = λ j. if j == addr + 1 then w / 256 else if j == addr then w % 256 else d.store j;
}

abbrev pub with_byte : ℕ → ℕ → MemDev → MemDev
with_byte addr w d = record {
  mar = addr;
  mbr = w;
  store = λ j. if j == addr then w % 256 else d.store j;
}

in_16_bits : (addr : ℕ) → addr < mem_bytes → addr % 2 ^ 16 ≡ addr
in_16_bits addr h = omega arith

pub write_word_lem :
    (d : MemDev) (addr w : ℕ)
    → addr + 1 < mem_bytes
    → w < 2 ^ 16
    → write_word addr w d ≡ done (with_word addr w d)
unfolding write_word
write_word_lem d addr w fits word =
    let here : ltb addr mem_bytes ≡ true = ground arith in
    let next : ltb (addr + 1) mem_bytes ≡ true = ground arith in
    rw (in_16_bits addr (omega arith), here) (rw (next, low_byte w) (rw (high_byte w word)))

pub write_byte_lem :
    (d : MemDev) (addr w : ℕ) → addr < mem_bytes → write_byte addr w d ≡ done (with_byte addr w d)
unfolding write_byte
write_byte_lem d addr w fits =
    let here : ltb addr mem_bytes ≡ true = ground arith in
    rw (in_16_bits addr fits, here) (rw (low_byte w))

pub read_word_lem :
    (d : MemDev) (addr : ℕ)
    → addr + 1 < mem_bytes
    → d.store addr < 256
    → read_word addr d ≡ done (d.store (addr + 1) * 256 + d.store addr)
unfolding read_word
read_word_lem d addr fits byte = ground (arith, join_bytes (d.store addr) (d.store (addr + 1)) byte)

-- A 16-bit word that is written with both its bytes inside the store is read back from its
-- address, and the store then holds its low byte there, its high byte one further on, and at
-- any other index what it held.
pub read_word-write_word :
    (d : MemDev) (addr w j : ℕ)
    → addr + 1 < mem_bytes
    → w < 2 ^ 16
    → (d' : MemDev) × (write_word addr w d ≡ done d')
      × (read_word addr d' ≡ done w)
      × (d'.store j ≡ (if j == addr then w % 256 else if j == addr + 1 then w / 256 else d.store j))
read_word-write_word d addr w j fits word = (
  with_word addr w d,
  write_word_lem d addr w fits word,
  ground (arith, read_word_lem (with_word addr w d) addr fits (ground arith)),
  ground arith,
)

-- Of a 16-bit word read with both its bytes inside the store, whose low byte is one, a byte
-- write at the word's address replaces the low byte, and one at the next address the high byte;
-- the other byte of the word stays.
pub read_word-write_byte :
    (d : MemDev) (addr w b : ℕ)
    → addr + 1 < mem_bytes
    → w < 2 ^ 16
    → b < 256
    → read_word addr d ≡ done w
    → d.store addr < 256
    → (low high : MemDev) × (write_byte addr b d ≡ done low)
      × (write_byte (addr + 1) b d ≡ done high)
      × (read_word addr low ≡ done (w / 256 * 256 + b))
      × (read_word addr high ≡ done (b * 256 + w % 256))
read_word-write_byte d addr w b fits word byte held small = (
  with_byte addr b d,
  with_byte (addr + 1) b d,
  write_byte_lem d addr b (omega arith),
  write_byte_lem d (addr + 1) b fits,
  ground (
    arith,
    read_word_lem d addr fits small,
    read_word_lem (with_byte addr b d) addr fits (ground arith),
  ),
  ground (
    arith,
    read_word_lem d addr fits small,
    read_word_lem (with_byte (addr + 1) b d) addr fits (ground arith),
  ),
)

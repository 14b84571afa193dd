-- ===== src/Mem.antt =====
-- src/mem/mem.c: the memory device, its word and byte accesses, and the program loader.
pub mod Words
pub mod Loading
pub mod Service
use xmachine.Base.{
  ℕ, zero, suc, ◌+◌, bit_and, bit_or, u16, ◌<<<◌, ◌>>>◌, ltb, leb, ◌==◌, if◌then◌else◌,
}
use xmachine.Base.{Bool, ◌&&◌, List, [], ◌∷◌}
use xmachine.Outcome.{Outcome, done, out_of_bounds, ◌>>=◌}

abbrev pub mem_bytes : ℕ
mem_bytes = 65535

abbrev pub mem_low : ℕ
mem_low = 0

abbrev pub mem_high : ℕ
mem_high = mem_bytes

-- `mem_dev`. `store` is the array; an index from `mem_bytes` on lies outside it.
pub record MemDev : Type 0 where
  pub mar : ℕ
  pub mbr : ℕ
  pub store : ℕ → ℕ

unfoldable pub is_local_addr : ℕ → Bool
is_local_addr addr = leb mem_low addr && leb addr mem_high

-- `store[i]`, read and assigned.
unfoldable pub peek : MemDev → ℕ → Outcome ℕ
peek d i = if ltb i mem_bytes then done (d.store i) else out_of_bounds

unfoldable pub poke : ℕ → ℕ → MemDev → Outcome MemDev
poke i byte d =
    if ltb i mem_bytes
    then done (record d { store = λ j. if j == i then byte else d.store j })
    else out_of_bounds

unfoldable pub write_word : ℕ → ℕ → MemDev → Outcome MemDev
unfolding poke
write_word addr word d = do
  let latched = record d { mar = u16 addr; mbr = word }
  low ← poke latched.mar (bit_and latched.mbr 0o377) latched
  poke (low.mar + 1) (bit_and low.mbr 0o177400 >>> 8) low

unfoldable pub write_byte : ℕ → ℕ → MemDev → Outcome MemDev
unfolding poke
write_byte addr word d =
    let latched = record d { mar = u16 addr; mbr = word } in
    poke latched.mar (bit_and latched.mbr 0o377) latched

unfoldable pub read_word : ℕ → MemDev → Outcome ℕ
unfolding peek
read_word addr d = do word ← peek d addr; high ← peek d (addr + 1); done (bit_or word (high <<< 8))

-- The loop of `load_aout`: `left` rounds to go, the rest of the text, and the index `m`.
unfoldable pub load_words : ℕ → List ℕ → ℕ → MemDev → Outcome MemDev
unfolding poke
load_words zero text m d = done d
load_words (suc left) [] m d = out_of_bounds
load_words (suc left) (word ∷ text) m d = do
  low ← poke m (bit_and word 0o377) d
  both ← poke (m + 1) (bit_and word 0o177400 >>> 8) low
  load_words left text (m + 2) both

-- `a_text` counts the bytes of the text.
unfoldable pub load_aout : ℕ → List ℕ → ℕ → MemDev → Outcome MemDev
unfolding load_words
load_aout a_text text offset d = load_words (a_text >>> 1) text offset d

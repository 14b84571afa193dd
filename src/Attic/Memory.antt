-- ===== src/Attic/Memory.antt =====
-- attic/src/memory.c: bytes and words, the registers that lie in memory, and side effects. `call` runs
-- the handler of a side effect.
use xmachine.Base.{
  ℕ, ◌+◌, bit_and, bit_or, u16, sub16, ◌<<<◌, ◌>>>◌, ltb, ◌==◌, if◌then◌else◌, Bool, true, false,
  Option, none, some, List, [], ◌∷◌,
}
use xmachine.Outcome.{done, null_pointer, out_of_bounds}
use xmachine.Attic.State.{Effect, SideEffect, Memory, Command, ◌>>=◌, ◌>>◌, reads}
use xmachine.Cpu.Registers.{switch}

abbrev pub mem_bytes : ℕ
mem_bytes = 65535

abbrev pub max_handlers : ℕ
max_handlers = 20

abbrev pub inactive_handler_loc : ℕ
inactive_handler_loc = 0xffff

abbrev pub r_sp : ℕ
r_sp = 6

abbrev pub r_pc : ℕ
r_pc = 7

abbrev pub r_ps : ℕ
r_ps = 8

unfoldable pub translate_register : ℕ → ℕ
unfolding switch
translate_register reg =
    switch reg
      ((0, 0o17400)
        ∷ (1, 0o17402)
        ∷ (2, 0o17404)
        ∷ (3, 0o17406)
        ∷ (4, 0o17410)
        ∷ (5, 0o17412)
        ∷ (6, 0o17414)
        ∷ (7, 0o17416)
        ∷ [])
      0o17420

-- `_memory[loc]`, and an assignment to it.
unfoldable pub get_byte : ℕ → Command Memory ℕ
get_byte loc m = if ltb loc mem_bytes then done (m.cells loc, m) else out_of_bounds

unfoldable pub set_byte : ℕ → ℕ → Command Memory (Unit {0})
set_byte loc byte m =
    if ltb loc mem_bytes
    then done (tt, record m { cells = λ j. if j == loc then byte else m.cells j })
    else out_of_bounds

-- The two bytes of a word, which most functions access without side effects. `loc + 1` is an `int`.
unfoldable pub direct_read_word_n : ℕ → Command Memory ℕ
unfolding ◌>>=◌
direct_read_word_n loc = do
  low ← get_byte loc
  high ← get_byte (loc + 1)
  reads (λ _. bit_or low (high <<< 8))

unfoldable pub direct_read_byte_n : ℕ → Command Memory ℕ
direct_read_byte_n = get_byte

unfoldable pub direct_write_word_n : ℕ → ℕ → Command Memory (Unit {0})
unfolding ◌>>◌
direct_write_word_n loc v = do
  set_byte loc (bit_and v 0o377)
  set_byte (loc + 1) (bit_and v 0o177400 >>> 8)

unfoldable pub direct_write_byte_n : ℕ → ℕ → Command Memory (Unit {0})
direct_write_byte_n = set_byte

unfoldable pub direct_write_word_or : ℕ → ℕ → Command Memory (Unit {0})
unfolding ◌>>=◌ ◌>>◌
direct_write_word_or loc v = do
  low ← get_byte loc
  set_byte loc (bit_or low (bit_and v 0o377))
  high ← get_byte (loc + 1)
  set_byte (loc + 1) (bit_or high (bit_and v 0o177400 >>> 8))

-- The eight functions that move a word by one or two.
abbrev move_by : (ℕ → ℕ) → ℕ → Command Memory (Unit {0})
move_by f loc = do val ← direct_read_word_n loc; direct_write_word_n loc (f val)

unfoldable pub word_advance : ℕ → Command Memory (Unit {0})
unfolding ◌>>=◌
word_advance = move_by (λ val. u16 (val + 2))

unfoldable pub byte_advance : ℕ → Command Memory (Unit {0})
unfolding ◌>>=◌
byte_advance = move_by (λ val. u16 (val + 1))

unfoldable pub word_decrease : ℕ → Command Memory (Unit {0})
unfolding ◌>>=◌
word_decrease = move_by (λ val. sub16 val 2)

unfoldable pub byte_decrease : ℕ → Command Memory (Unit {0})
unfolding ◌>>=◌
byte_decrease = move_by (λ val. sub16 val 1)

unfoldable pub word_advance_r : ℕ → Command Memory (Unit {0})
unfolding ◌>>=◌
word_advance_r r = move_by (λ val. u16 (val + 2)) (translate_register r)

unfoldable pub byte_advance_r : ℕ → Command Memory (Unit {0})
unfolding ◌>>=◌
byte_advance_r r = move_by (λ val. u16 (val + 1)) (translate_register r)

unfoldable pub word_decrease_r : ℕ → Command Memory (Unit {0})
unfolding ◌>>=◌
word_decrease_r r = move_by (λ val. sub16 val 2) (translate_register r)

unfoldable pub byte_decrease_r : ℕ → Command Memory (Unit {0})
unfolding ◌>>=◌
byte_decrease_r r = move_by (λ val. sub16 val 1) (translate_register r)

unfoldable pub set_r : ℕ → ℕ → Command Memory (Unit {0})
set_r r val = direct_write_word_n (translate_register r) val

unfoldable pub get_r : ℕ → Command Memory ℕ
get_r r = direct_read_word_n (translate_register r)

-- The first inactive entry is set; `false` where there is none.
unfoldable pub enter : ℕ → Effect → List SideEffect → Bool × List SideEffect
enter loc handler [] = (false, [])
enter loc handler ((l, h) ∷ table) =
    let (found, rest) = enter loc handler table in
    if l == inactive_handler_loc
    then (true, (loc, some handler) ∷ table)
    else (found, (l, h) ∷ rest)

unfoldable pub register_read_side_effect : ℕ → Effect → Command Memory Bool
unfolding enter
register_read_side_effect loc handler m =
    let (found, table) = enter loc handler m.read_side_effects in
    done (found, record m { read_side_effects = table })

unfoldable pub register_write_side_effect : ℕ → Effect → Command Memory Bool
unfolding enter
register_write_side_effect loc handler m =
    let (found, table) = enter loc handler m.write_side_effects in
    done (found, record m { write_side_effects = table })

-- The handler of the first entry for a location.
unfoldable pub find_effect : ℕ → List SideEffect → Option (Option Effect)
find_effect loc [] = none
find_effect loc ((l, handler) ∷ table) =
    let rest = find_effect loc table in if l == loc then some handler else rest

module _ (call : Effect → Command Memory (Unit {0})) where
  abbrev pub called : Option (Option Effect) → Command Memory (Unit {0})
  called none m = done (tt, m)
  called (some none) m = null_pointer
  called (some (some handler)) m = call handler m

  unfoldable pub process_read_side_effects : ℕ → Command Memory (Unit {0})
  unfolding find_effect
  process_read_side_effects loc m = called (find_effect loc m.read_side_effects) m

  unfoldable pub process_write_side_effects : ℕ → Command Memory (Unit {0})
  unfolding find_effect
  process_write_side_effects loc m = called (find_effect loc m.write_side_effects) m

  unfoldable pub direct_read_word : ℕ → Command Memory ℕ
  unfolding ◌>>=◌ ◌>>◌
  direct_read_word loc = do
    word ← direct_read_word_n loc
    process_read_side_effects loc
    reads (λ _. word)

  unfoldable pub direct_read_byte : ℕ → Command Memory ℕ
  unfolding ◌>>=◌ ◌>>◌
  direct_read_byte loc = do byte ← get_byte loc; process_read_side_effects loc; reads (λ _. byte)

  unfoldable pub direct_write_word : ℕ → ℕ → Command Memory (Unit {0})
  unfolding ◌>>◌
  direct_write_word loc v = do direct_write_word_n loc v; process_write_side_effects loc

  unfoldable pub direct_write_byte : ℕ → ℕ → Command Memory (Unit {0})
  unfolding ◌>>◌
  direct_write_byte loc v = do set_byte loc v; process_write_side_effects loc

  unfoldable pub read_word : Command Memory ℕ
  unfolding ◌>>=◌
  read_word = do loc ← reads (λ m. m.src); direct_read_word loc

  unfoldable pub read_byte : Command Memory ℕ
  unfolding ◌>>=◌
  read_byte = do loc ← reads (λ m. m.src); direct_read_byte loc

  -- The effect is that of `m->dest` after the write, which is the same.
  unfoldable pub write_word : ℕ → Command Memory (Unit {0})
  unfolding ◌>>=◌
  write_word word = do loc ← reads (λ m. m.dest); direct_write_word loc word

  unfoldable pub write_byte : ℕ → Command Memory (Unit {0})
  unfolding ◌>>=◌
  write_byte byte = do loc ← reads (λ m. m.dest); direct_write_byte loc byte

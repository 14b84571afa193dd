-- ===== src/Attic/Objects.antt =====
-- attic/src/objreader.c and load_program_from_mcode of attic/src/machine.c: the readers of program
-- files. The calls on an open file are an interface.
pub mod Words
pub mod Blocks
pub mod Texts
pub mod Loading
use xmachine.Base.{
  ℕ, zero, suc, ◌+◌, ◌-◌, ◌*◌, ◌/◌, ◌%◌, bit_or, u16, sub16, ◌<<<◌, ◌==◌, if◌then◌else◌, Bool, true,
  false, Option, none, some,
}
use xmachine.Outcome.{null_pointer}
use xmachine.Attic.State.{Effect, Memory, Command, ◌>>=◌, ◌>>◌, pure}
use xmachine.Attic.Memory.{r_pc, set_r, direct_write_word, direct_write_byte}

-- `fread` of one byte, `none` at the end of the file; `feof`; and `fseek` back from where it is.
pub record Stream (F : Type 0) : Type 0 where
  pub get : F → Option ℕ × F
  pub at_end : F → Bool
  pub back : ℕ → F → F

module _ {F : Type 0} (stream : Stream F) where
  -- `fread` into a variable that holds a byte, or a word, low byte first.
  abbrev kept : ℕ → Option ℕ → ℕ
  kept old none = old
  kept old (some b) = b

  unfoldable pub get_into : ℕ → F → ℕ × F
  get_into old f = (kept old (stream.get f).0, (stream.get f).1)

  unfoldable pub get_word : ℕ → F → ℕ × F
  get_word old f =
      let (low, f') = get_into (old % 256) f in
      let (high, f'') = get_into (old / 256) f' in (high * 256 + low, f'')

  unfoldable pub skip_bytes : ℕ → F → F
  skip_bytes zero f = f
  skip_bytes (suc n) f = skip_bytes n (stream.get f).1

  -- What the variables hold before they are read is arbitrary, `junk`.
  unfoldable pub is_text_block : ℕ → F → Bool × F
  is_text_block junk f =
      let (first, f1) = get_into junk f in
      let (second, f2) = get_into junk f1 in
      let (len, f3) = get_word junk f2 in
      let (tag, f4) = get_into first f3 in
      if tag == 3 then (true, stream.back 5 f4) else (false, skip_bytes (len - 5 + 1) f4)

  -- The `while` loop, for a number of blocks.
  unfoldable pub find_block : ℕ → ℕ → F → Option F
  find_block zero junk f = none
  find_block (suc n) junk f =
      let (found, f') = is_text_block junk f in
      let rest = find_block n junk f' in
      if found then some f' else if stream.at_end f' then some f' else rest

  module _ (call : Effect → Command Memory (Unit {0})) where
    -- The loop of load_text_block.
    unfoldable pub load_pairs : ℕ → ℕ → ℕ → ℕ → F → Command Memory F
    unfolding ◌>>◌
    load_pairs zero loc byte01 byte02 f = pure f
    load_pairs (suc n) loc byte01 byte02 f =
        let (low, f') = get_into byte01 f in
        let (high, f'') = get_into byte02 f' in
        direct_write_word call loc (bit_or (high <<< 8) low)
        >> load_pairs n (u16 (loc + 2)) low high f''

    unfoldable pub load_text_block : ℕ → F → Command Memory F
    unfolding ◌>>◌
    load_text_block junk f =
        let (byte01, f1) = get_into junk f in
        let (byte02, f2) = get_into junk f1 in
        let (len, f3) = get_word junk f2 in
        let (tag, f4) = get_into junk f3 in
        let (load_offset, f5) = get_word junk f4 in
        let (pad, f6) = get_into junk f5 in
        set_r r_pc load_offset >> load_pairs ((sub16 len 8 + 1) / 2) load_offset byte01 byte02 f6

    -- What `fopen` gives is not tested. `none` is a search that has not ended.
    abbrev load_found : ℕ → Option F → Command Memory (Option F)
    load_found junk none = pure none
    load_found junk (some f) =
        if stream.at_end f then pure (some f) else (load_text_block junk f >>= λ f'. pure (some f'))

    unfoldable pub load_program_from_obj : ℕ → ℕ → Option F → Command Memory (Option F)
    unfolding ◌>>=◌
    load_program_from_obj fuel junk none m = null_pointer
    load_program_from_obj fuel junk (some f) m = load_found junk (find_block fuel junk f) m

    -- The loop of load_program_from_mcode, and the function on an open file.
    unfoldable pub load_bytes : ℕ → ℕ → ℕ → F → Command Memory F
    unfolding ◌>>◌
    load_bytes zero loc byte f = pure f
    load_bytes (suc n) loc byte f =
        let (b, f') = get_into byte f in direct_write_byte call loc b >> load_bytes n (loc + 1) b f'

    unfoldable pub load_program_from_mcode : F → Command Memory F
    unfolding ◌>>=◌ ◌>>◌
    load_program_from_mcode f =
        let (len, f1) = get_word 0 f in
        let (load_offset, f2) = get_word 0 f1 in
        load_bytes (u16 (load_offset + len * 2) - load_offset) load_offset 0 f2 >>= λ f'.
        set_r r_pc load_offset >> pure f'

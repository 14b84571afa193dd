-- ===== src/Attic/Objects/Loading.antt =====
-- What the reader of object files loads.
use xmachine.Base.{
  subst, Bool, true, false, if◌then◌else◌, inl, ◌<◌, ℕ, suc, ◌+◌, ◌*◌, ◌/◌, ◌%◌, ◌^◌, ◌≤◌, ◌≡◌,
  refl, ap, ◌∙◌, arith, bit_or, u16, sub16, some, List, [], ◌∷◌, length, get_elem?, inr,
}
use xmachine.Base.Bits.{bit_or_above, bit_or_comm}
use xmachine.Outcome.{done}
use xmachine.Attic.State.{Effect, Memory, Command, ◌>>=◌, ◌>>◌}
use xmachine.Attic.Memory.{r_pc, get_r}
use xmachine.Attic.Registers.{word_at, with_word, reg_loc, word_at-other, set_r_lem}
use xmachine.Attic.Effects.Table.{IsWired, with_word-IsWired}
use xmachine.Attic.Effects.Access.{plain_write}
use xmachine.Attic.Objects.{Stream, load_pairs, load_text_block, load_program_from_obj}
use xmachine.Mem.Loading.{AreWords}
use xmachine.Attic.Objects.Words.{with_words, with_words_apart, word_at-with_words}
use xmachine.Attic.Objects.Texts.{
  length-followed_by, followed_by-AreWords, word_bytes-followed_by, get_elem?-followed_by,
  get_elem?-behind, loaded-IsWired, pc_of,
}
use xmachine.Attic.Objects.Blocks.{
  next, text_block, followed_by, StreamLaws, Other, AreOther, object_file, word_bytes, get_into_lem,
  get_word_lem, find_block_lem,
}

-- The word that load_text_block makes of its two bytes.
pair_lem : (w : ℕ) → bit_or (w / 256 * 2 ^ 8) (w % 256) ≡ w
pair_lem w =
    bit_or_comm (w / 256 * 2 ^ 8) (w % 256)
    ∙ bit_or_above 8 (w / 256) (w % 256) (omega arith)
    ∙ omega arith

module _ {F : Type 0} (stream : Stream F) (laws : StreamLaws stream)
    (c : Effect → Command Memory (Unit {0})) where
  abbrev Left : List ℕ → F → Type 0
  Left = laws.Left

  abbrev later : F → F
  later = next stream

  load_pairs_lem :
      (words rest : List ℕ) (loc b1 b2 : ℕ) (f : F) (m : Memory)
      → loc + 2 * length words ≤ 0o17400
      → AreWords words
      → Left (word_bytes words rest) f
      → IsWired m
      → (f' : F) × (load_pairs stream c (length words) loc b1 b2 f m
          ≡ done (f', with_words loc words m))
        × Left rest f'
  unfolding load_pairs ◌>>◌
  load_pairs_lem [] rest loc b1 b2 f m fits are h wired = (f, refl, h)
  load_pairs_lem (w ∷ words) rest loc b1 b2 f m fits are h wired =
      let (low, left) = get_into_lem stream laws b1 (w % 256) _ f h in
      let (high, left') = get_into_lem stream laws b2 (w / 256) _ (later f) left in
      let (f', loaded, left'') =
        load_pairs_lem words rest (loc + 2) (w % 256) (w / 256) (later (later f))
          (with_word loc w m) (omega arith) are.1 left' (with_word-IsWired loc w m are.0 wired) in
      let word = pair_lem w in
      let behind : u16 (loc + 2) ≡ loc + 2 = omega arith in
      (
        f',
        rw (low, high, word, plain_write c loc w m (omega arith) are.0 (ground arith) wired, behind)
            loaded,
        left'',
      )

  -- What is loaded of a text block, whose length word gives a number of words.
  load_words_lem :
      (extra junk len offset : ℕ) (blocks : List Other) (words rest : List ℕ) (f : F) (m : Memory)
      → AreOther blocks
      → AreWords words
      → (sub16 len 8 + 1) / 2 ≡ length words
      → offset + 2 * length words ≤ 0o17400
      → Left (object_file blocks (text_block len offset (word_bytes words rest))) f
      → IsWired m
      → (f' : F) × (load_program_from_obj stream c (suc (length blocks + extra)) junk (some f) m
          ≡ done (some f', with_words offset words (with_word (reg_loc r_pc) offset m)))
  unfolding load_program_from_obj load_text_block ◌>>=◌ ◌>>◌
  load_words_lem extra junk len offset blocks words rest f m are_other are pairs fits h wired =
      let (f0, found, h0) =
        find_block_lem stream laws extra junk len offset (word_bytes words rest) blocks f are_other
          h in
      let goes_on = laws.before_end _ f0 h0 in
      let (one, h1) = get_into_lem stream laws junk 1 _ f0 h0 in
      let (two, h2) = get_into_lem stream laws junk 0 _ (later f0) h1 in
      let (long, h3) = get_word_lem stream laws junk len _ (later (later f0)) h2 in
      let f3 : F = later (later (later (later f0))) in
      let (kind, h4) = get_into_lem stream laws junk 3 _ f3 h3 in
      let (at, h5) = get_word_lem stream laws junk offset _ (later f3) h4 in
      let f5 : F = later (later (later f3)) in
      let (pad, h6) = get_into_lem stream laws junk 0 (word_bytes words rest) f5 h5 in
      let started : Memory = with_word (reg_loc r_pc) offset m in
      let wired' : IsWired started =
        with_word-IsWired (reg_loc r_pc) offset m (omega arith) wired in
      let (f', loaded, left) =
        load_pairs_lem words rest offset 1 0 (later f5) started fits are h6 wired' in
      let pc_set = set_r_lem r_pc offset m (omega arith) (omega arith) in
      let counted = ap (λ n. load_pairs stream c n offset 1 0 (later f5) started) pairs ∙ loaded in
      (f', rw (found, goes_on, one, two, long, kind, at, pad, pc_set, counted) refl)

  -- A file of some blocks that are not text, whose length words leave out their checksums, and then a
  -- text block of 16-bit words at a load address `offset`, all below the registers in memory. The
  -- word `behind` the text is the block's checksum and the byte after it. The text's length word
  -- leaves out the checksum, or counts it: then it is `counted`. Over any calls on the file that give
  -- its bytes in order, load_program_from_obj returns, with fuel for more blocks than come before the
  -- text. PC is then `offset`, and each word of the text lies at `offset` plus twice its index. If the
  -- checksum is counted, `behind` is loaded after the text as one more word; if not, the word
  -- there stays. The memory still has bytes and the program's side effects, as it must have before.
  pub load_program_from_obj_lem :
      (extra junk offset behind : ℕ) (counted : Bool) (blocks : List Other) (words rest : List ℕ)
      (f : F) (m : Memory)
      → AreOther blocks
      → AreWords words
      → behind < 2 ^ 16
      → offset + 2 * length words + 2 ≤ 0o17400
      → Left
          (object_file blocks (
            text_block
              (8 + 2 * length words + (if counted then 1 else 0))
              offset
              (word_bytes words (behind % 256 ∷ behind / 256 ∷ rest))))
          f
      → IsWired m
      → (f' : F) × (m' : Memory) × (load_program_from_obj stream c
            (suc (length blocks + extra))
            junk
            (some f)
            m
          ≡ done (some f', m'))
        × (get_r r_pc m' ≡ done (offset, m'))
        × ((i w : ℕ) → get_elem? words i ≡ some w → word_at (offset + 2 * i) m' ≡ w)
        × (word_at (offset + 2 * length words) m'
            ≡ (if counted then behind else word_at (offset + 2 * length words) m))
        × IsWired m'
  load_program_from_obj_lem extra junk offset behind false blocks words rest f m are_other are b
        fits h wired =
      let len : ℕ = 8 + 2 * length words + 0 in
      let started : Memory = with_word (reg_loc r_pc) offset m in
      let (f', loaded) =
        load_words_lem extra junk len offset blocks words (behind % 256 ∷ behind / 256 ∷ rest) f m
          are_other are (omega arith) (omega arith) h wired in
      (
        f',
        with_words offset words started,
        loaded,
        pc_of offset words m (omega arith) are wired,
        λ i w e. word_at-with_words offset words started i w are e,
        with_words_apart (offset + 2 * length words) offset words started (inr (omega arith))
            ∙ word_at-other (offset + 2 * length words) (reg_loc r_pc) offset m (inl (omega arith)),
        loaded-IsWired offset words m (omega arith) are wired,
      )
  load_program_from_obj_lem extra junk offset behind true blocks words rest f m are_other are b fits
        h wired =
      let len : ℕ = 8 + 2 * length words + 1 in
      let all : List ℕ = followed_by words (behind ∷ []) in
      let started : Memory = with_word (reg_loc r_pc) offset m in
      let longer : length all ≡ length words + 1 = length-followed_by words behind in
      let are_all : AreWords all = followed_by-AreWords words behind are b in
      let h' =
        subst (λ bytes. Left (object_file blocks (text_block len offset bytes)) f)
          (word_bytes-followed_by words behind rest) h in
      let (f', loaded) =
        load_words_lem extra junk len offset blocks all rest f m are_other are_all
          (omega (arith, longer)) (omega (arith, longer)) h' wired in
      (
        f',
        with_words offset all started,
        loaded,
        pc_of offset all m (omega (arith, longer)) are_all wired,
        λ i w e.
            word_at-with_words offset all started i w are_all
              (get_elem?-followed_by words behind i w e),
        word_at-with_words offset all started (length words) behind are_all
            (get_elem?-behind words behind),
        loaded-IsWired offset all m (omega (arith, longer)) are_all wired,
      )

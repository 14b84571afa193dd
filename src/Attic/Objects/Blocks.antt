-- ===== src/Attic/Objects/Blocks.antt =====
-- The blocks of an object file, and the search for its text.
use xmachine.Base.{
  ℕ, suc, ◌+◌, ◌-◌, ◌/◌, ◌%◌, ◌≡◌, ◌≢◌, refl, ap, arith, ◌==◌, if◌then◌else◌, true, false, some,
  List, [], ◌∷◌, length,
}
use xmachine.Attic.Objects.{Stream, get_into, get_word, skip_bytes, is_text_block, find_block}

-- The file after a byte is read.
abbrev pub next : {F : Type 0} → Stream F → F → F
next stream f = (stream.get f).1

-- What the reader relies on of the calls: `Left bytes f` says that no read has met the end of `f` and
-- that `bytes` are still to be read.
pub record StreamLaws {F : Type 0} (stream : Stream F) : Type 1 where
  pub Left : List ℕ → F → Type 0
  pub get_first :
      (b : ℕ) (bytes : List ℕ) (f : F)
      → Left (b ∷ bytes) f
      → ((stream.get f).0 ≡ some b) × Left bytes (next stream f)
  pub before_end : (bytes : List ℕ) (f : F) → Left bytes f → stream.at_end f ≡ false
  pub back_five :
      (a b c d e : ℕ) (bytes : List ℕ) (f : F)
      → Left (a ∷ b ∷ c ∷ d ∷ e ∷ bytes) f
      → Left
          (a ∷ b ∷ c ∷ d ∷ e ∷ bytes)
          (stream.back 5 (next stream (next stream (next stream (next stream (next stream f))))))

abbrev pub followed_by : List ℕ → List ℕ → List ℕ
followed_by [] rest = rest
followed_by (b ∷ bytes) rest = b ∷ followed_by bytes rest

abbrev header_of : ℕ → ℕ → List ℕ → List ℕ
header_of len tag rest = 1 ∷ 0 ∷ len % 256 ∷ len / 256 ∷ tag ∷ rest

abbrev pub word_bytes : List ℕ → List ℕ → List ℕ
word_bytes [] rest = rest
word_bytes (w ∷ words) rest = w % 256 ∷ w / 256 ∷ word_bytes words rest

-- A text block with a length word, its load address, a pad byte and what follows.
abbrev pub text_block : ℕ → ℕ → List ℕ → List ℕ
text_block len offset body = header_of len 3 (offset % 256 ∷ offset / 256 ∷ 0 ∷ body)

-- A block of another kind: its tag, its data and its checksum.
abbrev pub Other : Type 0
Other = ℕ × List ℕ × ℕ

-- Blocks of other kinds, and what follows them. Their length words count all bytes of the block but
-- the checksum, as is_text_block takes them; notes/obj.md has the checksum counted as well.
abbrev pub object_file : List Other → List ℕ → List ℕ
object_file [] text = text
object_file ((tag, bytes, checksum) ∷ blocks) text =
    header_of (5 + length bytes) tag (followed_by bytes (checksum ∷ object_file blocks text))

abbrev pub AreOther : List Other → Type 0
AreOther [] = Unit
AreOther ((tag, bytes, checksum) ∷ blocks) = (tag ≢ 3) × AreOther blocks

module _ {F : Type 0} (stream : Stream F) (laws : StreamLaws stream) where
  abbrev Left : List ℕ → F → Type 0
  Left = laws.Left

  abbrev later : F → F
  later = next stream

  pub get_into_lem :
      (old b : ℕ) (bytes : List ℕ) (f : F)
      → Left (b ∷ bytes) f
      → (get_into stream old f ≡ (b, later f)) × Left bytes (later f)
  unfolding get_into
  get_into_lem old b bytes f h =
      let (given, left) = laws.get_first b bytes f h in (rw given refl, left)

  pub get_word_lem :
      (old w : ℕ) (bytes : List ℕ) (f : F)
      → Left (w % 256 ∷ w / 256 ∷ bytes) f
      → (get_word stream old f ≡ (w, later (later f))) × Left bytes (later (later f))
  unfolding get_word
  get_word_lem old w bytes f h =
      let (low, left) = get_into_lem (old % 256) (w % 256) (w / 256 ∷ bytes) f h in
      let (high, left') = get_into_lem (old / 256) (w / 256) bytes (later f) left in
      (rw (low, high) (ap (λ v. (v, later (later f))) (omega arith)), left')

  -- The data of a block and its checksum are passed over.
  skip_bytes_lem :
      (bytes rest : List ℕ) (checksum : ℕ) (f : F)
      → Left (followed_by bytes (checksum ∷ rest)) f
      → Left rest (skip_bytes stream (suc (length bytes)) f)
  unfolding skip_bytes
  skip_bytes_lem [] rest checksum f h = (laws.get_first checksum rest f h).1
  skip_bytes_lem (b ∷ bytes) rest checksum f h =
      skip_bytes_lem bytes rest checksum (later f)
        (laws.get_first b (followed_by bytes (checksum ∷ rest)) f h).1

  -- The header of a block, read by `is_text_block`.
  abbrev after_header : F → F
  after_header f = later (later (later (later (later f))))

  is_text_block_lem :
      (junk len tag : ℕ) (rest : List ℕ) (f : F)
      → Left (header_of len tag rest) f
      → (is_text_block stream junk f ≡ (
          if tag == 3
          then (true, stream.back 5 (after_header f))
          else (false, skip_bytes stream (len - 5 + 1) (after_header f))))
        × Left rest (after_header f)
  unfolding is_text_block
  is_text_block_lem junk len tag rest f h =
      let (first, left1) = get_into_lem junk 1 _ f h in
      let (second, left2) = get_into_lem junk 0 _ (later f) left1 in
      let (long, left4) = get_word_lem junk len _ (later (later f)) left2 in
      let (kind, left5) = get_into_lem 1 tag rest (later (later (later (later f)))) left4 in
      (rw (first, second, long, kind) refl, left5)

  pub find_block_lem :
      (extra junk len offset : ℕ) (body : List ℕ) (blocks : List Other) (f : F)
      → AreOther blocks
      → Left (object_file blocks (text_block len offset body)) f
      → (f' : F) × (find_block stream (suc (length blocks + extra)) junk f ≡ some f')
        × Left (text_block len offset body) f'
  unfolding find_block
  find_block_lem extra junk len offset body [] f are h =
      let (found, left) = is_text_block_lem junk len 3 _ f h in
      (stream.back 5 (after_header f), rw found refl, laws.back_five _ _ _ _ _ _ f h)
  find_block_lem extra junk len offset body ((tag, bytes, checksum) ∷ blocks) f are h =
      let (passed, left) = is_text_block_lem junk (5 + length bytes) tag _ f h in
      let other : (tag == 3) ≡ false = let not_text : tag ≢ 3 = are.0 in ground arith in
      let more : suc (length blocks) + extra ≡ suc (length blocks + extra) = omega arith in
      let size : 5 + length bytes - 5 + 1 ≡ suc (length bytes) = omega arith in
      let f' : F = skip_bytes stream (suc (length bytes)) (after_header f) in
      let left' =
        skip_bytes_lem bytes (object_file blocks (text_block len offset body)) checksum
          (after_header f) left in
      let goes_on : stream.at_end f' ≡ false = laws.before_end _ f' left' in
      let (f'', found, at_text) = find_block_lem extra junk len offset body blocks f' are.1 left' in
      (f'', rw (passed, other, size, goes_on, more) found, at_text)

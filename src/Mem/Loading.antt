-- ===== src/Mem/Loading.antt =====
-- What `load_aout` leaves in memory.
use xmachine.Base.{
  ℕ, zero, suc, ◌+◌, ◌-◌, ◌*◌, ◌/◌, ◌%◌, ◌^◌, ◌≤◌, ◌<◌, ◌≡◌, arith, ltb, ◌==◌, true, if◌then◌else◌,
  List, [], ◌∷◌, none, some, ap, fun_ext, ◌∙◌, length, get_elem?, ◌>>>◌,
}
use native.Mathlib.Decide.{dec_lt}
use xmachine.Outcome.{done, out_of_bounds, ◌>>=◌}
use xmachine.Mem.{mem_bytes, MemDev, read_word, load_words, load_aout}
use xmachine.Mem.Words.{low_byte, high_byte, read_word_lem}

-- Every word of the text fits 16 bits.
abbrev pub AreWords : List ℕ → Type 0
AreWords [] = Unit
AreWords (w ∷ ws) = (w < 2 ^ 16) × AreWords ws

-- The two bytes of a word, in memory from `m` on.
abbrev pub with_pair : ℕ → ℕ → MemDev → MemDev
with_pair m w d = record d {
  store = λ j. if j == m + 1 then w / 256 else if j == m then w % 256 else d.store j;
}

load_words_step :
    (left : ℕ) (w : ℕ) (ws : List ℕ) (m : ℕ) (d : MemDev)
    → w < 2 ^ 16
    → m + 1 < mem_bytes
    → load_words (suc left) (w ∷ ws) m d ≡ load_words left ws (m + 2) (with_pair m w d)
unfolding load_words
load_words_step left w ws m d word fits =
    let here : ltb m mem_bytes ≡ true = ground arith in
    let next : ltb (m + 1) mem_bytes ≡ true = ground arith in
    rw here (rw (next, low_byte w) (rw (high_byte w word)))

-- The words of a text as bytes, the low byte of each first.
abbrev pub bytes_of : List ℕ → List ℕ
bytes_of [] = []
bytes_of (w ∷ ws) = w % 256 ∷ w / 256 ∷ bytes_of ws

-- What a store holds once `bytes` have been laid over it from `m` on.
abbrev pub overlaid : List ℕ → ℕ → (ℕ → ℕ) → ℕ → ℕ
overlaid bytes m store j =
    if ltb j m then store j else elim (get_elem? bytes (j - m)) [ none ↦ store j | some b ↦ b ]

abbrev pub with_bytes : List ℕ → ℕ → MemDev → MemDev
with_bytes bytes m d = record d { store = overlaid bytes m d.store }

overlaid-pair :
    (w : ℕ) (ws : List ℕ) (m : ℕ) (d : MemDev) (j : ℕ)
    → overlaid (bytes_of ws) (m + 2) (with_pair m w d).store j
      ≡ overlaid (bytes_of (w ∷ ws)) m d.store j
overlaid-pair w ws m d j = elim (dec_lt j (m + 2)) [
  | yes near ↦ elim (dec_lt j m) [
    | yes before ↦ ground arith
    | no from ↦ elim (dec_lt j (m + 1)) [
      | yes first ↦ let at : j - m ≡ 0 = omega arith in rw at (ground arith)
      | no second ↦ let at : j - m ≡ 1 = omega arith in rw at (ground arith)
    ]
  ]
  | no far ↦ let at : j - m ≡ suc (suc (j - (m + 2))) = omega arith in rw at (ground arith)
]

load_words_lem :
    (text : List ℕ) (m : ℕ) (d : MemDev)
    → AreWords text
    → m + 2 * length text ≤ mem_bytes
    → load_words (length text) text m d ≡ done (with_bytes (bytes_of text) m d)
load_words_lem [] m d h fits =
    unfold load_words in ap (λ st. done (record d { store = st })) (fun_ext (λ j. ground arith))
load_words_lem (w ∷ ws) m d h fits =
    load_words_step (length ws) w ws m d h.0 (omega arith)
    ∙ load_words_lem ws (m + 2) (with_pair m w d) h.1 (omega arith)
    ∙ ap (λ st. done (record d { store = st })) (fun_ext (overlaid-pair w ws m d))

-- A text of 16-bit words that fits the store at `offset` is loaded with `a_text` twice their
-- number: the store then holds the bytes of its words, low byte first, one after the other from
-- `offset` on, and outside them what it held.
pub load_aout_lem :
    (text : List ℕ) (offset : ℕ) (d : MemDev)
    → AreWords text
    → offset + 2 * length text ≤ mem_bytes
    → load_aout (2 * length text) text offset d ≡ done (with_bytes (bytes_of text) offset d)
unfolding load_aout
load_aout_lem text offset d h fits =
    let half : (2 * length text) >>> 1 ≡ length text = omega arith in
    rw half (load_words_lem text offset d h fits)

get_elem?-bytes_of :
    (text : List ℕ) (i w : ℕ)
    → get_elem? text i ≡ some w
    → (get_elem? (bytes_of text) (2 * i) ≡ some (w % 256))
      × (get_elem? (bytes_of text) (2 * i + 1) ≡ some (w / 256))
      × (i < length text)
get_elem?-bytes_of [] i w e = absurd (cc)
get_elem?-bytes_of (v ∷ vs) zero w e = (cc, cc, omega arith)
get_elem?-bytes_of (v ∷ vs) (suc i) w e =
    let (low, high, lt) = get_elem?-bytes_of vs i w e in
    let even : 2 * suc i ≡ suc (suc (2 * i)) = omega arith in
    let odd : 2 * suc i + 1 ≡ suc (suc (2 * i + 1)) = omega arith in
    (rw even low, rw odd high, omega arith)

-- After a text of 16-bit words that fits the store at `offset` is loaded with `a_text` twice
-- their number, `read_word` at `offset` plus twice an index into the text gives the word of
-- that index.
pub read_word-load_aout :
    (text : List ℕ) (offset : ℕ) (d : MemDev) (i w : ℕ)
    → AreWords text
    → offset + 2 * length text ≤ mem_bytes
    → get_elem? text i ≡ some w
    → (load_aout (2 * length text) text offset d >>= read_word (offset + 2 * i)) ≡ done w
read_word-load_aout text offset d i w h fits e =
    let (low, high, lt) = get_elem?-bytes_of text i w e in
    let first : offset + 2 * i - offset ≡ 2 * i = omega arith in
    let second : offset + 2 * i + 1 - offset ≡ 2 * i + 1 = omega arith in
    let d' = with_bytes (bytes_of text) offset d in
    let low' : d'.store (offset + 2 * i) ≡ w % 256 = rw (first, low) (ground arith) in
    let high' : d'.store (offset + 2 * i + 1) ≡ w / 256 = rw (second, high) (ground arith) in
    rw (load_aout_lem text offset d h fits)
      (ground (arith, low', high', read_word_lem d' (offset + 2 * i)))

-- A program that does not fit runs over the end of the array.
load_words_overflow :
    (text : List ℕ) (m : ℕ) (d : MemDev)
    → m ≤ mem_bytes
    → mem_bytes < m + 2 * length text
    → AreWords text
    → load_words (length text) text m d ≡ out_of_bounds
load_words_overflow [] m d at over h = absurd (omega arith)
load_words_overflow (w ∷ ws) m d at over h = elim (dec_lt (m + 1) mem_bytes) [
  | yes fits ↦
      load_words_step (length ws) w ws m d h.0 fits
      ∙ load_words_overflow ws (m + 2) (with_pair m w d) (omega arith) (omega arith) h.1
  | no last ↦ unfold load_words in ground arith
]

-- A text of 16-bit words that does not fit the store at an `offset` inside it, with `a_text`
-- twice their number, makes `load_aout` write past the end of the array.
pub load_aout_overflow :
    (text : List ℕ) (offset : ℕ) (d : MemDev)
    → AreWords text
    → offset ≤ mem_bytes
    → mem_bytes < offset + 2 * length text
    → load_aout (2 * length text) text offset d ≡ out_of_bounds
unfolding load_aout
load_aout_overflow text offset d h at over =
    let half : (2 * length text) >>> 1 ≡ length text = omega arith in
    rw half (load_words_overflow text offset d at over h)

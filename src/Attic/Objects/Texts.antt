-- ===== src/Attic/Objects/Texts.antt =====
-- The text of a program with the word behind it, and the memory that holds a text.
use xmachine.Base.{
  zero, ◌<◌, ℕ, suc, ◌+◌, ◌*◌, ◌/◌, ◌%◌, ◌^◌, ◌≤◌, ◌≡◌, refl, ap, ◌∙◌, arith, some, List, [], ◌∷◌,
  length, get_elem?, inr,
}
use xmachine.Outcome.{done}
use xmachine.Attic.State.{Memory}
use xmachine.Attic.Memory.{r_pc, get_r}
use xmachine.Attic.Registers.{word_at, with_word, reg_loc, get_r_lem, word_at-with_word}
use xmachine.Attic.Effects.Table.{IsWired, with_word-IsWired}
use xmachine.Mem.Loading.{AreWords}
use xmachine.Attic.Objects.Words.{with_words, with_words-IsWired, with_words_apart}
use xmachine.Attic.Objects.Blocks.{followed_by, word_bytes}

-- The words of a text and one more.
pub length-followed_by :
    (words : List ℕ) (w : ℕ) → length (followed_by words (w ∷ [])) ≡ length words + 1
length-followed_by [] w = refl
length-followed_by (v ∷ words) w = omega (arith, length-followed_by words w)

pub followed_by-AreWords :
    (words : List ℕ) (w : ℕ) → AreWords words → w < 2 ^ 16 → AreWords (followed_by words (w ∷ []))
followed_by-AreWords [] w are lt = (lt, tt)
followed_by-AreWords (v ∷ words) w are lt = (are.0, followed_by-AreWords words w are.1 lt)

pub word_bytes-followed_by :
    (words : List ℕ) (w : ℕ) (rest : List ℕ)
    → word_bytes words (w % 256 ∷ w / 256 ∷ rest) ≡ word_bytes (followed_by words (w ∷ [])) rest
word_bytes-followed_by [] w rest = refl
word_bytes-followed_by (v ∷ words) w rest =
    ap (λ bytes. v % 256 ∷ v / 256 ∷ bytes) (word_bytes-followed_by words w rest)

pub get_elem?-followed_by :
    (words : List ℕ) (v i w : ℕ)
    → get_elem? words i ≡ some w
    → get_elem? (followed_by words (v ∷ [])) i ≡ some w
get_elem?-followed_by [] v i w e = absurd (cc)
get_elem?-followed_by (x ∷ words) v zero w e = e
get_elem?-followed_by (x ∷ words) v (suc i) w e = get_elem?-followed_by words v i w e

pub get_elem?-behind :
    (words : List ℕ) (w : ℕ) → get_elem? (followed_by words (w ∷ [])) (length words) ≡ some w
get_elem?-behind [] w = refl
get_elem?-behind (v ∷ words) w = get_elem?-behind words w

-- The memory with a program.
pub loaded-IsWired :
    (offset : ℕ) (words : List ℕ) (m : Memory)
    → offset + 2 * length words ≤ 0o17400
    → AreWords words
    → IsWired m
    → IsWired (with_words offset words (with_word (reg_loc r_pc) offset m))
loaded-IsWired offset words m fits are wired =
    with_words-IsWired offset words _ are
      (with_word-IsWired (reg_loc r_pc) offset m (omega arith) wired)

pub pc_of :
    (offset : ℕ) (words : List ℕ) (m : Memory)
    → offset + 2 * length words ≤ 0o17400
    → AreWords words
    → IsWired m
    → let m' = with_words offset words (with_word (reg_loc r_pc) offset m) in
      get_r r_pc m' ≡ done (offset, m')
pc_of offset words m fits are wired =
    let started : Memory = with_word (reg_loc r_pc) offset m in
    let m' : Memory = with_words offset words started in
    let kept_pc : word_at (reg_loc r_pc) m' ≡ offset =
      with_words_apart (reg_loc r_pc) offset words started (inr (omega arith))
      ∙ word_at-with_word (reg_loc r_pc) offset m (omega arith) in
    get_r_lem r_pc m' (omega arith) (loaded-IsWired offset words m fits are wired).bytes
    ∙ ap (λ v. done (v, m')) kept_pc

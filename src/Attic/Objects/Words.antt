-- ===== src/Attic/Objects/Words.antt =====
-- Words that are put into memory one after the other.
use xmachine.Base.{
  ℕ, zero, suc, ◌+◌, ◌*◌, ◌≤◌, ◌<◌, ◌≡◌, refl, ap, ◌∙◌, arith, some, List, [], ◌∷◌, length,
  get_elem?, inl, inr, ◌⊎◌,
}
use xmachine.Attic.State.{Memory}
use xmachine.Attic.Registers.{word_at, with_word, word_at-with_word, word_at-other}
use xmachine.Attic.Effects.Table.{IsWired, with_word-IsWired}
use xmachine.Mem.Loading.{AreWords}

-- The words in memory, one after the other.
abbrev pub with_words : ℕ → List ℕ → Memory → Memory
with_words loc [] m = m
with_words loc (w ∷ words) m = with_words (loc + 2) words (with_word loc w m)

pub with_words-IsWired :
    (loc : ℕ) (words : List ℕ) (m : Memory)
    → AreWords words
    → IsWired m
    → IsWired (with_words loc words m)
with_words-IsWired loc [] m are h = h
with_words-IsWired loc (w ∷ words) m are h =
    with_words-IsWired (loc + 2) words (with_word loc w m) are.1 (with_word-IsWired loc w m are.0 h)

pub with_words_apart :
    (other loc : ℕ) (words : List ℕ) (m : Memory)
    → (other + 1 < loc) ⊎ (loc + 2 * length words ≤ other)
    → word_at other (with_words loc words m) ≡ word_at other m
with_words_apart other loc [] m apart = refl
with_words_apart other loc (w ∷ words) m (inl below) =
    with_words_apart other (loc + 2) words (with_word loc w m) (inl (omega arith))
    ∙ word_at-other other loc w m (inl below)
with_words_apart other loc (w ∷ words) m (inr above) =
    with_words_apart other (loc + 2) words (with_word loc w m) (inr (omega arith))
    ∙ word_at-other other loc w m (inr (omega arith))

pub word_at-with_words :
    (loc : ℕ) (words : List ℕ) (m : Memory) (i w : ℕ)
    → AreWords words
    → get_elem? words i ≡ some w
    → word_at (loc + 2 * i) (with_words loc words m) ≡ w
word_at-with_words loc [] m i w are e = absurd (cc)
word_at-with_words loc (v ∷ words) m zero w are e =
    let same : v ≡ w = cc in
    ap (λ l. word_at l (with_words (loc + 2) words (with_word loc v m))) (omega arith)
    ∙ with_words_apart loc (loc + 2) words (with_word loc v m) (inl (omega arith))
    ∙ word_at-with_word loc v m are.0
    ∙ same
word_at-with_words loc (v ∷ words) m (suc i) w are e =
    ap (λ l. word_at l (with_words (loc + 2) words (with_word loc v m))) (omega arith)
    ∙ word_at-with_words (loc + 2) words (with_word loc v m) i w are.1 e

-- ===== src/Load/Files.antt =====
-- What `aout_read` makes of a file, and what the memory then holds.
use xmachine.Base.{
  ℕ, zero, suc, ◌+◌, ◌*◌, ◌/◌, ◌%◌, ◌≤◌, ◌≡◌, refl, ap, ◌∙◌, arith, true, some, List, [], ◌∷◌, ◌++◌,
  take, drop, replicate, length,
}
use xmachine.Outcome.{done}
use xmachine.Mem.{MemDev, mem_bytes, load_aout}
use xmachine.Mem.Loading.{AreWords, bytes_of, with_bytes, load_aout_lem}
use xmachine.Load.{
  AoutHeader, AoutObject, Host, header_refs, read_words, aout_read_header, aout_read_text,
  aout_read,
}

-- A file of these bytes that opens as `fd` and is read without errors, on a host with room enough:
-- a read gives the next bytes, fewer at the end of the file.
pub record Opens {F : Type 0} (host : Host F) (executable fd : ℕ) (content : List ℕ) (f : F)
    : Type 0 where
  pub rest : F → List ℕ
  pub opens :
      ((host.open_file executable f).0 ≡ some fd) × (rest (host.open_file executable f).1 ≡ content)
  pub read_gives :
      (n : ℕ) (g : F)
      → ((host.read_file fd n g).0 ≡ some (take n (rest g)))
        × (rest (host.read_file fd n g).1 ≡ drop n (rest g))
  pub malloc_gives : (g : F) → (h : AoutHeader) × ((host.malloc g).0 ≡ some h)
  pub malloc_keeps : (g : F) → rest (host.malloc g).1 ≡ rest g
  pub calloc_keeps :
      (n : ℕ) (g : F) → ((host.calloc n g).0 ≡ true) × (rest (host.calloc n g).1 ≡ rest g)
  pub closes : (g : F) → (host.close_file fd g).0 ≡ true

-- Words laid over others, which stay where the new ones end, and the words left over.
abbrev over : List ℕ → List ℕ → List ℕ
over [] ws = []
over (old ∷ olds) [] = old ∷ over olds []
over (old ∷ olds) (w ∷ ws) = w ∷ over olds ws

-- The first `n` of the words, with zeros where the words end.
abbrev pub padded : ℕ → List ℕ → List ℕ
padded zero ws = []
padded (suc n) [] = 0 ∷ padded n []
padded (suc n) (w ∷ ws) = w ∷ padded n ws

drop_nil : (n : ℕ) → drop {A = ℕ} n [] ≡ []
drop_nil zero = refl
drop_nil (suc n) = refl

padded-append : (text extra : List ℕ) → padded (length text) (text ++ extra) ≡ text
padded-append [] extra = refl
padded-append (w ∷ ws) extra = ap (λ xs. w ∷ xs) (padded-append ws extra)

module _ {F : Type 0} (host : Host F) (executable fd : ℕ) (content : List ℕ) (f : F)
    (file : Opens host executable fd content f) where
  read_words_lem :
      (olds words : List ℕ) (g : F)
      → file.rest g ≡ bytes_of words
      → ((read_words host fd olds g).0 ≡ some (over olds words))
        × (file.rest (read_words host fd olds g).1 ≡ bytes_of (drop (length olds) words))
  unfolding read_words
  read_words_lem [] words g e = (refl, e)
  read_words_lem (old ∷ olds) [] g e =
      let (got, left) = file.read_gives 2 g in
      let (words, left') =
        read_words_lem olds [] (host.read_file fd 2 g).1 (left ∙ ap (drop 2) e) in
      rw (got, e) (rw words (refl, left' ∙ ap bytes_of (drop_nil (length olds))))
  read_words_lem (old ∷ olds) (w ∷ ws) g e =
      let (got, left) = file.read_gives 2 g in
      let (words, left') =
        read_words_lem olds ws (host.read_file fd 2 g).1 (left ∙ ap (drop 2) e) in
      let whole : w / 256 * 256 + w % 256 ≡ w = omega arith in
      rw (got, e) (rw words (ap (λ v. some (v ∷ over olds ws)) whole, left'))

  header_lem :
      (fresh h : AoutHeader) (words : List ℕ) (g : F)
      → file.rest g ≡ bytes_of (header_refs h ++ words)
      → ((aout_read_header host fd fresh g).0 ≡ some h)
        × (file.rest (aout_read_header host fd fresh g).1 ≡ bytes_of words)
  unfolding aout_read_header
  header_lem fresh h words g e =
      let (got, left) = read_words_lem (header_refs fresh) (header_refs h ++ words) g e in
      rw (aout_read_header, got) (refl, left)

  over-replicate : (n : ℕ) (ws : List ℕ) → over (replicate n 0) ws ≡ padded n ws
  over-replicate zero ws = refl
  over-replicate (suc n) [] = ap (λ xs. 0 ∷ xs) (over-replicate n [])
  over-replicate (suc n) (w ∷ ws) = ap (λ xs. w ∷ xs) (over-replicate n ws)

  text_lem :
      (h : AoutHeader) (words : List ℕ) (g : F)
      → file.rest g ≡ bytes_of words
      → (aout_read_text host fd h g).0 ≡ some (padded (h.a_text / 2) words)
  unfolding aout_read_text
  text_lem h words g e =
      let (room, left) = file.calloc_keeps (h.a_text / 2) g in
      let (got, _) =
        read_words_lem (replicate (h.a_text / 2) 0) words (host.calloc (h.a_text / 2) g).1
          (left ∙ e) in
      rw room (got ∙ ap some (over-replicate (h.a_text / 2) words))

  -- On a host that keeps the low byte first and has room enough, a file that opens, is read and
  -- closes without errors, and consists of the words of a header and of further words, gives
  -- `aout_read` that header and half of `a_text` words: the words of the file, and zeros where
  -- the file ends before. That the file is cut short is not noticed.
  pub aout_read_lem :
      (h : AoutHeader) (words : List ℕ)
      → content ≡ bytes_of (header_refs h ++ words)
      → (aout_read host executable f).0
        ≡ some (record { header = h; text = padded (h.a_text / 2) words })
  unfolding aout_read
  aout_read_lem h words e =
      let (opened, start) = file.opens in
      let g : F = (host.open_file executable f).1 in
      let (fresh, allocated) = file.malloc_gives g in
      let (header, left) =
        header_lem fresh h words (host.malloc g).1 (file.malloc_keeps g ∙ start ∙ e) in
      let g' : F = (aout_read_header host fd fresh (host.malloc g).1).1 in
      rw (opened, allocated, header) (rw (text_lem h words g' left) (rw (file.closes _) refl))

  -- On a host that keeps the low byte first and has room enough, a file that opens, is read and
  -- closes without errors, and consists of the words of a header, of a text of 16-bit words of
  -- which `a_text` is twice the number, and of any more words, is read by `aout_read`; loaded
  -- by `load_aout` at an `offset` where the text fits the store, it leaves in memory the bytes
  -- of the text as they stand in the file, and outside them what there was.
  pub load_aout-aout_read :
      (h : AoutHeader) (text extra : List ℕ) (offset : ℕ) (d : MemDev)
      → content ≡ bytes_of (header_refs h ++ (text ++ extra))
      → AreWords text
      → h.a_text ≡ 2 * length text
      → offset + 2 * length text ≤ mem_bytes
      → (aout : AoutObject) × ((aout_read host executable f).0 ≡ some aout)
        × (load_aout aout.header.a_text aout.text offset d
            ≡ done (with_bytes (bytes_of text) offset d))
  load_aout-aout_read h text extra offset d e words size fits =
      let half : h.a_text / 2 ≡ length text = omega arith in
      let whole : padded (h.a_text / 2) (text ++ extra) ≡ text =
        ap (λ n. padded n (text ++ extra)) half ∙ padded-append text extra in
      (
        record { header = h; text = text },
        aout_read_lem h (text ++ extra) e
            ∙ ap (λ ws. some (record { header = h; text = ws })) whole,
        ap (λ n. load_aout n text offset d) size ∙ load_aout_lem text offset d words fits,
      )

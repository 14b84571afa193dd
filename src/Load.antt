-- ===== src/Load.antt =====
-- src/libload: reading an a.out file into the object that the memory device loads. The calls of the
-- host system are an interface.
pub mod Files
use xmachine.Base.{
  ℕ, ◌+◌, ◌*◌, ◌/◌, Bool, true, false, if◌then◌else◌, ◌>>>◌, Option, none, some, List, [], ◌∷◌,
  get_elem?, replicate,
}

pub record AoutHeader : Type 0 where
  pub a_midmag : ℕ
  pub a_text : ℕ
  pub a_data : ℕ
  pub a_bss : ℕ
  pub a_syms : ℕ
  pub a_entry : ℕ
  pub a_trsize : ℕ
  pub a_drsize : ℕ

-- `aout_object`, with the `text` that the pointer leads to.
pub record AoutObject : Type 0 where
  pub header : AoutHeader
  pub text : List ℕ

-- `open` gives a descriptor; `read` the bytes that it has put at the address, at most so many;
-- `malloc` what the new object's header holds; `calloc` says whether there was room for the words.
pub record Host (F : Type 0) : Type 0 where
  pub open_file : ℕ → F → Option ℕ × F
  pub read_file : ℕ → ℕ → F → Option (List ℕ) × F
  pub close_file : ℕ → F → Bool × F
  pub malloc : F → Option AoutHeader × F
  pub calloc : ℕ → F → Bool × F

-- `header_refs`, as the values of the fields, and the header that holds such values.
abbrev pub header_refs : AoutHeader → List ℕ
header_refs h =
    h.a_midmag ∷ h.a_text ∷ h.a_data ∷ h.a_bss ∷ h.a_syms ∷ h.a_entry ∷ h.a_trsize ∷ h.a_drsize ∷ []

abbrev or_zero : Option ℕ → ℕ
or_zero none = 0
or_zero (some n) = n

abbrev pub header_of : List ℕ → AoutHeader
header_of ws = record {
  a_midmag = or_zero (get_elem? ws 0);
  a_text = or_zero (get_elem? ws 1);
  a_data = or_zero (get_elem? ws 2);
  a_bss = or_zero (get_elem? ws 3);
  a_syms = or_zero (get_elem? ws 4);
  a_entry = or_zero (get_elem? ws 5);
  a_trsize = or_zero (get_elem? ws 6);
  a_drsize = or_zero (get_elem? ws 7);
}

-- A `uint16_t` after a read of two bytes has put these at its address, on a host that keeps the low
-- byte first: a shorter read changes one byte of it, or none.
abbrev pub store_bytes : List ℕ → ℕ → ℕ
store_bytes [] old = old
store_bytes (low ∷ []) old = old / 256 * 256 + low
store_bytes (low ∷ high ∷ bytes) old = high * 256 + low

-- One round, and the rounds after it.
abbrev pub joined :
    {F : Type 0} → ℕ → Option (List ℕ) → F → Option (List ℕ) → F → Option (List ℕ) × F
joined old none f' rest f'' = (none, f')
joined old (some bytes) f' none f'' = (none, f'')
joined old (some bytes) f' (some words) f'' = (some (store_bytes bytes old ∷ words), f'')

module _ {F : Type 0} (host : Host F) where
  -- The loop of both readers, over what the words hold before: two bytes into each; `none` once a
  -- read has failed.
  unfoldable pub read_words : ℕ → List ℕ → F → Option (List ℕ) × F
  read_words fd [] f = (some [], f)
  read_words fd (old ∷ olds) f =
      let (got, f') = host.read_file fd 2 f in
      let (rest, f'') = read_words fd olds f' in joined old got f' rest f''

  unfoldable pub aout_read_header : ℕ → AoutHeader → F → Option AoutHeader × F
  unfolding read_words
  aout_read_header fd h f =
      let (got, f') = read_words fd (header_refs h) f in
      (elim got [ none ↦ none | some words ↦ some (header_of words) ], f')

  unfoldable pub aout_read_text : ℕ → AoutHeader → F → Option (List ℕ) × F
  unfolding read_words
  aout_read_text fd h f =
      let n_text : ℕ = h.a_text >>> 1 in
      let (room, f') = host.calloc n_text f in
      if room then read_words fd (replicate n_text 0) f' else (none, f')

  -- The returns of `aout_read`: `none` is NULL. `aout_free` has no effect on the files.
  abbrev closed_null : ℕ → F → Option AoutObject × F
  closed_null fd f = (none, (host.close_file fd f).1)

  abbrev close_aout : ℕ → AoutObject → F → Option AoutObject × F
  close_aout fd aout f = let (ok, f') = host.close_file fd f in (if ok then some aout else none, f')

  abbrev with_text : ℕ → AoutHeader → Option (List ℕ) → F → Option AoutObject × F
  with_text fd h none f = closed_null fd f
  with_text fd h (some words) f = close_aout fd (record { header = h; text = words }) f

  abbrev read_body : ℕ → AoutHeader → F → Option AoutObject × F
  read_body fd h f = let (text, f') = aout_read_text fd h f in with_text fd h text f'

  abbrev with_header : ℕ → Option AoutHeader → F → Option AoutObject × F
  with_header fd none f = closed_null fd f
  with_header fd (some h) f = read_body fd h f

  abbrev read_object : ℕ → Option AoutHeader → F → Option AoutObject × F
  read_object fd none f = (none, f)
  read_object fd (some fresh) f =
      let (header, f') = aout_read_header fd fresh f in with_header fd header f'

  abbrev after_open : Option ℕ → F → Option AoutObject × F
  after_open none f = (none, f)
  after_open (some fd) f = let (fresh, f') = host.malloc f in read_object fd fresh f'

  unfoldable pub aout_read : ℕ → F → Option AoutObject × F
  unfolding aout_read_header aout_read_text
  aout_read executable f = let (opened, f') = host.open_file executable f in after_open opened f'

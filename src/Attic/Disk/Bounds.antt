-- ===== src/Attic/Disk/Bounds.antt =====
-- The buffer of the earlier disk, its memory, and the two commands on the buffer.
use xmachine.Base.{
  ℕ, ◌+◌, ◌^◌, ◌≤◌, ◌<◌, ◌≡◌, refl, arith, bit_and, bit_or, ◌>>>◌, u8, ltb, ◌==◌, if◌then◌else◌,
  true, false, Bool,
}
use xmachine.Base.Bits.{bit_and_low, bit_and_field, bit_or-lt}
use xmachine.Outcome.{Outcome, Ends, ends, Ends-bind}
use xmachine.Attic.State.{Effect, Memory, Command, ◌>>=◌, ◌>>◌}
use xmachine.Attic.Memory.{
  get_byte, set_byte, direct_read_word, direct_write_word, direct_write_word_or, direct_read_byte_n,
  direct_write_byte_n, mem_bytes,
}
use xmachine.Attic.Effects.{rxcs, rxdb, rxcs_xfer}
use xmachine.Attic.Registers.{word_at-lt}
use xmachine.Attic.Effects.Table.{IsWired, with_word-IsWired}
use xmachine.Attic.Effects.Access.{plain_read, plain_write}
use xmachine.Attic.Disk.{sector_size, Drive, Disk, in_memory, put_buffer}
use xmachine.Attic.Disk.Commands.{
  flags_of, raise, buffer_done, advance, fill_one, fill_buffer, empty_one, empty_buffer,
}

pub record IsDisk {F : Type 0} (d : Disk F) : Type 0 where
  pub index : d.index ≤ 128
  pub sector : d.sector < 256
  pub track : d.track < 256
  pub memory : IsWired d.memory

-- A byte is set, and the memory stays as it should be.
with_byte-IsWired :
    (loc b : ℕ) (m : Memory)
    → b < 256
    → IsWired m
    → IsWired (record m { cells = λ j. if j == loc then b else m.cells j })
with_byte-IsWired loc b m lt h = record {
  bytes = λ j. ground (arith, h.bytes j);
  read_effects = h.read_effects;
  write_effects = h.write_effects;
}

set_byte-IsWired :
    (loc b : ℕ) (m : Memory)
    → loc < mem_bytes
    → b < 256
    → IsWired m
    → Ends (λ r. IsWired r.1) (set_byte loc b m)
unfolding set_byte
set_byte-IsWired loc b m fits lt h =
    let here : ltb loc mem_bytes ≡ true = ground arith in
    rw here (ends (with_byte-IsWired loc b m lt h))

get_byte-IsWired :
    (loc : ℕ) (m : Memory)
    → loc < mem_bytes
    → IsWired m
    → Ends (λ r. (r.0 < 256) × IsWired r.1) (get_byte loc m)
unfolding get_byte
get_byte-IsWired loc m fits h =
    let here : ltb loc mem_bytes ≡ true = ground arith in rw here (ends (h.bytes loc, h))

or_low-lt : (b v : ℕ) → b < 256 → bit_or b (bit_and v 0o377) < 256
or_low-lt b v lt = bit_or-lt 8 b (bit_and v 0o377) lt (omega (arith, bit_and_low 8 v))

or_high-lt : (b v : ℕ) → b < 256 → bit_or b (bit_and v 0o177400 >>> 8) < 256
or_high-lt b v lt = bit_or-lt 8 b (bit_and v 0o177400 >>> 8) lt (omega (arith, bit_and_field 8 8 v))

or-IsWired :
    (loc v : ℕ) (m : Memory)
    → loc + 1 < mem_bytes
    → IsWired m
    → Ends (λ r. IsWired r.1) (direct_write_word_or loc v m)
unfolding direct_write_word_or ◌>>=◌ ◌>>◌
or-IsWired loc v m fits h = Ends-bind (get_byte-IsWired loc m (omega arith) h) λ low p.
    Ends-bind
      (set_byte-IsWired loc (bit_or low.0 (bit_and v 0o377)) low.1 (omega arith)
        (or_low-lt low.0 v p.0) p.1)
      λ r q. Ends-bind (get_byte-IsWired (loc + 1) r.1 fits q) λ high t.
        set_byte-IsWired (loc + 1) (bit_or high.0 (bit_and v 0o177400 >>> 8)) high.1 fits
          (or_high-lt high.0 v t.0) t.1

module _ {F : Type 0} where
  -- The disk after a command on its memory: nothing else is changed.
  abbrev pub Returns : {A : Type 0} → (A → Type 0) → Disk F → Outcome (A × Disk F) → Type 0
  Returns Q d o = Ends (λ r. (IsDisk r.1 × (r.1.index ≡ d.index)) × Q r.0) o

  in_memory-Returns :
      {A : Type 0} (Q : A → Type 0) (m : Command Memory A) (d : Disk F)
      → IsDisk d
      → Ends (λ r. Q r.0 × IsWired r.1) (m d.memory)
      → Returns Q d (in_memory m d)
  unfolding in_memory
  in_memory-Returns Q m d h e = Ends-bind e λ r p.
      ends
        ((record { index = h.index; sector = h.sector; track = h.track; memory = p.1 }, refl), p.0)

  put_buffer-Returns :
      (b : ℕ) (d : Disk F) → d.index < 128 → IsDisk d → Returns (λ _. Unit {0}) d (put_buffer b d)
  unfolding put_buffer
  put_buffer-Returns b d lt h =
      let here : ltb d.index sector_size ≡ true = ground arith in
      rw here (
        ends (
          (record { index = h.index; sector = h.sector; track = h.track; memory = h.memory }, refl),
          tt,
        ))

Ends-mono :
    {A : Type 0} {P Q : A → Type 0} {o : Outcome A} → Ends P o → ((a : A) → P a → Q a) → Ends Q o
Ends-mono (ends {a} p) weaken = ends (weaken a p)

-- A branch of a command.
pub by_cases :
    {A B : Type 0} {P : B → Type 0} (b : Bool) (x y : A → Outcome B) (a : A)
    → (b ≡ true → Ends P (x a))
    → (b ≡ false → Ends P (y a))
    → Ends P ((if b then x else y) a)
by_cases true x y a first second = first refl
by_cases false x y a first second = second refl

module _ {F : Type 0} (drive : Drive F) (c : Effect → Command Memory (Unit {0})) where
  abbrev pub Keeps : Command (Disk F) (Unit {0}) → Disk F → Type 0
  Keeps m d = Ends (λ r. IsDisk r.1) (m d)

  pub flags-Returns : (d : Disk F) → IsDisk d → Returns (λ v. v < 2 ^ 16) d (flags_of drive c d)
  flags-Returns d h =
      in_memory-Returns (λ v. v < 2 ^ 16) (direct_read_word c rxcs) d h
        (rw (plain_read c rxcs d.memory (omega arith) refl refl refl h.memory)
          (ends (word_at-lt rxcs d.memory h.memory.bytes, h.memory)))

  pub raise-Returns :
      (flags : ℕ) (d : Disk F) → IsDisk d → Returns (λ _. Unit {0}) d (raise drive c flags d)
  raise-Returns flags d h =
      in_memory-Returns (λ _. Unit {0}) (direct_write_word_or rxcs flags) d h
        (Ends-mono (or-IsWired rxcs flags d.memory (omega arith) h.memory) (λ r p. (tt, p)))

  pub raise-Keeps : (flags : ℕ) (d : Disk F) → IsDisk d → Keeps (raise drive c flags) d
  raise-Keeps flags d h = Ends-mono (raise-Returns flags d h) (λ r p. p.0.0)

  pub write-Keeps :
      (v : ℕ) (d : Disk F)
      → v < 2 ^ 16
      → IsDisk d
      → Keeps (in_memory (direct_write_word c rxcs v)) d
  write-Keeps v d lt h =
      Ends-mono
        (in_memory-Returns (λ _. Unit {0}) (direct_write_word c rxcs v) d h
          (rw (plain_write c rxcs v d.memory (omega arith) lt refl h.memory)
            (ends (tt, with_word-IsWired rxcs v d.memory lt h.memory))))
        (λ r p. p.0.0)

  pub byte-Returns :
      (d : Disk F) → IsDisk d → Returns (λ v. v < 256) d (in_memory (direct_read_byte_n rxdb) d)
  unfolding direct_read_byte_n
  byte-Returns d h =
      in_memory-Returns (λ v. v < 256) (direct_read_byte_n rxdb) d h
        (get_byte-IsWired rxdb d.memory (omega arith) h.memory)

  advance-Keeps :
      (flags : ℕ) (d : Disk F) → d.index < 128 → IsDisk d → Keeps (advance drive c flags) d
  unfolding ◌>>=◌ ◌>>◌
  advance-Keeps flags d lt h =
      let d' : Disk F = record d { index = u8 (d.index + 1) } in
      let h' : IsDisk d' = record {
        index = omega arith;
        sector = h.sector;
        track = h.track;
        memory = h.memory;
      } in
      by_cases (u8 (d.index + 1) == sector_size) _ _ d' (λ _. raise-Keeps _ d' h')
        (λ _. raise-Keeps _ d' h')

  fill_one-Keeps :
      (flags : ℕ) (d : Disk F) → d.index < 128 → IsDisk d → Keeps (fill_one drive c flags) d
  unfolding ◌>>=◌ ◌>>◌
  fill_one-Keeps flags d lt h = Ends-bind (raise-Returns flags d h) λ r p.
      Ends-bind (byte-Returns r.1 p.0.0) λ b q.
        Ends-bind (put_buffer-Returns b.0 b.1 (omega (arith, p.0.1, q.0.1)) q.0.0)
          λ e t. advance-Keeps flags e.1 (omega (arith, p.0.1, q.0.1, t.0.1)) t.0.0

  empty_one-Keeps :
      (flags : ℕ) (d : Disk F) → d.index < 128 → IsDisk d → Keeps (empty_one drive c flags) d
  unfolding ◌>>=◌ ◌>>◌ direct_write_byte_n
  empty_one-Keeps flags d lt h = Ends-bind (raise-Returns flags d h) λ r p.
      Ends-bind
        (in_memory-Returns (λ _. Unit {0}) (direct_write_byte_n rxdb r.1.index) r.1 p.0.0
          (Ends-mono
            (set_byte-IsWired rxdb r.1.index r.1.memory (omega arith) (omega (arith, p.0.1))
              p.0.0.memory)
            (λ r p. (tt, p))))
        λ b q. advance-Keeps flags b.1 (omega (arith, p.0.1, q.0.1)) q.0.0

  buffer_done-Keeps : (d : Disk F) → IsDisk d → Keeps (buffer_done drive c) d
  buffer_done-Keeps d h =
      ends (record { index = omega arith; sector = h.sector; track = h.track; memory = h.memory })

  -- The two commands on the buffer.
  within : (d : Disk F) → (d.index == sector_size) ≡ false → IsDisk d → d.index < 128
  within d e h = let i : d.index ≤ 128 = h.index in ground arith

  pub fill_buffer-Keeps : (d : Disk F) → IsDisk d → Keeps (fill_buffer drive c) d
  unfolding fill_buffer ◌>>=◌ ◌>>◌
  fill_buffer-Keeps d h = Ends-bind (flags-Returns d h) λ r p.
      by_cases (r.1.index == sector_size) _ _ r.1 (λ _. buffer_done-Keeps r.1 p.0.0)
        (λ e.
          by_cases (bit_and r.0 rxcs_xfer == rxcs_xfer) _ _ r.1 (λ _. ends p.0.0)
            (λ _. fill_one-Keeps r.0 r.1 (within r.1 e p.0.0) p.0.0))

  pub empty_buffer-Keeps : (d : Disk F) → IsDisk d → Keeps (empty_buffer drive c) d
  unfolding empty_buffer ◌>>=◌ ◌>>◌
  empty_buffer-Keeps d h = Ends-bind (flags-Returns d h) λ r p.
      by_cases (r.1.index == sector_size) _ _ r.1 (λ _. buffer_done-Keeps r.1 p.0.0)
        (λ e.
          by_cases (bit_and r.0 rxcs_xfer == rxcs_xfer) _ _ r.1 (λ _. ends p.0.0)
            (λ _. empty_one-Keeps r.0 r.1 (within r.1 e p.0.0) p.0.0))

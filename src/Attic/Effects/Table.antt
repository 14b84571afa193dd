-- ===== src/Attic/Effects/Table.antt =====
-- What a read or a write of a word does, with the side effects that the program registers.
use xmachine.Base.{
  ℕ, zero, suc, ◌^◌, ◌<◌, ◌≡◌, refl, arith, ◌==◌, if◌then◌else◌, false, Option, none, some, List,
  ◌∷◌, replicate,
}
use xmachine.Attic.State.{
  Effect, read_tkb_effect, clear_tpb_effect, clear_rxdb_effect, clear_rxcs_effect, SideEffect,
  Memory,
}
use xmachine.Attic.Memory.{inactive_handler_loc, find_effect}
use xmachine.Attic.Effects.{tkb_loc, tpb_loc, rxdb}
use xmachine.Attic.Registers.{AreBytes, with_word, with_word-AreBytes}

-- The tables after the registrations.
abbrev pub read_table : List SideEffect
read_table =
    (tkb_loc, some read_tkb_effect)
    ∷ (tpb_loc, some clear_tpb_effect)
    ∷ (rxdb, some clear_rxdb_effect)
    ∷ replicate 17 (inactive_handler_loc, none)

abbrev pub write_table : List SideEffect
write_table = (rxdb, some clear_rxcs_effect) ∷ replicate 19 (inactive_handler_loc, none)

pub record IsWired (m : Memory) : Type 0 where
  pub bytes : AreBytes m
  pub read_effects : m.read_side_effects ≡ read_table
  pub write_effects : m.write_side_effects ≡ write_table

find_inactive :
    (n loc : ℕ)
    → loc < inactive_handler_loc
    → find_effect loc (replicate n (inactive_handler_loc, none)) ≡ none
unfolding find_effect
find_inactive zero loc lt = refl
find_inactive (suc n) loc lt =
    let other : (inactive_handler_loc == loc) ≡ false = ground arith in
    rw other (find_inactive n loc lt)

find_in_table :
    (l loc : ℕ) (handler : Option Effect) (table : List SideEffect)
    → find_effect loc ((l, handler) ∷ table)
      ≡ (if l == loc then some handler else find_effect loc table)
unfolding find_effect
find_in_table l loc handler table = refl

pub find_read :
    (loc : ℕ)
    → loc < inactive_handler_loc
    → find_effect loc read_table ≡ (
        if tkb_loc == loc
        then some (some read_tkb_effect)
        else if tpb_loc == loc
        then some (some clear_tpb_effect)
        else if rxdb == loc
        then some (some clear_rxdb_effect)
        else none)
find_read loc lt = rw (find_in_table, find_in_table, find_in_table, find_inactive 17 loc lt) refl

pub find_write :
    (loc : ℕ)
    → loc < inactive_handler_loc
    → find_effect loc write_table ≡ (if rxdb == loc then some (some clear_rxcs_effect) else none)
find_write loc lt = rw (find_in_table, find_inactive 19 loc lt) refl

pub with_word-IsWired :
    (loc v : ℕ) (m : Memory) → v < 2 ^ 16 → IsWired m → IsWired (with_word loc v m)
with_word-IsWired loc v m lt h = record {
  bytes = with_word-AreBytes loc v m lt h.bytes;
  read_effects = h.read_effects;
  write_effects = h.write_effects;
}

-- ===== src/Attic/Effects.antt =====
-- The handlers of attic/src/tty.c and attic/src/disk.c that reads and writes set off, and the memory
-- that the program sets up.
pub mod Table
pub mod Access
use xmachine.Base.{
  ℕ, zero, suc, bit_and, bit_or, bit_xor, ◌==◌, if◌then◌else◌, Bool, false, Option, none, List, [],
  ◌∷◌, replicate,
}
use xmachine.Outcome.{blocked}
use xmachine.Attic.State.{
  Effect, read_tkb_effect, clear_tpb_effect, clear_rxdb_effect, clear_rxcs_effect, SideEffect,
  Memory, Command, ◌>>=◌, ◌>>◌, reads, pure,
}
use xmachine.Attic.Memory.{
  max_handlers, inactive_handler_loc, direct_read_word, direct_write_word, direct_write_word_n,
}

abbrev pub tks_loc : ℕ
tks_loc = 0o17500

abbrev pub tkb_loc : ℕ
tkb_loc = 0o17502

abbrev pub tps_loc : ℕ
tps_loc = 0o17504

abbrev pub tpb_loc : ℕ
tpb_loc = 0o17506

abbrev pub tps_ready : ℕ
tps_ready = 0o200

abbrev pub rxcs : ℕ
rxcs = 0o177170

abbrev pub rxdb : ℕ
rxdb = 0o177172

abbrev pub rxcs_xfer : ℕ
rxcs_xfer = 0o200

-- `if (flags & RXCS_XFER) flags ^= RXCS_XFER`
abbrev pub without_xfer : ℕ → ℕ
without_xfer flags = if bit_and flags rxcs_xfer == 0 then flags else bit_xor flags rxcs_xfer

module _ (call : Effect → Command Memory (Unit {0})) where
  unfoldable pub clear_tkb : Command Memory (Unit {0})
  clear_tkb = direct_write_word call tkb_loc 0

  unfoldable pub clear_flags_tks : Command Memory (Unit {0})
  clear_flags_tks = direct_write_word call tks_loc 0

  unfoldable pub read_tkb : Command Memory (Unit {0})
  unfolding ◌>>◌ clear_tkb clear_flags_tks
  read_tkb = do clear_tkb; clear_flags_tks

  unfoldable pub clear_tpb : Command Memory (Unit {0})
  unfolding ◌>>=◌ ◌>>◌
  clear_tpb = do
    tps ← direct_read_word call tps_loc
    direct_write_word call tpb_loc 0
    direct_write_word call tps_loc (bit_or tps tps_ready)

  unfoldable pub clear_rxcs : Command Memory (Unit {0})
  unfolding ◌>>=◌
  clear_rxcs = do flags ← direct_read_word call rxcs; direct_write_word_n rxcs (without_xfer flags)

  unfoldable pub clear_rxdb : Command Memory (Unit {0})
  unfolding ◌>>◌ clear_rxcs
  clear_rxdb = do direct_write_word_n rxdb 0; clear_rxcs

  abbrev pub handler_of : Effect → Command Memory (Unit {0})
  handler_of read_tkb_effect = read_tkb
  handler_of clear_tpb_effect = clear_tpb
  handler_of clear_rxdb_effect = clear_rxdb
  handler_of clear_rxcs_effect = clear_rxcs

-- A handler reads and writes, and so sets off others: `call` nests them to a depth. Calls that go
-- deeper do not return.
unfoldable pub call : ℕ → Effect → Command Memory (Unit {0})
unfolding read_tkb clear_tpb clear_rxdb clear_rxcs
call zero effect m = blocked
call (suc depth) effect m = handler_of (call depth) effect m

-- `initialize_memory`, of the memory that `malloc` gives.
abbrev pub no_side_effects : List SideEffect
no_side_effects = replicate max_handlers (inactive_handler_loc, none)

unfoldable pub initialize_memory : Memory → Memory
initialize_memory m = record m {
  read_side_effects = no_side_effects;
  write_side_effects = no_side_effects;
  cells = λ loc. 0;
}

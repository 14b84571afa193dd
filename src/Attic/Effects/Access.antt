-- ===== src/Attic/Effects/Access.antt =====
-- Reads and writes of words, side effects included.
use xmachine.Base.{
  ℕ, suc, ◌+◌, ◌^◌, ◌<◌, ◌≡◌, refl, ◌∙◌, arith, bit_or, ◌==◌, if◌then◌else◌, false, none, some,
}
use xmachine.Base.Bits.{bit_or-lt, bit_xor-lt}
use xmachine.Outcome
use xmachine.Outcome.{Outcome, done}
use xmachine.Attic.State.{
  Effect, read_tkb_effect, clear_tpb_effect, clear_rxdb_effect, clear_rxcs_effect, Memory, Command,
  ◌>>=◌, ◌>>◌,
}
use xmachine.Attic.Memory.{
  mem_bytes, called, process_read_side_effects, process_write_side_effects, direct_read_word,
  direct_write_word,
}
use xmachine.Attic.Effects.{
  tks_loc, tkb_loc, tps_loc, tpb_loc, tps_ready, rxcs, rxdb, rxcs_xfer, without_xfer, handler_of,
  call, read_tkb, clear_tpb, clear_rxdb, clear_rxcs, clear_tkb, clear_flags_tks,
}
use xmachine.Attic.Registers.{
  word_at, with_word, word_at-lt, direct_read_word_n_lem, direct_write_word_n_lem,
}
use xmachine.Attic.Effects.Table.{IsWired, find_read, find_write, with_word-IsWired}

-- What each handler makes of the memory.
abbrev pub effect_of : Effect → Memory → Memory
effect_of read_tkb_effect m = with_word tks_loc 0 (with_word tkb_loc 0 m)
effect_of clear_tpb_effect m =
    with_word tps_loc (bit_or (word_at tps_loc m) tps_ready) (with_word tpb_loc 0 m)
effect_of clear_rxdb_effect m =
    let m' = with_word rxdb 0 m in with_word rxcs (without_xfer (word_at rxcs m')) m'
effect_of clear_rxcs_effect m = with_word rxcs (without_xfer (word_at rxcs m)) m

-- After a read, and after a write.
abbrev pub after_read : ℕ → Memory → Memory
after_read loc m =
    if tkb_loc == loc
    then effect_of read_tkb_effect m
    else if tpb_loc == loc
    then effect_of clear_tpb_effect m
    else if rxdb == loc
    then effect_of clear_rxdb_effect m
    else m

abbrev pub after_write : ℕ → ℕ → Memory → Memory
after_write loc v m =
    let m' = with_word loc v m in if rxdb == loc then effect_of clear_rxcs_effect m' else m'

without_xfer-lt : (flags : ℕ) → flags < 2 ^ 16 → without_xfer flags < 2 ^ 16
without_xfer-lt flags lt = ground (arith, bit_xor-lt 16 flags rxcs_xfer lt (omega arith))

module _ (c : Effect → Command Memory (Unit {0})) where
  read_lem :
      (loc : ℕ) (m : Memory)
      → loc + 1 < mem_bytes
      → IsWired m
      → direct_read_word c loc m
        ≡ Outcome.◌>>=◌
            (called c
              (if tkb_loc == loc
                then some (some read_tkb_effect)
                else if tpb_loc == loc
                then some (some clear_tpb_effect)
                else if rxdb == loc
                then some (some clear_rxdb_effect)
                else none)
              m)
            (λ r. done (word_at loc m, r.1))
  unfolding direct_read_word process_read_side_effects ◌>>=◌ ◌>>◌
  read_lem loc m fits h =
      rw (direct_read_word_n_lem loc m fits h.bytes, h.read_effects, find_read loc (omega arith))
        refl

  write_lem :
      (loc v : ℕ) (m : Memory)
      → loc + 1 < mem_bytes
      → v < 2 ^ 16
      → IsWired m
      → direct_write_word c loc v m
        ≡ called c (if rxdb == loc then some (some clear_rxcs_effect) else none) (with_word loc v m)
  unfolding direct_write_word process_write_side_effects ◌>>=◌ ◌>>◌
  write_lem loc v m fits lt h =
      rw (direct_write_word_n_lem loc v m fits lt, h.write_effects, find_write loc (omega arith))
        refl

  -- Most locations have no side effect, whatever runs one.
  pub plain_read :
      (loc : ℕ) (m : Memory)
      → loc + 1 < mem_bytes
      → (tkb_loc == loc) ≡ false
      → (tpb_loc == loc) ≡ false
      → (rxdb == loc) ≡ false
      → IsWired m
      → direct_read_word c loc m ≡ done (word_at loc m, m)
  plain_read loc m fits a b d h = read_lem loc m fits h ∙ rw (a, b, d) refl

  pub plain_write :
      (loc v : ℕ) (m : Memory)
      → loc + 1 < mem_bytes
      → v < 2 ^ 16
      → (rxdb == loc) ≡ false
      → IsWired m
      → direct_write_word c loc v m ≡ done (tt, with_word loc v m)
  plain_write loc v m fits lt d h = write_lem loc v m fits lt h ∙ rw d refl

  handler_lem : (e : Effect) (m : Memory) → IsWired m → handler_of c e m ≡ done (tt, effect_of e m)
  unfolding read_tkb clear_tkb clear_flags_tks clear_tpb clear_rxdb clear_rxcs ◌>>=◌ ◌>>◌
  handler_lem read_tkb_effect m h =
      let h' = with_word-IsWired tkb_loc 0 m (omega arith) h in
      rw
        (
          plain_write tkb_loc 0 m (omega arith) (omega arith) refl h,
          plain_write tks_loc 0 _ (omega arith) (omega arith) refl h',
        )
        refl
  handler_lem clear_tpb_effect m h =
      let h' = with_word-IsWired tpb_loc 0 m (omega arith) h in
      let lt =
        bit_or-lt 16 (word_at tps_loc m) tps_ready (word_at-lt tps_loc m h.bytes) (omega arith) in
      rw
        (
          plain_read tps_loc m (omega arith) refl refl refl h,
          plain_write tpb_loc 0 m (omega arith) (omega arith) refl h,
          plain_write tps_loc _ _ (omega arith) lt refl h',
        )
        refl
  handler_lem clear_rxdb_effect m h =
      let h' = with_word-IsWired rxdb 0 m (omega arith) h in
      let lt =
        without_xfer-lt (word_at rxcs (with_word rxdb 0 m))
          (word_at-lt rxcs (with_word rxdb 0 m) h'.bytes) in
      rw
        (
          direct_write_word_n_lem rxdb 0 m (omega arith) (omega arith),
          plain_read rxcs _ (omega arith) refl refl refl h',
          direct_write_word_n_lem rxcs _ _ (omega arith) lt,
        )
        refl
  handler_lem clear_rxcs_effect m h =
      let lt = without_xfer-lt (word_at rxcs m) (word_at-lt rxcs m h.bytes) in
      rw
        (
          plain_read rxcs m (omega arith) refl refl refl h,
          direct_write_word_n_lem rxcs _ m (omega arith) lt,
        )
        refl

module _ (depth : ℕ) where
  pub call_lem :
      (e : Effect) (m : Memory) → IsWired m → call (suc depth) e m ≡ done (tt, effect_of e m)
  unfolding call
  call_lem e m h = handler_lem (call depth) e m h

  -- With the side effects that the program registers and bytes in the memory, nested calls of
  -- handlers end at every depth from one on, with the same result: a read of a word inside the array
  -- gives it, and a read at TKB clears TKB and TKS, one at TPB clears TPB and makes TPS ready, one at
  -- RXDB clears RXDB and the transfer flag of RXCS; any other leaves the memory. A write puts the
  -- word, and at RXDB clears the transfer flag.
  pub access_lem :
      (loc v : ℕ) (m : Memory)
      → loc + 1 < mem_bytes
      → v < 2 ^ 16
      → IsWired m
      → (direct_read_word (call (suc depth)) loc m ≡ done (word_at loc m, after_read loc m))
        × (direct_write_word (call (suc depth)) loc v m ≡ done (tt, after_write loc v m))
  access_lem loc v m fits lt h =
      let h' = with_word-IsWired loc v m lt h in
      (
        read_lem (call (suc depth)) loc m fits h
            ∙ ground (
              arith,
              call_lem read_tkb_effect m h,
              call_lem clear_tpb_effect m h,
              call_lem clear_rxdb_effect m h,
            ),
        write_lem (call (suc depth)) loc v m fits lt h
            ∙ ground (arith, call_lem clear_rxcs_effect (with_word loc v m) h'),
      )

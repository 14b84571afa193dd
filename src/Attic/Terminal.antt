-- ===== src/Attic/Terminal.antt =====
-- The terminal of the earlier emulator, attic/src/tty.c.
use xmachine.Base.{
  ℕ, suc, ◌^◌, ◌<◌, ◌≡◌, refl, ◌∙◌, arith, bit_and, bit_xor, ◌==◌, if◌then◌else◌, true, false, Bool,
  List, ◌∷◌,
}
use xmachine.Outcome.{done}
use xmachine.Attic.State.{
  Effect, read_tkb_effect, clear_tpb_effect, Memory, Emulator, Command, ◌>>=◌, ◌>>◌, skip,
  on_memory,
}
use xmachine.Attic.Memory.{
  process_read_side_effects, direct_read_byte, direct_read_word, read_word, write_word,
}
use xmachine.Attic.Effects.{tks_loc, tkb_loc, tps_loc, tpb_loc, tps_ready, call}
use xmachine.Attic.Registers.{word_at, with_word, get_byte_lem}
use xmachine.Attic.Effects.Table.{IsWired, read_table, with_word-IsWired}
use xmachine.Attic.Effects.Access.{effect_of, plain_read, plain_write, call_lem, access_lem}
use xmachine.Attic.Run.{
  tks_rdrenb, tks_done, tks_busy, fgetc, fputc, fill_buffer_tkb, exec_tty_kb, clear_flags_tps,
  fetch_buffer_tpb, exec_tty_print,
}

module _ (depth : ℕ) where
  abbrev effects : Effect → Command Memory (Unit {0})
  effects = call (suc depth)

  -- The buffer read and emptied, TPS ready again.
  abbrev emptied : Memory → Memory
  emptied m = with_word tps_loc tps_ready (with_word tpb_loc 0 (with_word tps_loc 0 m))

  buffer_read :
      (m : Memory)
      → IsWired m
      → direct_read_byte effects tpb_loc m ≡ done (m.cells tpb_loc, effect_of clear_tpb_effect m)
  unfolding direct_read_byte process_read_side_effects ◌>>=◌ ◌>>◌
  buffer_read m h =
      let tabled : IsWired (record m { read_side_effects = read_table }) = record {
        bytes = h.bytes;
        read_effects = refl;
        write_effects = h.write_effects;
      } in
      rw
        (
          get_byte_lem tpb_loc m (omega arith),
          h.read_effects,
          call_lem depth clear_tpb_effect (record m { read_side_effects = read_table }) tabled,
        )
        refl

  abbrev shown : Bool → ℕ → List ℕ → List ℕ
  shown empty b output = if empty then output else b ∷ output

  put_char :
      (empty : Bool) (b : ℕ) (s : Emulator)
      → (if empty then skip else fputc b) s
        ≡ done (tt, record s { output = shown empty b s.output })
  unfolding fputc
  put_char true b s = refl
  put_char false b s = refl

  print_lem :
      (s : Emulator)
      → (bit_and (word_at tps_loc s.memory) tps_ready == 0) ≡ false
      → IsWired s.memory
      → exec_tty_print effects s
        ≡ done (
          tt,
          record s {
            memory = emptied s.memory;
            output = shown (s.memory.cells tpb_loc == 0) (s.memory.cells tpb_loc) s.output;
          },
        )
  unfolding exec_tty_print clear_flags_tps fetch_buffer_tpb ◌>>=◌ ◌>>◌ on_memory
  print_lem s ready h =
      let m : Memory = s.memory in
      let h' = with_word-IsWired tps_loc 0 m (omega arith) h in
      rw
        (
          plain_read effects tps_loc m (omega arith) refl refl refl h,
          ready,
          plain_write effects tps_loc 0 m (omega arith) (omega arith) refl h,
          buffer_read (with_word tps_loc 0 m) h',
          put_char (m.cells tpb_loc == 0) (m.cells tpb_loc) (record s { memory = emptied m }),
        )
        refl

  -- With READY in TPS and the program's side effects over a memory of bytes, `exec_tty_print` returns
  -- at every depth of nested handlers from one on: it has printed the byte of TPB unless that is 0,
  -- emptied TPB and left TPS with READY alone, so that running it again prints nothing more.
  pub prints_once :
      (s : Emulator)
      → (bit_and (word_at tps_loc s.memory) tps_ready == 0) ≡ false
      → IsWired s.memory
      → (s' s'' : Emulator) × (exec_tty_print effects s ≡ done (tt, s'))
        × (s'.output
            ≡ (if s.memory.cells tpb_loc == 0 then s.output else s.memory.cells tpb_loc ∷ s.output))
        × (word_at tpb_loc s'.memory ≡ 0)
        × (word_at tps_loc s'.memory ≡ tps_ready)
        × (exec_tty_print effects s' ≡ done (tt, s''))
        × (s''.output ≡ s'.output)
  prints_once s ready h =
      let m : Memory = s.memory in
      let s' : Emulator = record s {
        memory = emptied m;
        output = shown (m.cells tpb_loc == 0) (m.cells tpb_loc) s.output;
      } in
      let cleared = with_word-IsWired tps_loc 0 m (omega arith) h in
      let empty = with_word-IsWired tpb_loc 0 (with_word tps_loc 0 m) (omega arith) cleared in
      let wired = with_word-IsWired tps_loc tps_ready _ (omega arith) empty in
      (s', _, print_lem s ready h, refl, refl, refl, print_lem s' refl wired, refl)

  -- The memory once a character is read for the program.
  abbrev typed_in : ℕ → Memory → Memory
  typed_in k m = with_word tks_loc tks_done (
      with_word tkb_loc k (
        with_word tks_loc (bit_xor tks_rdrenb tks_busy)
          (record m { src = tks_loc; dest = tks_loc })))

  typed_in-IsWired : (k : ℕ) (m : Memory) → k < 2 ^ 16 → IsWired m → IsWired (typed_in k m)
  typed_in-IsWired k m lt h =
      let aimed : IsWired (record m { src = tks_loc; dest = tks_loc }) = record {
        bytes = h.bytes;
        read_effects = h.read_effects;
        write_effects = h.write_effects;
      } in
      let busy = with_word-IsWired tks_loc (bit_xor tks_rdrenb tks_busy) _ (omega arith) aimed in
      with_word-IsWired tks_loc tks_done _ (omega arith) (with_word-IsWired tkb_loc k _ lt busy)

  key_lem :
      (s : Emulator) (k : ℕ) (typed : List ℕ)
      → s.input ≡ k ∷ typed
      → k < 2 ^ 16
      → word_at tks_loc s.memory ≡ tks_rdrenb
      → IsWired s.memory
      → exec_tty_kb effects s ≡ done (tt, record s { memory = typed_in k s.memory; input = typed })
  unfolding exec_tty_kb fill_buffer_tkb fgetc read_word write_word ◌>>=◌ ◌>>◌ on_memory
  key_lem s k typed input lt asked h =
      let aimed : IsWired (record s.memory { src = tks_loc; dest = tks_loc }) = record {
        bytes = h.bytes;
        read_effects = h.read_effects;
        write_effects = h.write_effects;
      } in
      let busy = with_word-IsWired tks_loc (bit_xor tks_rdrenb tks_busy) _ (omega arith) aimed in
      let filled = with_word-IsWired tkb_loc k _ lt busy in
      rw
        (
          plain_read effects tks_loc (record s.memory { src = tks_loc; dest = tks_loc })
              (omega arith) refl refl refl aimed,
          asked,
          plain_write effects tks_loc (bit_xor tks_rdrenb tks_busy) _ (omega arith) (omega arith)
              refl aimed,
          input,
          plain_write effects tkb_loc k _ (omega arith) lt refl busy,
          plain_write effects tks_loc tks_done _ (omega arith) (omega arith) refl filled,
        )
        refl

  -- When the program has asked for a character, with RDRENB alone in TKS, and the next one typed is a
  -- 16-bit `k`, `exec_tty_kb` returns with `k` taken from the input and DONE alone in TKS. Then
  -- a read of TKB gives `k`, and leaves TKB and TKS zero. The program's side effects must be in the
  -- memory, which holds bytes.
  pub reads_key :
      (s : Emulator) (k : ℕ) (typed : List ℕ)
      → s.input ≡ k ∷ typed
      → k < 2 ^ 16
      → word_at tks_loc s.memory ≡ tks_rdrenb
      → IsWired s.memory
      → (s' : Emulator) × (m : Memory) × (exec_tty_kb effects s ≡ done (tt, s'))
        × (s'.input ≡ typed)
        × (word_at tks_loc s'.memory ≡ tks_done)
        × (direct_read_word effects tkb_loc s'.memory ≡ done (k, m))
        × (word_at tkb_loc m ≡ 0)
        × (word_at tks_loc m ≡ 0)
  reads_key s k typed input lt asked h =
      let m : Memory = typed_in k s.memory in
      let kept : word_at tkb_loc m ≡ k = ground arith in
      let given =
        (access_lem depth tkb_loc 0 m (omega arith) (omega arith)
          (typed_in-IsWired k s.memory lt h)).0 in
      (
        record s { memory = m; input = typed },
        effect_of read_tkb_effect m,
        key_lem s k typed input lt asked h,
        refl,
        refl,
        given ∙ rw kept refl,
        refl,
        refl,
      )

-- ===== src/Attic/Run.antt =====
-- attic/src/tty.c: the terminal, and attic/src/machine.c: the loop of the emulator, without stepping.
use xmachine.Base.{
  ℕ, zero, suc, bit_and, bit_xor, ◌==◌, if◌then◌else◌, false, Option, none, some, List, [], ◌∷◌,
}
use xmachine.Outcome
use xmachine.Outcome.{Outcome, done}
use xmachine.Attic.State.{
  Effect, read_tkb_effect, clear_tpb_effect, Memory, Emulator, Command, ◌>>=◌, ◌>>◌, skip, assign,
  on_memory,
}
use xmachine.Attic.Memory.{
  r_pc, get_r, word_advance_r, direct_read_word, direct_read_byte, direct_write_word, read_word,
  write_word, register_read_side_effect,
}
use xmachine.Attic.Effects.{tks_loc, tkb_loc, tps_loc, tpb_loc, tps_ready, initialize_memory}
use xmachine.Attic.Decode.{exec_instruction}

abbrev pub tks_rdrenb : ℕ
tks_rdrenb = 0o1

abbrev pub tks_done : ℕ
tks_done = 0o200

abbrev pub tks_busy : ℕ
tks_busy = 0o4000

-- `(uint16_t) fgetc(stdin)`: -1 at the end.
abbrev next_char : List ℕ → ℕ × List ℕ
next_char [] = (0xffff, [])
next_char (c ∷ rest) = (c, rest)

unfoldable pub fgetc : Command Emulator ℕ
fgetc s = let (c, rest) = next_char s.input in done (c, record s { input = rest })

unfoldable pub fputc : ℕ → Command Emulator (Unit {0})
fputc c s = done (tt, record s { output = c ∷ s.output })

module _ (call : Effect → Command Memory (Unit {0})) where
  unfoldable pub fill_buffer_tkb : Command Emulator (Unit {0})
  unfolding ◌>>=◌ fgetc
  fill_buffer_tkb = do c ← fgetc; on_memory (direct_write_word call tkb_loc c)

  -- A request for a character is served at once.
  abbrev serve : ℕ → Command Emulator (Unit {0})
  serve tks = do
    let busy = bit_xor tks tks_busy
    on_memory (write_word call busy)
    fill_buffer_tkb
    on_memory (write_word call (bit_xor (bit_xor (bit_xor busy tks_done) tks_busy) tks_rdrenb))

  unfoldable pub exec_tty_kb : Command Emulator (Unit {0})
  unfolding ◌>>=◌ ◌>>◌ fill_buffer_tkb
  exec_tty_kb = do
    on_memory (assign (λ m. record m { src = tks_loc; dest = tks_loc }))
    tks ← on_memory (read_word call)
    if bit_and tks tks_rdrenb == 0 then skip else serve tks

  unfoldable pub clear_flags_tps : Command Emulator (Unit {0})
  clear_flags_tps = on_memory (direct_write_word call tps_loc 0)

  unfoldable pub fetch_buffer_tpb : Command Emulator ℕ
  fetch_buffer_tpb = on_memory (direct_read_byte call tpb_loc)

  abbrev print : Command Emulator (Unit {0})
  print = do clear_flags_tps; c ← fetch_buffer_tpb; if c == 0 then skip else fputc c

  unfoldable pub exec_tty_print : Command Emulator (Unit {0})
  unfolding ◌>>=◌ ◌>>◌ clear_flags_tps fetch_buffer_tpb fputc
  exec_tty_print = do
    tps ← on_memory (direct_read_word call tps_loc)
    if bit_and tps tps_ready == 0 then skip else print

  -- The terminal's own mode is not modelled.
  unfoldable pub init_tty_subsystem : Command Memory (Unit {0})
  unfolding ◌>>=◌ ◌>>◌
  init_tty_subsystem = do
    tkb ← register_read_side_effect tkb_loc read_tkb_effect
    tpb ← register_read_side_effect tpb_loc clear_tpb_effect
    direct_write_word call tps_loc tps_ready

  -- The machine at its start, in the memory that `malloc` gives, with what will be typed. `new_disk`
  -- and the disk's thread come after it.
  unfoldable pub init_machine : Memory → List ℕ → Outcome Emulator
  unfolding init_tty_subsystem initialize_memory
  init_machine fresh typed =
      Outcome.◌>>=◌ (init_tty_subsystem (record (initialize_memory fresh) { bus_shutdown = false }))
        λ r.
          done
            (record { alu = 0; ir = 0; halted = false; memory = r.1; input = typed; output = [] })

  -- The body of the loop.
  unfoldable pub cycle : Command Emulator (Unit {0})
  unfolding ◌>>=◌ ◌>>◌ exec_instruction exec_tty_kb exec_tty_print
  cycle = do
    pc ← on_memory (get_r r_pc)
    on_memory (assign (λ m. record m { src = pc }))
    word ← on_memory (read_word call)
    assign (λ s. record s { ir = word })
    on_memory (word_advance_r r_pc)
    exec_instruction call
    exec_tty_kb
    exec_tty_print

  abbrev shut : Emulator → Emulator
  shut s = record s { memory = record s.memory { bus_shutdown = s.halted } }

  -- The loop with fuel: `none` while the machine still runs when the fuel is spent.
  unfoldable pub run_machine : ℕ → Emulator → Outcome (Option Emulator)
  unfolding cycle
  run_machine zero s = if s.halted then done (some (shut s)) else done none
  run_machine (suc fuel) s =
      let rest = Outcome.◌>>=◌ (cycle s) (λ r. run_machine fuel r.1) in
      if s.halted then done (some (shut s)) else rest

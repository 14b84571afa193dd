-- ===== src/Examples/AtticWitnesses.antt =====
-- The theorems on the earlier emulator, applied to a concrete memory, machine and disk.
use xmachine.Base.{get_elem?, ◌+◌, ◌*◌, ℕ, ◌≡◌, refl, arith, inl, true, false, some, List, [], ◌∷◌}
use xmachine.Outcome.{done}
use xmachine.Attic.State.{Memory, Emulator}
use xmachine.Attic.Memory.{get_r, set_r, direct_read_word, direct_write_word}
use xmachine.Attic.Effects.{tks_loc, tkb_loc, tps_loc, tpb_loc, tps_ready, rxcs, rxdb, call}
use xmachine.Attic.Registers.{word_at, with_word, reg_loc, get_r-set_r}
use xmachine.Attic.Effects.Table.{IsWired, read_table, write_table, with_word-IsWired}
use xmachine.Attic.Effects.Access.{access_lem}
use xmachine.Attic.Agreement.Words.{Agrees, emulators_agree}
use xmachine.Attic.Agreement.Jumps.{AgreesWithCodes, branches_agree}
use xmachine.Attic.Run.{tks_rdrenb, tks_done, exec_tty_kb, exec_tty_print, init_machine}
use xmachine.Attic.Terminal.{prints_once, reads_key}
use xmachine.Attic.Disk.{Drive, Disk, new_disk}
use xmachine.Attic.Disk.Commands.{start_disk_subsystem}
use xmachine.Attic.Disk.Bounds.{IsDisk}
use xmachine.Attic.Disk.Loop.{Kept}
use xmachine.Attic.Start.{start_in_bounds}
use xmachine.Attic.Objects.{load_program_from_obj}
use xmachine.Attic.Objects.Blocks.{object_file, text_block}
use xmachine.Examples.ObjectFiles.{File, file_stream, file_laws}
use xmachine.Attic.Objects.Loading.{load_program_from_obj_lem}
use xmachine.Attic.Decode as Earlier
use xmachine.Cpu.Decode as Later
use xmachine.Cpu.Decode.{OpCode}
use xmachine.Cpu.Registers.{r1}
use xmachine.Cpu.State.{Machine, init_cpu}
use xmachine.Unibus.Link.{System, linked}
use xmachine.Examples.Programs.{machine_of}

-- A memory of zeros with the program's side effects, and one word in it.
abbrev empty : Memory
empty = record {
  dest = 0;
  src = 0;
  read_side_effects = read_table;
  write_side_effects = write_table;
  cells = λ loc. 0;
  bus_shutdown = false;
}

empty-IsWired : IsWired empty
empty-IsWired = record { bytes = λ j. omega arith; read_effects = refl; write_effects = refl }

abbrev holding : ℕ → ℕ → Memory
holding loc v = with_word loc v empty

abbrev emulator_with : Memory → List ℕ → Emulator
emulator_with m typed = record {
  alu = 0;
  ir = 0o5201;
  halted = false;
  memory = m;
  input = typed;
  output = [];
}

get_r-set_r_example :
    (m' : Memory) × (set_r 3 0x1234 empty ≡ done (tt, m'))
    × (get_r 3 empty ≡ done (0, empty))
    × (get_r 3 m' ≡ done (0x1234, m'))
    × (m'.cells 100 ≡ 0)
get_r-set_r_example =
    get_r-set_r 3 3 0x1234 100 empty (omega arith) (omega arith) (omega arith) (inl (omega arith))
      empty-IsWired.bytes

access_lem_example :
    (direct_read_word (call 1) tkb_loc (holding tkb_loc 65)
      ≡ done (65, with_word tks_loc 0 (with_word tkb_loc 0 (holding tkb_loc 65))))
    × (direct_write_word (call 1) tkb_loc 7 (holding tkb_loc 65)
        ≡ done (tt, with_word tkb_loc 7 (holding tkb_loc 65)))
access_lem_example =
    access_lem 0 tkb_loc 7 (holding tkb_loc 65) (omega arith) (omega arith)
      (with_word-IsWired tkb_loc 65 empty (omega arith) empty-IsWired)

-- INC R1, with 0xffff in R1: the result is 0, which the processor alone shows in Z.
abbrev earlier : Emulator
earlier = emulator_with (holding (reg_loc 1) 0xffff) []

abbrev later : Machine System
later = record (machine_of []) { cpu = record init_cpu { r1 = 0xffff; ir = 0o5201 } }

emulators_agree_example :
    (s' : Emulator) × (t' : Machine System) × (Earlier.exec_instruction (call 1) earlier
      ≡ done (tt, s'))
    × (Later.exec_instruction ⦃bus = linked 0⦄ later ≡ done (tt, t'))
    × Agrees s' t'.cpu
    × ((word_at (reg_loc 8) s'.memory ≡ 0) × (t'.cpu.psw ≡ 4))
    × IsWired s'.memory
unfolding Later.decode
emulators_agree_example =
    emulators_agree (call 1) r1 earlier (omega arith) refl refl
      (with_word-IsWired (reg_loc 1) 0xffff empty (omega arith) empty-IsWired) ⦃bus = linked 0⦄
      OpCode.inc_op later refl refl refl
      (record {
        r0 = refl;
        r1 = refl;
        r2 = refl;
        r3 = refl;
        r4 = refl;
        r5 = refl;
        sp = refl;
        pc = refl;
      })
      refl

-- BNE by three words, at 100, with Z clear.
abbrev turning : Emulator
turning = record (emulator_with (holding (reg_loc 7) 100) []) { ir = 0o1003 }

abbrev turning_too : Machine System
turning_too = record (machine_of []) { cpu = record init_cpu { pc = 100; ir = 0o1003 } }

branches_agree_example :
    (s' : Emulator) × (t' : Machine System) × (Earlier.exec_instruction (call 1) turning
      ≡ done (tt, s'))
    × (Later.exec_instruction ⦃bus = linked 0⦄ turning_too ≡ done (tt, t'))
    × AgreesWithCodes s' t'.cpu
unfolding Later.decode
branches_agree_example =
    branches_agree (call 1) ⦃bus = linked 0⦄ OpCode.bne_op true turning turning_too refl refl refl
      (
        record {
          r0 = refl;
          r1 = refl;
          r2 = refl;
          r3 = refl;
          r4 = refl;
          r5 = refl;
          sp = refl;
          pc = refl;
        },
        refl,
      )
      (λ e. inl (omega arith))
      (with_word-IsWired (reg_loc 7) 100 empty (omega arith) empty-IsWired).bytes

-- TPB holds the character 65, and TPS is ready.
abbrev printing : Emulator
printing = emulator_with (with_word tpb_loc 65 (holding tps_loc tps_ready)) []

prints_once_example :
    (s' s'' : Emulator) × (exec_tty_print (call 1) printing ≡ done (tt, s'))
    × (s'.output ≡ 65 ∷ [])
    × (word_at tpb_loc s'.memory ≡ 0)
    × (word_at tps_loc s'.memory ≡ tps_ready)
    × (exec_tty_print (call 1) s' ≡ done (tt, s''))
    × (s''.output ≡ s'.output)
prints_once_example = prints_once 0 printing refl (
    with_word-IsWired tpb_loc 65 (holding tps_loc tps_ready) (omega arith)
      (with_word-IsWired tps_loc tps_ready empty (omega arith) empty-IsWired))

-- The program asks for a character, and 66 is typed.
abbrev asking : Emulator
asking = emulator_with (holding tks_loc tks_rdrenb) (66 ∷ [])

reads_key_example :
    (s' : Emulator) × (m : Memory) × (exec_tty_kb (call 1) asking ≡ done (tt, s'))
    × (s'.input ≡ [])
    × (word_at tks_loc s'.memory ≡ tks_done)
    × (direct_read_word (call 1) tkb_loc s'.memory ≡ done (66, m))
    × (word_at tkb_loc m ≡ 0)
    × (word_at tks_loc m ≡ 0)
reads_key_example =
    reads_key 0 asking 66 [] refl (omega arith) refl
      (with_word-IsWired tks_loc tks_rdrenb empty (omega arith) empty-IsWired)

-- A drive whose reads give two bytes. The machine asks for a sector to be read, then gives its number.
abbrev short_drive : Drive (List ℕ)
short_drive = record {
  read_at = λ offset n file. (1 ∷ 2 ∷ [], file);
  write_at = λ offset bytes file. bytes;
}

abbrev requests : List (Memory → Memory)
requests = with_word rxcs 7 ∷ (λ m. with_word rxcs 0 (with_word rxdb 5 m)) ∷ []

requests-Kept : Kept requests
requests-Kept = (
  λ m h. with_word-IsWired rxcs 7 m (omega arith) h,
  (
    λ m h.
        with_word-IsWired rxcs 0 (with_word rxdb 5 m) (omega arith)
          (with_word-IsWired rxdb 5 m (omega arith) h),
    tt,
  ),
)

start_in_bounds_example :
    (s : Emulator) × (d : Disk (List ℕ)) × (init_machine (call 1) empty [] ≡ done s)
    × (start_disk_subsystem short_drive (call 1) requests (new_disk (some []) s.memory) ≡ done d)
    × (s.halted ≡ false)
    × IsDisk d
start_in_bounds_example =
    start_in_bounds (call 1) short_drive (some []) empty [] requests requests-Kept

-- A block of tag 1, then the text INC R1; HALT for address 512, whose length counts the checksum 99.
abbrev incrementing : File
incrementing = (
  [],
  object_file ((1, 7 ∷ [], 8) ∷ []) (text_block 13 512 (0x81 ∷ 10 ∷ 0 ∷ 0 ∷ 99 ∷ 1 ∷ 0 ∷ [])),
  false,
)

load_program_from_obj_lem_example :
    (f' : File) × (m' : Memory) × (load_program_from_obj file_stream
        (call 1)
        2
        0
        (some incrementing)
        empty
      ≡ done (some f', m'))
    × (get_r 7 m' ≡ done (512, m'))
    × ((i w : ℕ) → get_elem? (0o5201 ∷ 0 ∷ []) i ≡ some w → word_at (512 + 2 * i) m' ≡ w)
    × (word_at 516 m' ≡ 355)
    × IsWired m'
unfolding file_laws
load_program_from_obj_lem_example =
    load_program_from_obj_lem file_stream file_laws (call 1) 0 0 512 355 true ((1, 7 ∷ [], 8) ∷ [])
      (0o5201 ∷ 0 ∷ []) (0 ∷ []) incrementing empty (omega arith, tt)
      (omega arith, (omega arith, tt)) (omega arith) (omega arith) (refl, refl) empty-IsWired

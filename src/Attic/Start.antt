-- ===== src/Attic/Start.antt =====
-- The memory of the earlier machine after its start, attic/src/machine.c and attic/src/disk.c.
use xmachine.Base.{ℕ, ◌≡◌, refl, arith, true, false, Option, none, some, List, [], ◌∷◌, replicate}
use xmachine.Outcome.{done}
use xmachine.Attic.State.{
  Effect, read_tkb_effect, clear_tpb_effect, Memory, Emulator, Command, ◌>>=◌, ◌>>◌,
}
use xmachine.Attic.Memory.{
  find_effect, process_write_side_effects, direct_write_word, enter, register_read_side_effect,
  register_write_side_effect,
}
use xmachine.Attic.Effects.{tkb_loc, tps_loc, tpb_loc, tps_ready, initialize_memory}
use xmachine.Attic.Registers.{with_word, direct_write_word_n_lem}
use xmachine.Attic.Effects.Table.{IsWired, read_table, write_table}
use xmachine.Attic.Run.{init_tty_subsystem, init_machine}
use xmachine.Attic.Disk.{Drive, Disk, in_memory, new_disk}
use xmachine.Attic.Disk.Commands.{register_disk, start_disk_subsystem}
use xmachine.Attic.Disk.Bounds.{IsDisk}
use xmachine.Attic.Disk.Loop.{Kept, exec_disk_in_bounds}

module _ (c : Effect → Command Memory (Unit {0})) where
  -- The memory after `init_machine`.
  abbrev started : Memory → Memory
  started fresh = with_word tps_loc tps_ready (record fresh {
    read_side_effects =
        (tkb_loc, some read_tkb_effect)
        ∷ (tpb_loc, some clear_tpb_effect)
        ∷ replicate 18 (0xffff, none);
    write_side_effects = replicate 20 (0xffff, none);
    cells = λ loc. 0;
    bus_shutdown = false;
  })

  init_machine_lem :
      (fresh : Memory) (typed : List ℕ)
      → init_machine c fresh typed
        ≡ done (record {
          alu = 0;
          ir = 0;
          halted = false;
          memory = started fresh;
          input = typed;
          output = [];
        })
  unfolding init_machine init_tty_subsystem initialize_memory ◌>>=◌ ◌>>◌ direct_write_word
      register_read_side_effect enter process_write_side_effects find_effect
  init_machine_lem fresh typed =
      rw (direct_write_word_n_lem tps_loc tps_ready _ (omega arith) (omega arith)) refl

  registered :
      (fresh : Memory)
      → IsWired (record (started fresh) {
        read_side_effects = read_table;
        write_side_effects = write_table;
      })
  registered fresh = record { bytes = λ j. ground arith; read_effects = refl; write_effects = refl }

  register_disk_lem :
      (fresh : Memory)
      → register_disk (started fresh)
        ≡ done (
          true,
          record (started fresh) {
            read_side_effects = read_table;
            write_side_effects = write_table;
          },
        )
  unfolding register_disk ◌>>=◌ register_read_side_effect register_write_side_effect enter
  register_disk_lem fresh = refl

  -- Whatever memory `malloc` gives, `init_machine` ends with the machine running, and the disk that
  -- `new_disk` makes beside it, started over that memory, returns from any number of rounds: it never
  -- leaves its sector buffer or the memory, nor calls a null handler, whatever the machine's thread
  -- makes of the memory between the rounds, as long as its bytes and side effects stay.
  pub start_in_bounds :
      {F : Type 0} (drive : Drive F) (image : Option F) (fresh : Memory) (typed : List ℕ)
      (between : List (Memory → Memory))
      → Kept between
      → (s : Emulator) × (d : Disk F) × (init_machine c fresh typed ≡ done s)
        × (start_disk_subsystem drive c between (new_disk image s.memory) ≡ done d)
        × (s.halted ≡ false)
        × IsDisk d
  unfolding start_disk_subsystem in_memory new_disk
  start_in_bounds {F} drive image fresh typed between kept =
      let linked : Memory = record (started fresh) {
        read_side_effects = read_table;
        write_side_effects = write_table;
      } in
      let disk : Disk F = new_disk image linked in
      let first : IsDisk disk = record {
        index = omega arith;
        sector = omega arith;
        track = omega arith;
        memory = registered fresh;
      } in
      let (d, ended, within) = exec_disk_in_bounds drive c between disk kept first in
      (_, d, init_machine_lem fresh typed, rw (register_disk_lem fresh) ended, refl, within)

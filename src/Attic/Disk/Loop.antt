-- ===== src/Attic/Disk/Loop.antt =====
-- The loop of the earlier disk, round by round.
use xmachine.Base.{
  ℕ, ◌≤◌, ◌≡◌, refl, sym, subst, arith, bit_and, ◌==◌, if◌then◌else◌, true, false, Bool, ◌&&◌, ◌||◌,
  not, Option, none, some, List, [], ◌∷◌,
}
use xmachine.Outcome.{Outcome, done, Ends, ends, Ends-bind, Ends-done}
use xmachine.Cpu.Registers.{switch}
use xmachine.Attic.State.{Effect, Memory, Command, ◌>>=◌, ◌>>◌}
use xmachine.Attic.Effects.{rxcs_xfer}
use xmachine.Attic.Effects.Table.{IsWired}
use xmachine.Attic.Disk.{
  rxcs_go, f_fill_buffer, f_empty_buffer, f_write_sector, f_read_sector, DiskState, DiskFunc,
  s_begin, s_sector, s_track, s_fill, s_empty, s_write, s_read, s_done, is_func, is_state, Drive,
  Disk,
}
use xmachine.Attic.Disk.Commands.{
  take_sector, take_track, write_media, read_media, media_done, transfer, write_sector, read_sector,
  start_function, start, finished, round, exec_disk,
}
use xmachine.Attic.Disk.Bounds.{
  IsDisk, Keeps, by_cases, flags-Returns, raise-Keeps, write-Keeps, byte-Returns, fill_buffer-Keeps,
  empty_buffer-Keeps,
}

module _ {F : Type 0} (drive : Drive F) (c : Effect → Command Memory (Unit {0})) where
  take_sector-Keeps :
      (flags : ℕ) (d : Disk F) → IsDisk d → Keeps drive c (take_sector drive c flags) d
  unfolding ◌>>=◌ ◌>>◌
  take_sector-Keeps flags d h = Ends-bind (byte-Returns drive c d h) λ r p.
      raise-Keeps drive c _ _
        (record { index = p.0.0.index; sector = p.1; track = p.0.0.track; memory = p.0.0.memory })

  take_track-Keeps :
      (next : DiskState) (d : Disk F) → IsDisk d → Keeps drive c (take_track drive c next) d
  unfolding ◌>>=◌
  take_track-Keeps next d h = Ends-bind (byte-Returns drive c d h) λ r p.
      ends
        (record { index = p.0.0.index; sector = p.0.0.sector; track = p.1; memory = p.0.0.memory })

  -- The file is reached from a disk whose memory and index stay.
  abbrev OnMedia : (Disk F → Disk F) → Type 0
  OnMedia media = (d : Disk F) → ((media d).index ≡ d.index) × ((media d).memory ≡ d.memory)

  write-OnMedia : (o : Option F) → OnMedia (write_media drive c o)
  write-OnMedia none d = (refl, refl)
  write-OnMedia (some file) d = (refl, refl)

  read-OnMedia : (o : Option F) → OnMedia (read_media drive c o)
  read-OnMedia none d = (refl, refl)
  read-OnMedia (some file) d = (refl, refl)

  media_done-Keeps :
      (media : Disk F → Disk F) (d : Disk F)
      → OnMedia media
      → IsDisk d
      → Keeps drive c (media_done drive c media) d
  media_done-Keeps media d same h =
      let (index, memory) = same d in
      ends (record {
        index = subst (λ i. i ≤ 128) (sym index) h.index;
        sector = omega arith;
        track = omega arith;
        memory = subst IsWired (sym memory) h.memory;
      })

  transfer-Keeps :
      (last : DiskState) (media : Disk F → Disk F) (d : Disk F)
      → OnMedia media
      → IsDisk d
      → Keeps drive c (transfer drive c last media) d
  unfolding ◌>>=◌
  transfer-Keeps last media d same h = Ends-bind (flags-Returns drive c d h) λ r p.
      let free = not (bit_and r.0 rxcs_xfer == rxcs_xfer) in
      by_cases (is_state r.1.state s_sector && free) _ _ r.1 (λ _. take_sector-Keeps r.0 r.1 p.0.0)
        λ _.
          by_cases (is_state r.1.state s_track && free) _ _ r.1
            (λ _. take_track-Keeps last r.1 p.0.0)
            λ _.
              by_cases (is_state r.1.state last) _ _ r.1
                (λ _. media_done-Keeps media r.1 same p.0.0) λ _. ends p.0.0

  command-IsDisk :
      (state : DiskState) (func : DiskFunc) (d : Disk F)
      → IsDisk d
      → IsDisk (record d { state = state; current_func = func })
  command-IsDisk state func d h = record {
    index = h.index;
    sector = h.sector;
    track = h.track;
    memory = h.memory;
  }

  start_function-Keeps :
      (function : ℕ) (d : Disk F) → IsDisk d → Keeps drive c (start_function drive c function) d
  unfolding start_function switch ◌>>=◌ ◌>>◌
  start_function-Keeps n d h =
      by_cases (n == 0) _ _ d
        (λ _.
          write-Keeps drive c rxcs_xfer _ (omega arith) (command-IsDisk s_fill f_fill_buffer d h))
        λ _.
          by_cases (n == 1) _ _ d (λ _. ends (command-IsDisk s_empty f_empty_buffer d h))
            λ _.
              by_cases (n == 2) _ _ d
                (λ _.
                  write-Keeps drive c rxcs_xfer _ (omega arith)
                    (command-IsDisk s_sector f_write_sector d h))
                λ _.
                  by_cases (n == 3) _ _ d
                    (λ _.
                      write-Keeps drive c rxcs_xfer _ (omega arith)
                        (command-IsDisk s_sector f_read_sector d h))
                    λ _. ends h

  start-Keeps : (flags : ℕ) (d : Disk F) → IsDisk d → Keeps drive c (start drive c flags) d
  unfolding ◌>>=◌ ◌>>◌
  start-Keeps flags d h =
      Ends-bind (write-Keeps drive c 0 d (omega arith) h) λ r p. start_function-Keeps _ r.1 p

  finished-Keeps : (flags : ℕ) (d : Disk F) → IsDisk d → Keeps drive c (finished drive c flags) d
  unfolding ◌>>=◌ ◌>>◌
  finished-Keeps flags d h = raise-Keeps drive c _ _ (command-IsDisk s_begin d.current_func d h)

  round-Keeps : (d : Disk F) → IsDisk d → Keeps drive c (round drive c) d
  unfolding round ◌>>=◌ write_sector read_sector
  round-Keeps d h = Ends-bind (flags-Returns drive c d h) λ r p.
      let state : DiskState = r.1.state in
      let func : DiskFunc = r.1.current_func in
      by_cases (not (bit_and rxcs_go r.0 == 0) && (is_state state s_begin || is_state state s_done))
        _ _ r.1 (λ _. start-Keeps r.0 r.1 p.0.0)
        λ _.
          by_cases (is_state state s_fill && is_func func f_fill_buffer) _ _ r.1
            (λ _. fill_buffer-Keeps drive c r.1 p.0.0)
            λ _.
              by_cases (is_state state s_empty && is_func func f_empty_buffer) _ _ r.1
                (λ _. empty_buffer-Keeps drive c r.1 p.0.0)
                λ _.
                  by_cases (is_func func f_read_sector) _ _ r.1
                    (λ _.
                      transfer-Keeps s_read (λ d. read_media drive c d.disk_drive d) r.1
                        (λ d. read-OnMedia d.disk_drive d) p.0.0)
                    λ _.
                      by_cases (is_func func f_write_sector) _ _ r.1
                        (λ _.
                          transfer-Keeps s_write (λ d. write_media drive c d.disk_drive d) r.1
                            (λ d. write-OnMedia d.disk_drive d) p.0.0)
                        λ _.
                          by_cases (is_state state s_done) _ _ r.1
                            (λ _. finished-Keeps r.0 r.1 p.0.0) λ _. ends p.0.0

-- What the machine's thread does to the memory between two rounds keeps it wired, with bytes.
abbrev pub Kept : List (Memory → Memory) → Type 0
Kept [] = Unit
Kept (change ∷ between) = ((m : Memory) → IsWired m → IsWired (change m)) × Kept between

either :
    {A : Type 0} {P : A → Type 0} (b : Bool) (x y : Outcome A)
    → Ends P x
    → Ends P y
    → Ends P (if b then x else y)
either true x y first second = first
either false x y first second = second

exec_disk-Ends :
    {F : Type 0} (drive : Drive F) (c : Effect → Command Memory (Unit {0}))
    (between : List (Memory → Memory)) (d : Disk F)
    → Kept between
    → IsDisk d
    → Ends IsDisk (exec_disk drive c between d)
unfolding exec_disk
exec_disk-Ends drive c [] d kept h = ends h
exec_disk-Ends drive c (change ∷ between) d kept h =
    let h' : IsDisk (record d { memory = change d.memory }) = record {
      index = h.index;
      sector = h.sector;
      track = h.track;
      memory = kept.0 d.memory h.memory;
    } in
    either d.memory.bus_shutdown _ _ (ends h) (
      Ends-bind (round-Keeps drive c (record d { memory = change d.memory }) h')
        λ r p. exec_disk-Ends drive c between r.1 kept.1 p)

-- From a disk with its index in 0..128, its sector and track bytes, and the program's side effects in
-- the memory, the loop of `exec_disk` returns for any number of rounds, whatever the machine's thread
-- makes of the memory between them, as long as bytes and side effects stay: it never leaves the
-- sector buffer or the memory, never follows a null handler, and ends in such a disk.
pub exec_disk_in_bounds :
    {F : Type 0} (drive : Drive F) (c : Effect → Command Memory (Unit {0}))
    (between : List (Memory → Memory)) (d : Disk F)
    → Kept between
    → IsDisk d
    → (d' : Disk F) × (exec_disk drive c between d ≡ done d') × IsDisk d'
exec_disk_in_bounds drive c between d kept h = Ends-done (exec_disk-Ends drive c between d kept h)

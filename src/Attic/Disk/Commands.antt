-- ===== src/Attic/Disk/Commands.antt =====
-- attic/src/disk.c: the commands of the disk, and the loop of `exec_disk`. Printing and sleeping are left
-- out.
use xmachine.Base.{
  ℕ, ◌+◌, ◌*◌, bit_and, bit_or, bit_xor, ◌>>>◌, u8, u32, ◌==◌, if◌then◌else◌, Bool, ◌&&◌, ◌||◌, not,
  Option, none, some, List, [], ◌∷◌, take,
}
use xmachine.Outcome
use xmachine.Outcome.{Outcome, done, out_of_bounds}
use xmachine.Cpu.Registers.{switch}
use xmachine.Attic.State.{
  Effect, clear_rxdb_effect, clear_rxcs_effect, Memory, Command, ◌>>=◌, ◌>>◌, skip, reads, assign,
}
use xmachine.Attic.Memory.{
  direct_read_word, direct_write_word, direct_write_word_or, direct_read_byte_n,
  direct_write_byte_n, register_read_side_effect, register_write_side_effect,
}
use xmachine.Attic.Effects.{rxcs, rxdb, rxcs_xfer}
use xmachine.Attic.Disk.{
  rxcs_go, rxcs_fs, rxcs_done, sector_size, DiskFunc, f_fill_buffer, f_empty_buffer, f_write_sector,
  f_read_sector, f_idle, DiskState, s_begin, s_sector, s_track, s_fill, s_empty, s_write, s_read,
  s_done, is_func, is_state, Drive, Disk, in_memory, put_buffer, bytes_from, put_bytes,
}

-- The registrations of `start_disk_subsystem`.
unfoldable pub register_disk : Command Memory Bool
unfolding ◌>>=◌
register_disk = do
  read_effect ← register_read_side_effect rxdb clear_rxdb_effect
  register_write_side_effect rxdb clear_rxcs_effect

module _ {F : Type 0} (drive : Drive F) (call : Effect → Command Memory (Unit {0})) where
  abbrev pub flags_of : Command (Disk F) ℕ
  flags_of = in_memory (direct_read_word call rxcs)

  abbrev pub raise : ℕ → Command (Disk F) (Unit {0})
  raise flags = in_memory (direct_write_word_or rxcs flags)

  -- The end of FILL and EMPTY.
  abbrev pub buffer_done : Command (Disk F) (Unit {0})
  buffer_done = assign (λ d. record d { index = 0; state = s_done; current_func = f_idle })

  abbrev pub advance : ℕ → Command (Disk F) (Unit {0})
  advance flags = do
    assign (λ d. record d { index = u8 (d.index + 1) })
    index ← reads (λ d. d.index)
    if index == sector_size
        then raise (bit_xor flags rxcs_done)
        else raise (bit_xor flags rxcs_xfer)

  abbrev pub fill_one : ℕ → Command (Disk F) (Unit {0})
  fill_one flags = do
    raise flags
    byte ← in_memory (direct_read_byte_n rxdb)
    put_buffer byte
    advance flags

  unfoldable pub fill_buffer : Command (Disk F) (Unit {0})
  unfolding ◌>>=◌ ◌>>◌
  fill_buffer = do
    flags ← flags_of
    index ← reads (λ d. d.index)
    if index == sector_size
        then buffer_done
        else if bit_and flags rxcs_xfer == rxcs_xfer
        then skip
        else fill_one flags

  -- The byte that is given is `disk->index`.
  abbrev pub empty_one : ℕ → Command (Disk F) (Unit {0})
  empty_one flags = do
    raise flags
    index ← reads (λ d. d.index)
    in_memory (direct_write_byte_n rxdb index)
    advance flags

  unfoldable pub empty_buffer : Command (Disk F) (Unit {0})
  unfolding ◌>>=◌ ◌>>◌
  empty_buffer = do
    flags ← flags_of
    index ← reads (λ d. d.index)
    if index == sector_size
        then buffer_done
        else if bit_and flags rxcs_xfer == rxcs_xfer
        then skip
        else empty_one flags

  abbrev pub take_sector : ℕ → Command (Disk F) (Unit {0})
  take_sector flags = do
    byte ← in_memory (direct_read_byte_n rxdb)
    assign (λ d. record d { sector = byte; state = s_track })
    raise (bit_xor flags rxcs_xfer)

  abbrev pub take_track : DiskState → Command (Disk F) (Unit {0})
  take_track next = do
    byte ← in_memory (direct_read_byte_n rxdb)
    assign (λ d. record d { track = byte; state = next })

  abbrev pub disk_offset : Disk F → ℕ
  disk_offset d = u32 (u32 (3328 * d.track) + 128 * d.sector)

  abbrev pub write_media : Option F → Disk F → Disk F
  write_media none d = d
  write_media (some file) d = record d {
    disk_drive = some (drive.write_at (disk_offset d) (bytes_from 0 sector_size d.buffer) file);
  }

  abbrev pub read_media : Option F → Disk F → Disk F
  read_media none d = d
  read_media (some file) d =
      let (bytes, file') = drive.read_at (disk_offset d) sector_size file in
      record d { disk_drive = some file'; buffer = put_bytes 0 (take sector_size bytes) d.buffer }

  abbrev pub media_done : (Disk F → Disk F) → Command (Disk F) (Unit {0})
  media_done media =
      assign
        (λ d. record (media d) { state = s_done; current_func = f_idle; sector = 0; track = 0 })

  -- Sector, then track, then the file: `last` is the state of the third.
  abbrev pub transfer : DiskState → (Disk F → Disk F) → Command (Disk F) (Unit {0})
  transfer last media = do
    flags ← flags_of
    state ← reads (λ d. d.state)
    let free = not (bit_and flags rxcs_xfer == rxcs_xfer)
    if is_state state s_sector && free
        then take_sector flags
        else if is_state state s_track && free
        then take_track last
        else if is_state state last
        then media_done media
        else skip

  unfoldable pub write_sector : Command (Disk F) (Unit {0})
  unfolding ◌>>=◌ ◌>>◌ bytes_from
  write_sector = transfer s_write (λ d. write_media d.disk_drive d)

  unfoldable pub read_sector : Command (Disk F) (Unit {0})
  unfolding ◌>>=◌ ◌>>◌ put_bytes
  read_sector = transfer s_read (λ d. read_media d.disk_drive d)

  abbrev pub command : DiskState → DiskFunc → Command (Disk F) (Unit {0})
  command state func = assign (λ d. record d { state = state; current_func = func })

  abbrev pub ask_transfer : Command (Disk F) (Unit {0})
  ask_transfer = in_memory (direct_write_word call rxcs rxcs_xfer)

  -- The `switch (function)`.
  unfoldable pub start_function : ℕ → Command (Disk F) (Unit {0})
  unfolding ◌>>=◌ ◌>>◌ switch
  start_function function =
      switch function
        ((0, do command s_fill f_fill_buffer; ask_transfer)
          ∷ (1, command s_empty f_empty_buffer)
          ∷ (2, do command s_sector f_write_sector; ask_transfer)
          ∷ (3, do command s_sector f_read_sector; ask_transfer)
          ∷ [])
        skip

  abbrev pub start : ℕ → Command (Disk F) (Unit {0})
  start flags = do
    in_memory (direct_write_word call rxcs 0)
    start_function (bit_and flags rxcs_fs >>> 1)

  abbrev pub finished : ℕ → Command (Disk F) (Unit {0})
  finished flags = do assign (λ d. record d { state = s_begin }); raise (bit_or flags rxcs_done)

  -- The body of the loop.
  unfoldable pub round : Command (Disk F) (Unit {0})
  unfolding ◌>>=◌ ◌>>◌ fill_buffer empty_buffer read_sector write_sector start_function
  round = do
    flags ← flags_of
    state ← reads (λ d. d.state)
    func ← reads (λ d. d.current_func)
    let go = not (bit_and rxcs_go flags == 0)
    if go && (is_state state s_begin || is_state state s_done)
        then start flags
        else if is_state state s_fill && is_func func f_fill_buffer
        then fill_buffer
        else if is_state state s_empty && is_func func f_empty_buffer
        then empty_buffer
        else if is_func func f_read_sector
        then read_sector
        else if is_func func f_write_sector
        then write_sector
        else if is_state state s_done
        then finished flags
        else skip

  -- The machine's thread changes the memory between two rounds: `between` is what it makes of it, one
  -- for each round. The loop ends when the bus is shut down, or when the rounds are spent.
  unfoldable pub exec_disk : List (Memory → Memory) → Disk F → Outcome (Disk F)
  unfolding round
  exec_disk [] d = done d
  exec_disk (change ∷ between) d =
      let changed : Disk F = record d { memory = change d.memory } in
      let rest = Outcome.◌>>=◌ (round changed) (λ r. exec_disk between r.1) in
      if d.memory.bus_shutdown then done d else rest

  unfoldable pub start_disk_subsystem : List (Memory → Memory) → Disk F → Outcome (Disk F)
  unfolding register_disk exec_disk
  start_disk_subsystem between d =
      Outcome.◌>>=◌ (in_memory register_disk d) (λ r. exec_disk between r.1)

-- ===== src/Disk/Commands.antt =====
-- The commands of the disk, one round of the device's loop, and the loop over a list of requests.
use xmachine.Base.{
  ℕ, ◌+◌, ◌*◌, bit_and, ◌>>>◌, u32, ltb, ◌==◌, if◌then◌else◌, Bool, true, false, ◌&&◌, ◌||◌, not,
  none, some, List, [], ◌∷◌,
}
use xmachine.Outcome.{Outcome, done, out_of_bounds, ◌>>=◌}
use xmachine.Unibus.Types.{Xfer}
use xmachine.Disk.{
  sector_size, buffer_size, track_size, rxcs_flag_go, rxcs_flag_fs, DiskOp, dsk_op_begin,
  dsk_op_sector, dsk_op_track, dsk_op_fill, dsk_op_empty, dsk_op_write_sector, dsk_op_done,
  DiskFunc, dsk_func_fill_buffer, dsk_func_empty_buffer, dsk_func_write_sector,
  dsk_func_read_sector, dsk_func_idle, DiskState, clear_buffer_register, set_transfer_flag,
  clear_transfer_flag, is_transfer_flag_set, set_done_flag, clear_all_flags, pending_bus_requests,
}

-- The files of the system: what a read at an offset leaves in the buffer, and a write at one.
pub record Files (F : Type 0) : Type 0 where
  pub read_at : ℕ → ℕ → (ℕ → ℕ) → F → (ℕ → ℕ) × F
  pub write_at : ℕ → ℕ → (ℕ → ℕ) → F → F

abbrev pub is_begin : DiskOp → Bool
is_begin dsk_op_begin = true
is_begin _ = false

abbrev pub is_done : DiskOp → Bool
is_done dsk_op_done = true
is_done _ = false

-- The `switch (function)` of the loop.
unfoldable pub start_function : ℕ → DiskState → DiskState
unfolding set_transfer_flag
start_function function d =
    if function == 0
    then set_transfer_flag (record d { op = dsk_op_fill; func = dsk_func_fill_buffer })
    else if function == 1
    then record d { op = dsk_op_empty; func = dsk_func_empty_buffer }
    else if function == 2
    then set_transfer_flag (record d { op = dsk_op_sector; func = dsk_func_write_sector })
    else if function == 3
    then set_transfer_flag (record d { op = dsk_op_sector; func = dsk_func_read_sector })
    else d

-- After the last word of the buffer, and before it.
abbrev advance : DiskState → DiskState
advance d =
    if u32 (d.buffer_idx + 1) == sector_size
    then record (set_done_flag (clear_all_flags d)) {
      buffer_idx = 0;
      op = dsk_op_done;
      func = dsk_func_idle;
    }
    else set_transfer_flag (record d { buffer_idx = u32 (d.buffer_idx + 1) })

abbrev stored : ℕ → DiskState → DiskState
stored v d = record d {
  internal_buffer = λ j. if j == d.buffer_idx then v else d.internal_buffer j;
}

unfoldable pub fill_buffer : DiskState → Outcome DiskState
unfolding set_transfer_flag clear_transfer_flag is_transfer_flag_set set_done_flag
fill_buffer d =
    if d.buffer_idx == sector_size || is_transfer_flag_set d
    then done d
    else if ltb d.buffer_idx buffer_size
    then done
        (advance (clear_buffer_register (stored (bit_and d.rxdb 0o377) (clear_transfer_flag d))))
    else out_of_bounds

unfoldable pub empty_buffer : DiskState → Outcome DiskState
unfolding set_transfer_flag is_transfer_flag_set set_done_flag
empty_buffer d =
    if d.buffer_idx == sector_size || is_transfer_flag_set d
    then done d
    else if ltb d.buffer_idx buffer_size
    then done (advance (record d { rxdb = d.internal_buffer d.buffer_idx }))
    else out_of_bounds

-- `disk_offset`
abbrev disk_offset : DiskState → ℕ
disk_offset d = u32 (track_size * d.track + sector_size * d.sector)

abbrev ended : DiskState → DiskState
ended d = record d { op = dsk_op_done; func = dsk_func_idle; sector = 0; track = 0 }

-- `go_flag && (op == DSK_OP_BEGIN || op == DSK_OP_DONE)`
abbrev pub commanded : DiskState → Bool
commanded d = not (bit_and rxcs_flag_go d.rxcs == 0) && (is_begin d.op || is_done d.op)

module _ {F : Type 0} (files : Files F) where
  abbrev read_media : DiskState × F → DiskState × F
  read_media (d, f) = elim d.disk_media [
    | none ↦ (d, f)
    | some fd ↦
        let (buffer, f') = files.read_at fd (disk_offset d) d.internal_buffer f in
        (record d { internal_buffer = buffer }, f')
  ]

  abbrev write_media : DiskState × F → DiskState × F
  write_media (d, f) = elim d.disk_media [
    | none ↦ (d, f)
    | some fd ↦ (d, files.write_at fd (disk_offset d) d.internal_buffer f)
  ]

  -- What `read_sector` and `write_sector` share: the sector, the track, then the transfer.
  abbrev addressed : (DiskState × F → DiskState × F) → DiskOp → DiskState × F → DiskState × F
  addressed transfer dsk_op_sector (d, f) =
      if is_transfer_flag_set d
      then (d, f)
      else (set_transfer_flag (record d { sector = d.rxdb; op = dsk_op_track }), f)
  addressed transfer dsk_op_track (d, f) =
      if is_transfer_flag_set d
      then (d, f)
      else (record d { track = d.rxdb; op = dsk_op_write_sector }, f)
  addressed transfer dsk_op_write_sector (d, f) = let (d', f') = transfer (d, f) in (ended d', f')
  addressed transfer _ (d, f) = (d, f)

  unfoldable pub read_sector : DiskState × F → DiskState × F
  unfolding set_transfer_flag is_transfer_flag_set
  read_sector (d, f) = addressed read_media d.op (d, f)

  unfoldable pub write_sector : DiskState × F → DiskState × F
  unfolding set_transfer_flag is_transfer_flag_set
  write_sector (d, f) = addressed write_media d.op (d, f)

  -- The tests after the first: FILL and EMPTY by `op` and `func`, the sectors by `func`.
  abbrev pub idle : DiskState × F → DiskState × F
  idle (d, f) = if is_done d.op then (set_done_flag (record d { op = dsk_op_begin }), f) else (d, f)

  abbrev pub continue : DiskOp → DiskFunc → DiskState × F → Outcome (DiskState × F)
  continue dsk_op_fill dsk_func_fill_buffer (d, f) = fill_buffer d >>= λ d'. done (d', f)
  continue dsk_op_empty dsk_func_empty_buffer (d, f) = empty_buffer d >>= λ d'. done (d', f)
  continue _ dsk_func_read_sector s = done (read_sector s)
  continue _ dsk_func_write_sector s = done (write_sector s)
  continue _ _ s = done (idle s)

  -- One round of `execute`: a request, then the device's own work.
  unfoldable pub round : Xfer → DiskState × F → Outcome (DiskState × F)
  unfolding pending_bus_requests start_function fill_buffer empty_buffer read_sector write_sector
      set_done_flag
  round slave_req (d, f) =
      let (_, d') = pending_bus_requests slave_req d in
      if commanded d'
      then done (start_function (bit_and rxcs_flag_fs d'.rxcs >>> 1) (clear_all_flags d'), f)
      else continue d'.op d'.func (d', f)

  -- The rounds until the device is shut down: one for each request that it is woken for.
  unfoldable pub execute : List Xfer → DiskState × F → Outcome (DiskState × F)
  unfolding round
  execute [] s = done s
  execute (slave_req ∷ more) s = round slave_req s >>= execute more

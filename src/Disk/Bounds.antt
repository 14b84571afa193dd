-- ===== src/Disk/Bounds.antt =====
-- The disk's sector buffer and its index.
use xmachine.Base.{
  ℕ, ◌<◌, ◌≡◌, arith, Bool, true, false, Bool-cases, inl, inr, ltb, List, [], ◌∷◌, bit_and, ◌>>>◌,
}
use xmachine.Outcome.{
  Outcome, done, blocked, null_pointer, out_of_bounds, Ends, ends, Ends-bind, Ends-done, ◌>>=◌,
}
use xmachine.Unibus.Types.{Xfer}
use xmachine.Disk.{
  DiskState, DiskOp, dsk_op_fill, dsk_op_empty, DiskFunc, dsk_func_fill_buffer,
  dsk_func_empty_buffer, dsk_func_read_sector, dsk_func_write_sector, buffer_size, rxcs_flag_fs,
  clear_all_flags, pending_bus_requests, set_done_flag,
}
use xmachine.Disk.Commands.{
  Files, start_function, fill_buffer, empty_buffer, read_sector, write_sector, round, execute,
  continue, idle, commanded,
}

abbrev InBuffer : DiskState → Type 0
InBuffer d = d.buffer_idx < 128

pending-InBuffer : (r : Xfer) (d : DiskState) → InBuffer d → InBuffer (pending_bus_requests r d).1
unfolding pending_bus_requests
pending-InBuffer r d h = ground arith

-- `InBuffer` of a result, as a test.
abbrev bounded : Outcome DiskState → Bool
bounded (done d) = ltb d.buffer_idx 128
bounded _ = false

bounded_sound :
    {F : Type 0} (o : Outcome DiskState) (f : F)
    → bounded o ≡ true
    → Ends {A = DiskState × F} (λ s. InBuffer s.0) (o >>= λ d. done (d, f))
bounded_sound (done d) f h = ends {a = (d, f)} (ground arith)
bounded_sound blocked f h = absurd (cc)
bounded_sound null_pointer f h = absurd (cc)
bounded_sound out_of_bounds f h = absurd (cc)

fill-InBuffer : (d : DiskState) → InBuffer d → bounded (fill_buffer d) ≡ true
unfolding fill_buffer
fill-InBuffer d h = ground arith

empty-InBuffer : (d : DiskState) → InBuffer d → bounded (empty_buffer d) ≡ true
unfolding empty_buffer
empty-InBuffer d h = ground arith

start-InBuffer : (n : ℕ) (d : DiskState) → InBuffer d → InBuffer (start_function n d)
unfolding start_function
start-InBuffer n d h = ground arith

module _ {F : Type 0} (files : Files F) where
  read-InBuffer : (d : DiskState) (f : F) → InBuffer d → InBuffer (read_sector files (d, f)).0
  unfolding read_sector
  read-InBuffer d f h = ground arith

  write-InBuffer : (d : DiskState) (f : F) → InBuffer d → InBuffer (write_sector files (d, f)).0
  unfolding write_sector
  write-InBuffer d f h = ground arith

  idle-InBuffer : (d : DiskState) (f : F) → InBuffer d → InBuffer (idle files (d, f)).0
  unfolding set_done_flag
  idle-InBuffer d f h = ground arith

  continue-InBuffer :
      (op : DiskOp) (func : DiskFunc) (d : DiskState) (f : F)
      → InBuffer d
      → Ends (λ s. InBuffer s.0) (continue files op func (d, f))
  unfolding set_done_flag
  continue-InBuffer dsk_op_fill dsk_func_fill_buffer d f h =
      bounded_sound (fill_buffer d) f (fill-InBuffer d h)
  continue-InBuffer dsk_op_empty dsk_func_empty_buffer d f h =
      bounded_sound (empty_buffer d) f (empty-InBuffer d h)
  continue-InBuffer _ dsk_func_read_sector d f h = ends (read-InBuffer d f h)
  continue-InBuffer _ dsk_func_write_sector d f h = ends (write-InBuffer d f h)
  continue-InBuffer _ _ d f h = ends (idle-InBuffer d f h)

  round-Ends :
      (r : Xfer) (d : DiskState) (f : F)
      → InBuffer d
      → Ends (λ s. InBuffer s.0) (round files r (d, f))
  unfolding round
  round-Ends r d f h =
      let d' : DiskState = (pending_bus_requests r d).1 in
      let within : InBuffer d' = pending-InBuffer r d h in
      elim (Bool-cases (commanded d')) [
        | inl e ↦
            let n : ℕ = bit_and rxcs_flag_fs d'.rxcs >>> 1 in
            let started : DiskState = start_function n (clear_all_flags d') in
            rw e (ends {a = (started, f)} (start-InBuffer n (clear_all_flags d') within))
        | inr e ↦ rw e (continue-InBuffer d'.op d'.func d' f within)
      ]

  execute-Ends :
      (reqs : List Xfer) (d : DiskState) (f : F)
      → InBuffer d
      → Ends (λ s. InBuffer s.0) (execute files reqs (d, f))
  unfolding execute
  execute-Ends [] d f h = ends h
  execute-Ends (r ∷ reqs) d f h =
      Ends-bind (round-Ends r d f h) (λ s p. execute-Ends reqs s.0 s.1 p)

  -- Whatever the values of `slave_req` in a list of requests, and whatever the files, a device
  -- whose index lies in the sector buffer runs through all its rounds without an access outside
  -- the buffer, and its index lies in the buffer at the end.
  pub execute_in_buffer :
      (reqs : List Xfer) (d : DiskState) (f : F)
      → d.buffer_idx < buffer_size
      → (s : DiskState × F) × (execute files reqs (d, f) ≡ done s) × (s.0.buffer_idx < buffer_size)
  execute_in_buffer reqs d f h = Ends-done (execute-Ends reqs d f h)

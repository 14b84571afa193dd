-- ===== src/Disk/Transfer.antt =====
-- A command of the disk that waits for a transfer.
use xmachine.Base.{
  ℕ, ◌/◌, ◌%◌, ◌^◌, ◌≡◌, refl, ◌∙◌, arith, Bool, true, false, ◌||◌, List, [], ◌∷◌, bit_and, u16,
}
use xmachine.Base.Bits.{bit_and_field, bit_or_keeps}
use xmachine.Outcome.{done}
use xmachine.Unibus.Types.{Xfer}
use xmachine.Disk.{
  DiskState, DiskOp, dsk_op_begin, dsk_op_done, dsk_op_fill, dsk_op_empty, dsk_op_sector,
  dsk_op_track, DiskFunc, dsk_func_fill_buffer, dsk_func_empty_buffer, dsk_func_write_sector,
  dsk_func_read_sector, pending_bus_requests, clear_transfer_flag, set_status_register,
  is_transfer_flag_set, rxcs_write_mask,
}
use xmachine.Disk.Commands.{
  Files, fill_buffer, empty_buffer, read_sector, write_sector, round, execute, continue, commanded,
  is_begin, is_done,
}

-- The steps of a command that go on only once the transfer flag is clear.
abbrev pub waits_for_transfer : DiskOp → DiskFunc → Bool
waits_for_transfer dsk_op_fill dsk_func_fill_buffer = true
waits_for_transfer dsk_op_empty dsk_func_empty_buffer = true
waits_for_transfer dsk_op_sector dsk_func_write_sector = true
waits_for_transfer dsk_op_sector dsk_func_read_sector = true
waits_for_transfer dsk_op_track dsk_func_write_sector = true
waits_for_transfer dsk_op_track dsk_func_read_sector = true
waits_for_transfer _ _ = false

-- `d'` differs from `d` in its two registers on the bus only, and has the flag set.
pub record Stuck (d d' : DiskState) : Type 0 where
  pub op : d'.op ≡ d.op
  pub func : d'.func ≡ d.func
  pub track : d'.track ≡ d.track
  pub sector : d'.sector ≡ d.sector
  pub buffer_idx : d'.buffer_idx ≡ d.buffer_idx
  pub internal_buffer : d'.internal_buffer ≡ d.internal_buffer
  pub flag : d'.rxcs / 2 ^ 7 % 2 ≡ 1

flag_is_set : (d : DiskState) → d.rxcs / 2 ^ 7 % 2 ≡ 1 → is_transfer_flag_set d ≡ true
unfolding is_transfer_flag_set
flag_is_set d h = ground (arith, bit_and_field 1 7 d.rxcs)

flag_stays : (d : DiskState) → d.rxcs / 2 ^ 7 % 2 ≡ 1 → (clear_transfer_flag d).rxcs / 2 ^ 7 % 2 ≡ 1
unfolding clear_transfer_flag
flag_stays d h = omega (arith, bit_and_field 1 7 d.rxcs)

flag_is_kept :
    (v : ℕ) (d : DiskState)
    → d.rxcs / 2 ^ 7 % 2 ≡ 1
    → (set_status_register v d).rxcs / 2 ^ 7 % 2 ≡ 1
unfolding set_status_register
flag_is_kept v d h = bit_or_keeps 7 d.rxcs (bit_and v rxcs_write_mask) h

pending-Stuck :
    (r : Xfer) (d : DiskState) → d.rxcs / 2 ^ 7 % 2 ≡ 1 → Stuck d (pending_bus_requests r d).1
unfolding pending_bus_requests set_status_register clear_transfer_flag
pending-Stuck r d h = record {
  op = ground arith;
  func = ground arith;
  track = ground arith;
  sector = ground arith;
  buffer_idx = ground arith;
  internal_buffer = ground arith;
  flag = ground (arith, flag_stays d h, flag_is_kept (u16 r.value) d h);
}

Stuck-trans : {d d' d'' : DiskState} → Stuck d d' → Stuck d' d'' → Stuck d d''
Stuck-trans a b = record {
  op = b.op ∙ a.op;
  func = b.func ∙ a.func;
  track = b.track ∙ a.track;
  sector = b.sector ∙ a.sector;
  buffer_idx = b.buffer_idx ∙ a.buffer_idx;
  internal_buffer = b.internal_buffer ∙ a.internal_buffer;
  flag = b.flag;
}

-- A waiting device takes no new command.
between_commands :
    (op : DiskOp) (func : DiskFunc)
    → waits_for_transfer op func ≡ true
    → (is_begin op || is_done op) ≡ false
between_commands dsk_op_begin func w = absurd (cc)
between_commands dsk_op_done func w = absurd (cc)
between_commands _ func w = refl

no_command : (d : DiskState) → waits_for_transfer d.op d.func ≡ true → commanded d ≡ false
no_command d w = ground (arith, between_commands d.op d.func w)

module _ {F : Type 0} (files : Files F) where
  fill_waits : (d : DiskState) → is_transfer_flag_set d ≡ true → fill_buffer d ≡ done d
  unfolding fill_buffer
  fill_waits d e = ground arith

  empty_waits : (d : DiskState) → is_transfer_flag_set d ≡ true → empty_buffer d ≡ done d
  unfolding empty_buffer
  empty_waits d e = ground arith

  continue_waits :
      (op : DiskOp) (func : DiskFunc) (d : DiskState) (f : F)
      → waits_for_transfer op func ≡ true
      → d.op ≡ op
      → is_transfer_flag_set d ≡ true
      → continue files op func (d, f) ≡ done (d, f)
  unfolding read_sector write_sector
  continue_waits dsk_op_fill dsk_func_fill_buffer d f w o e = rw (fill_waits d e) refl
  continue_waits dsk_op_empty dsk_func_empty_buffer d f w o e = rw (empty_waits d e) refl
  continue_waits dsk_op_sector dsk_func_write_sector d f w o e = rw (o, e) refl
  continue_waits dsk_op_sector dsk_func_read_sector d f w o e = rw (o, e) refl
  continue_waits dsk_op_track dsk_func_write_sector d f w o e = rw (o, e) refl
  continue_waits dsk_op_track dsk_func_read_sector d f w o e = rw (o, e) refl
  continue_waits _ _ d f w o e = absurd (cc)

  round_waits :
      (r : Xfer) (d : DiskState) (f : F)
      → waits_for_transfer d.op d.func ≡ true
      → d.rxcs / 2 ^ 7 % 2 ≡ 1
      → (d' : DiskState) × (round files r (d, f) ≡ done (d', f)) × Stuck d d'
  unfolding round
  round_waits r d f w h =
      let d' : DiskState = (pending_bus_requests r d).1 in
      let stuck : Stuck d (pending_bus_requests r d).1 = pending-Stuck r d h in
      let w' : waits_for_transfer d'.op d'.func ≡ true = rw (stuck.op, stuck.func) w in
      (
        d',
        rw (no_command d' w')
            (continue_waits d'.op d'.func d' f w' refl (flag_is_set d' stuck.flag)),
        stuck,
      )

  -- A command of the disk that waits for a transfer, with the transfer flag set, never
  -- proceeds: after any requests for the device, whatever the values of `slave_req`, its
  -- operation and its function, track and sector, its buffer and its index are the same, the
  -- files are untouched and the flag is still set.
  pub transfer_never_ends :
      (reqs : List Xfer) (d : DiskState) (f : F)
      → waits_for_transfer d.op d.func ≡ true
      → d.rxcs / 2 ^ 7 % 2 ≡ 1
      → (d' : DiskState) × (execute files reqs (d, f) ≡ done (d', f)) × Stuck d d'
  unfolding execute
  transfer_never_ends [] d f w h = (
    d,
    refl,
    record {
      op = refl;
      func = refl;
      track = refl;
      sector = refl;
      buffer_idx = refl;
      internal_buffer = refl;
      flag = h;
    },
  )
  transfer_never_ends (r ∷ reqs) d f w h =
      let (d', runs, first) = round_waits r d f w h in
      let w' : waits_for_transfer d'.op d'.func ≡ true = rw (first.op, first.func) w in
      let (d'', rest, second) = transfer_never_ends reqs d' f w' first.flag in
      (d'', rw runs rest, Stuck-trans first second)

-- ===== src/Disk.antt =====
-- The floppy disk device of src/disk: `disk_state`, its two registers on the bus, and the flags of
-- its control and status register. Commands has the device's loop.
pub mod Commands
pub mod Bounds
pub mod Transfer
use xmachine.Base.{
  ℕ, bit_and, bit_or, u16, u8, ◌==◌, if◌then◌else◌, Bool, true, false, ◌||◌, not, Option, none,
  some,
}
use xmachine.Unibus.Types.{DataOp, r_block_in, r_block_out, r_block_outb, Xfer}

abbrev pub sector_size : ℕ
sector_size = 128

abbrev pub buffer_size : ℕ
buffer_size = 128

abbrev pub track_size : ℕ
track_size = 3328

abbrev pub rxcs_write_mask : ℕ
rxcs_write_mask = 0o040137

abbrev pub rxcs_addr : ℕ
rxcs_addr = 0o777170

abbrev pub rxdb_addr : ℕ
rxdb_addr = 0o777172

abbrev pub rxcs_flag_go : ℕ
rxcs_flag_go = 0o1

abbrev pub rxcs_flag_fs : ℕ
rxcs_flag_fs = 0o16

abbrev pub rxcs_flag_done : ℕ
rxcs_flag_done = 0o40

abbrev pub rxcs_flag_xfer : ℕ
rxcs_flag_xfer = 0o200

pub data DiskOp : Type 0 where
  dsk_op_begin dsk_op_sector dsk_op_track dsk_op_fill dsk_op_empty dsk_op_write_sector
        dsk_op_read_sector dsk_op_done :
      DiskOp

pub data DiskFunc : Type 0 where
  dsk_func_fill_buffer dsk_func_empty_buffer dsk_func_write_sector dsk_func_read_sector
        dsk_func_not_used dsk_func_read_status dsk_func_write_del dsk_func_read_err dsk_func_idle :
      DiskFunc

-- `disk_media` is -1 without a disk, else an open file's descriptor.
pub record DiskState : Type 0 where
  pub op : DiskOp
  pub func : DiskFunc
  pub track : ℕ
  pub sector : ℕ
  pub rxcs : ℕ
  pub rxdb : ℕ
  pub buffer_idx : ℕ
  pub internal_buffer : ℕ → ℕ
  pub disk_media : Option ℕ

-- `init_disk`, which leaves the buffer as it is: zeros, for a static variable.
abbrev pub init_disk : DiskState
init_disk = record {
  op = DiskOp.dsk_op_begin;
  func = DiskFunc.dsk_func_idle;
  track = 0;
  sector = 0;
  rxcs = 0;
  rxdb = 0;
  buffer_idx = 0;
  internal_buffer = λ _. 0;
  disk_media = none;
}

unfoldable pub is_local_addr : ℕ → Bool
is_local_addr addr = addr == rxcs_addr || addr == rxdb_addr

abbrev pub clear_buffer_register : DiskState → DiskState
clear_buffer_register d = record d { rxdb = 0 }

-- The bits of `data` in the source that may be written are set; none is cleared.
unfoldable pub set_status_register : ℕ → DiskState → DiskState
set_status_register value d = record d { rxcs = bit_or d.rxcs (bit_and value rxcs_write_mask) }

unfoldable pub set_transfer_flag : DiskState → DiskState
set_transfer_flag d =
    if bit_and d.rxcs rxcs_flag_xfer == 0
    then record d { rxcs = bit_or d.rxcs rxcs_flag_xfer }
    else d

unfoldable pub clear_transfer_flag : DiskState → DiskState
clear_transfer_flag d = record d { rxcs = bit_and d.rxcs rxcs_flag_xfer }

unfoldable pub is_transfer_flag_set : DiskState → Bool
is_transfer_flag_set d = not (bit_and d.rxcs rxcs_flag_xfer == 0)

unfoldable pub set_done_flag : DiskState → DiskState
set_done_flag d =
    if bit_and d.rxcs rxcs_flag_done == 0
    then record d { rxcs = bit_or d.rxcs rxcs_flag_done }
    else d

abbrev pub clear_all_flags : DiskState → DiskState
clear_all_flags d = record d { rxcs = 0 }

-- A write of either register, as a word or as a byte.
abbrev write_register : Xfer → DiskState → Option Xfer × DiskState
write_register slave_req d =
    if slave_req.addr == rxcs_addr
    then (some slave_req, set_status_register (u16 slave_req.value) d)
    else if slave_req.addr == rxdb_addr
    then (some slave_req, clear_transfer_flag (record d { rxdb = u16 slave_req.value }))
    else (none, d)

abbrev read_register : Xfer → DiskState → Option Xfer × DiskState
read_register slave_req d =
    if slave_req.addr == rxcs_addr
    then (some (record slave_req { value = d.rxcs }), d)
    else if slave_req.addr == rxdb_addr
    then (some (record slave_req { value = d.rxdb }), clear_buffer_register (clear_transfer_flag d))
    else (none, d)

abbrev requested : DataOp → Xfer → DiskState → Option Xfer × DiskState
requested r_block_in slave_req d = read_register slave_req d
requested r_block_outb slave_req d = write_register slave_req d
requested r_block_out slave_req d = write_register slave_req d
requested _ slave_req d = (none, d)

-- The answer, if there is one, and the device after it. The source never assigns `slave_req`: its
-- value is arbitrary here.
unfoldable pub pending_bus_requests : Xfer → DiskState → Option Xfer × DiskState
unfolding set_status_register clear_transfer_flag
pending_bus_requests slave_req d = requested slave_req.op slave_req d

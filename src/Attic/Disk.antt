-- ===== src/Attic/Disk.antt =====
-- attic/src/disk.c: the disk's state. Its file is a parameter. Commands has the disk's loop.
pub mod Commands
pub mod Bounds
pub mod Loop
use xmachine.Base.{
  ℕ, zero, suc, ◌+◌, ◌*◌, bit_and, bit_or, bit_xor, ◌>>>◌, u8, u32, ltb, ◌==◌, if◌then◌else◌, Bool,
  true, false, ◌&&◌, ◌||◌, not, Option, none, some, List, [], ◌∷◌, take, map,
}
use xmachine.Outcome
use xmachine.Outcome.{Outcome, done, out_of_bounds}
use xmachine.Attic.State.{Effect, Memory, Command, ◌>>=◌, ◌>>◌, skip, reads, assign}
use xmachine.Attic.Memory.{
  get_byte, set_byte, direct_read_word, direct_write_word, direct_write_word_or, direct_read_byte_n,
  direct_write_byte_n,
}
use xmachine.Attic.Effects.{rxcs, rxdb, rxcs_xfer}

abbrev pub rxcs_go : ℕ
rxcs_go = 0o1

abbrev pub rxcs_fs : ℕ
rxcs_fs = 0o16

abbrev pub rxcs_done : ℕ
rxcs_done = 0o40

abbrev pub sector_size : ℕ
sector_size = 128

pub data DiskFunc : Type 0 where
  f_fill_buffer f_empty_buffer f_write_sector f_read_sector f_not_used f_read_status : DiskFunc
  f_write_del f_read_err f_idle : DiskFunc

pub data DiskState : Type 0 where
  s_begin s_sector s_track s_fill s_empty s_write s_read s_done : DiskState

abbrev func_number : DiskFunc → ℕ
func_number f_fill_buffer = 0
func_number f_empty_buffer = 1
func_number f_write_sector = 2
func_number f_read_sector = 3
func_number f_not_used = 4
func_number f_read_status = 5
func_number f_write_del = 6
func_number f_read_err = 7
func_number f_idle = 8

abbrev state_number : DiskState → ℕ
state_number s_begin = 0
state_number s_sector = 1
state_number s_track = 2
state_number s_fill = 3
state_number s_empty = 4
state_number s_write = 5
state_number s_read = 6
state_number s_done = 7

abbrev pub is_func : DiskFunc → DiskFunc → Bool
is_func f g = func_number f == func_number g

abbrev pub is_state : DiskState → DiskState → Bool
is_state s t = state_number s == state_number t

-- The calls on the file: `fseek` with `fread` of a number of bytes, and with `fwrite`.
pub record Drive (F : Type 0) : Type 0 where
  pub read_at : ℕ → ℕ → F → List ℕ × F
  pub write_at : ℕ → List ℕ → F → F

-- `disk`, with the memory that it shares with the machine. `drive` is the open file.
pub record Disk (F : Type 0) : Type 0 where
  pub buffer : ℕ → ℕ
  pub index : ℕ
  pub track : ℕ
  pub sector : ℕ
  pub current_func : DiskFunc
  pub state : DiskState
  pub disk_drive : Option F
  pub memory : Memory

unfoldable pub new_disk : {F : Type 0} → Option F → Memory → Disk F
new_disk image m = record {
  buffer = λ j. 0;
  index = 0;
  track = 0;
  sector = 0;
  current_func = f_idle;
  state = s_begin;
  disk_drive = image;
  memory = m;
}

unfoldable pub in_memory : {F A : Type 0} → Command Memory A → Command (Disk F) A
in_memory m d = Outcome.◌>>=◌ (m d.memory) (λ r. done (r.0, record d { memory = r.1 }))

-- `disk->buffer[disk->index] = data`
unfoldable pub put_buffer : {F : Type 0} → ℕ → Command (Disk F) (Unit {0})
put_buffer byte d =
    if ltb d.index sector_size
    then done (tt, record d { buffer = λ j. if j == d.index then byte else d.buffer j })
    else out_of_bounds

-- The bytes of the buffer from an index on, and the buffer with bytes put over it.
unfoldable pub bytes_from : ℕ → ℕ → (ℕ → ℕ) → List ℕ
bytes_from j zero buffer = []
bytes_from j (suc n) buffer = buffer j ∷ bytes_from (suc j) n buffer

unfoldable pub put_bytes : ℕ → List ℕ → (ℕ → ℕ) → ℕ → ℕ
put_bytes j [] buffer = buffer
put_bytes j (b ∷ bytes) buffer = put_bytes (suc j) bytes (λ i. if i == j then b else buffer i)

-- ===== src/Unibus/Transfer.antt =====
-- Transfers over the data bus, from the master's call to its return.
use xmachine.Base.{ℕ, ◌≡◌, true, false, if◌then◌else◌, arith}
use xmachine.Outcome.{done, blocked, ◌>>=◌}
use xmachine.Mem.{MemDev, is_local_addr, read_word, write_word, write_byte}
use xmachine.Unibus.Types.{DataOp, no_xfer}
use xmachine.Unibus.Link.{System, read_data_in, write_data_out, write_data_out_b}

-- The system after a transfer: the records of the transfer are cleared, and hold what it left.
abbrev settled : ℕ → ℕ → ℕ → MemDev → System → System
settled addr value buffered d s = record {
  cpu = record {
    bus = record s.cpu.bus { master = record { op = DataOp.r_none; addr = addr; value = value } };
    thread = record {
      buffer = record { op = DataOp.r_none; addr = addr; value = buffered };
      req_issued = false;
    };
  };
  mem = record s.mem { bus = record s.mem.bus { slave = no_xfer } };
  device = d;
}

abbrev pub after_read : ℕ → ℕ → System → System
after_read addr w s = settled addr w s.cpu.thread.buffer.value s.device s

abbrev pub after_write : ℕ → ℕ → MemDev → System → System
after_write addr value d s = settled addr 0 value d s

module _ (junk : ℕ) where
  -- If the processor is the bus master, its `read_data_in` at an address that is local to the
  -- memory device is that device's `read_word`: it gives the word and leaves the device as it
  -- was. At any other address it waits for ever. What a message leaves unset plays no part.
  pub read_data_in_lem :
      (addr : ℕ) (s : System)
      → s.cpu.bus.is_master ≡ true
      → read_data_in junk addr s ≡ (
          if is_local_addr addr
          then (read_word addr s.device >>= λ w. done (w, after_read addr w s))
          else blocked)
  unfolding read_data_in
  read_data_in_lem addr s m = ground arith

  -- If the processor is the bus master, its `write_data_out` at an address that is local to the
  -- memory device is that device's `write_word`, and at any other address it waits for ever.
  -- What a message leaves unset plays no part.
  pub write_data_out_lem :
      (addr value : ℕ) (s : System)
      → s.cpu.bus.is_master ≡ true
      → write_data_out junk addr value s ≡ (
          if is_local_addr addr
          then (write_word addr value s.device >>= λ d. done (after_write addr value d s))
          else blocked)
  unfolding write_data_out
  write_data_out_lem addr value s m = ground arith

  -- If the processor is the bus master, its `write_data_out_b` at an address that is local to
  -- the memory device is that device's `write_byte`, and at any other address it waits for
  -- ever. What a message leaves unset plays no part.
  pub write_data_out_b_lem :
      (addr value : ℕ) (s : System)
      → s.cpu.bus.is_master ≡ true
      → write_data_out_b junk addr value s ≡ (
          if is_local_addr addr
          then (write_byte addr value s.device >>= λ d. done (after_write addr value d s))
          else blocked)
  unfolding write_data_out_b
  write_data_out_b_lem addr value s m = ground arith

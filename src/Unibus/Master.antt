-- ===== src/Unibus/Master.antt =====
-- device_bus_mgr.c: the calls by which a device starts a transfer, and serves one.
use xmachine.Base.{ℕ}
use xmachine.Unibus.Types.{DataOp, r_in, r_out, r_outb, r_done, r_none, Xfer, no_xfer, BusState}

-- `read_data_in`, `write_data_out` and `write_data_out_b` up to their wait.
unfoldable pub start_read : ℕ → BusState → BusState
start_read addr bus = record bus { master = record bus.master { op = r_in; addr = addr } }

unfoldable pub start_write : ℕ → ℕ → BusState → BusState
start_write addr value bus = record bus {
  master = record { op = r_out; addr = addr; value = value };
}

-- `value` is a `uint8_t`, which the callers have cut.
unfoldable pub start_write_b : ℕ → ℕ → BusState → BusState
start_write_b addr value bus = record bus {
  master = record { op = r_outb; addr = addr; value = value };
}

-- The rest of these calls, after the wait: the status, the value, and the master cleared.
unfoldable pub finish : BusState → DataOp × ℕ × BusState
finish bus =
    (bus.master.op, bus.master.value, record bus { master = record bus.master { op = r_none } })

unfoldable pub data_bus_check : BusState → Xfer
data_bus_check bus = bus.slave

-- The reply, and `d_op` cleared.
unfoldable pub data_bus_reply : Xfer → BusState → Xfer × BusState
data_bus_reply d_op bus =
    (no_xfer, record bus { slave = record { op = r_done; addr = d_op.addr; value = d_op.value } })

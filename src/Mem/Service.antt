-- ===== src/Mem/Service.antt =====
-- The loop of mem.c's `execute`: one request from the data bus is performed and answered.
use xmachine.Outcome.{Outcome, done, blocked, ◌>>=◌}
use xmachine.Mem.{MemDev, read_word, write_word, write_byte}
use xmachine.Unibus.Types.{DataOp, r_block_in, r_block_out, r_block_outb, Xfer, BusState}
use xmachine.Unibus.Master.{data_bus_check, data_bus_reply}

unfoldable pub perform_read : Xfer → MemDev → Outcome (Xfer × MemDev)
perform_read d_op d = do word ← read_word d_op.addr d; done (record d_op { value = word }, d)

unfoldable pub perform_write : Xfer → MemDev → Outcome (Xfer × MemDev)
perform_write d_op d = do d' ← write_word d_op.addr d_op.value d; done (d_op, d')

unfoldable pub perform_writeb : Xfer → MemDev → Outcome (Xfer × MemDev)
perform_writeb d_op d = do d' ← write_byte d_op.addr d_op.value d; done (d_op, d')

-- An operation with no case is not answered, and the thread that asked waits for ever.
abbrev perform_op : DataOp → Xfer → MemDev → Outcome (Xfer × MemDev)
perform_op r_block_in d_op d = perform_read d_op d
perform_op r_block_out d_op d = perform_write d_op d
perform_op r_block_outb d_op d = perform_writeb d_op d
perform_op _ d_op d = blocked

unfoldable pub serve : BusState × MemDev → Outcome (BusState × MemDev)
unfolding perform_read perform_write perform_writeb data_bus_check data_bus_reply
serve (bus, d) = do
  let slave_req = data_bus_check bus
  performed ← perform_op slave_req.op slave_req d
  done ((data_bus_reply performed.0 bus).1, performed.1)

-- ===== src/Unibus/Waiting.antt =====
-- A device's call for a transfer and its data bus thread, as two threads that alternate in any order.
-- The call sets the record, then waits on a condition variable, then reads the record; the thread
-- signals the variable in `handle_resp`. In `Link` the call waits before the answer comes.
-- What the thread does for a slave is in `DataBus`.
pub mod Orders
pub mod Races
use xmachine.Base.{
  ℕ, ◌≡◌, refl, ◌∙◌, ◌⊎◌, inl, inr, arith, Bool, true, false, Bool-cases, ◌&&◌, not, if◌then◌else◌,
  Option, none, some, List, [], ◌∷◌,
}
use xmachine.Unibus.Types.{
  DataOp, r_in, r_inb, r_out, r_outb, r_block_in, r_block_inb, r_block_out, r_block_outb, r_done,
  r_none, Xfer, BusState, DataState, DataBusReq, MsgType, dbm_req, dbm_resp, Signal, d_dati, Port,
}
use xmachine.Unibus.Master.{start_read, start_write, start_write_b, finish}
use xmachine.Unibus.DataBus.{take_master, process_op, handle_resp, is_for_master, is_transfer}

-- Where the device's own thread stands: in no call, past the record, in the wait.
pub data Caller : Type 0 where
  free posted asleep : Caller

-- `returned` is the value that the last call found in the record, which `read_data_in` returns.
pub record Calls : Type 0 where
  pub port : Port
  pub caller : Caller
  pub returned : Option ℕ

pub data Turn : Type 0 where
  reads : ℕ → Turn
  writes writes_b : ℕ → ℕ → Turn
  sleeps sends : Turn
  receives : DataBusReq → Turn

abbrev with_bus : (BusState → BusState) → Port → Port
with_bus f p = record p { bus = f p.bus }

-- The device's thread calls, when it is in no call.
abbrev calls : (BusState → BusState) → Caller → Calls → Calls
calls f free s = record s { port = with_bus f s.port; caller = posted }
calls f _ s = s

-- The end of a call, in the thread that was woken. Only a signal wakes it: spurious wake-ups of
-- pthread_cond_wait are left out.
abbrev wakes : Caller → Calls → Calls
wakes asleep s =
    let (status, value, bus) = finish s.port.bus in
    record { port = record s.port { bus = bus }; caller = free; returned = some value }
wakes _ s = s

abbrev falls_asleep : Caller → Caller
falls_asleep posted = asleep
falls_asleep c = c

module _ (junk : ℕ) where
  -- The thread's rounds: the part before `check_bus`, and `check_bus` on a message that has come.
  abbrev pub sent : Port → Port
  sent p =
      let taken = take_master p in
      if taken.bus.is_master
      then record taken { thread = (process_op junk taken.thread).1 }
      else taken

  abbrev received : DataBusReq → Calls → Calls
  received event s =
      if is_for_master s.port event
      then (let (p, signalled) = handle_resp event s.port in
          let s' : Calls = record s { port = p } in if signalled then wakes s.caller s' else s')
      else s

  unfoldable pub turn : Turn → Calls → Calls
  unfolding start_read start_write start_write_b finish take_master process_op handle_resp
      is_for_master
  turn (reads addr) s = calls (start_read addr) s.caller s
  turn (writes addr value) s = calls (start_write addr value) s.caller s
  turn (writes_b addr value) s = calls (start_write_b addr value) s.caller s
  turn sleeps s = record s { caller = falls_asleep s.caller }
  turn sends s = record s { port = sent s.port }
  turn (receives event) s = received event s

  unfoldable pub turns : List Turn → Calls → Calls
  unfolding turn
  turns [] s = s
  turns (t ∷ ts) s = turns ts (turn t s)

-- ===== src/Unibus/DataBus.antt =====
-- data_bus.c: the thread that turns a device's requests into messages and messages into requests.
use xmachine.Base.{ℕ, Bool, true, false, ◌&&◌, if◌then◌else◌, Option, none, some}
use xmachine.Outcome.{Outcome, done, ◌>>=◌}
use xmachine.Unibus.Types.{
  DataOp, r_in, r_inb, r_out, r_outb, r_block_in, r_block_out, r_block_outb, r_done, r_none,
  no_xfer, BusState, DataState, MsgType, dbm_req, dbm_resp, Signal, d_dati, d_dato, d_datob,
  DataBusReq, Port,
}

-- The `switch (master_op)` of `data_bus_mgr`: what the device asked for moves into the buffer.
unfoldable pub take_master : Port → Port
take_master p = take p.bus.master.op p
  where
    cleared : Port → BusState
    cleared p = record p.bus { master = record p.bus.master { op = r_none } }

    reading : DataOp → Port → Port
    reading op p = record {
      bus = cleared p;
      thread = record p.thread {
        buffer = record p.thread.buffer { op = op; addr = p.bus.master.addr };
      };
    }

    writing : DataOp → Port → Port
    writing op p = record {
      bus = cleared p;
      thread = record p.thread {
        buffer = record { op = op; addr = p.bus.master.addr; value = p.bus.master.value };
      };
    }

    take : DataOp → Port → Port
    take r_in p = reading r_in p
    take r_inb p = reading r_inb p
    take r_out p = writing r_out p
    take r_outb p = writing r_outb p
    take DataOp.r_done p = p
    take DataOp.r_none p = p
    take _ p = record p { bus = cleared p }

-- `junk` is what the fields of a message hold that the sender leaves unset.
module _ (junk : ℕ) where
  abbrev request : Signal → ℕ → ℕ → DataBusReq
  request c addr datum = record {
    msg_type = dbm_req;
    c = c;
    addr = addr;
    datum = datum;
    ssyn = false;
  }

  unfoldable pub in_word : DataState → DataBusReq
  in_word t = request d_dati t.buffer.addr junk

  unfoldable pub out_word : DataState → DataBusReq
  out_word t = request d_dato t.buffer.addr t.buffer.value

  unfoldable pub out_byte : DataState → DataBusReq
  out_byte t = request d_datob t.buffer.addr t.buffer.value

  abbrev message : DataOp → DataState → Option DataBusReq
  message r_in t = some (in_word t)
  message r_out t = some (out_word t)
  message r_outb t = some (out_byte t)
  message _ t = none

  -- The message that goes out, and the buffer cleared.
  unfoldable pub process_op : DataState → Option DataBusReq × DataState
  unfolding in_word out_word out_byte
  process_op t =
      let sent = message t.buffer.op t in
      (
        sent,
        record {
          buffer = record t.buffer { op = r_none };
          req_issued = elim sent [ none ↦ t.req_issued | some m ↦ true ];
        },
      )

  -- `handle_dati`, `handle_dato` and `handle_datob`: the request is put before the device, which
  -- serves it while the thread waits in `slave_wait`; then the answer is built.
  abbrev ask : DataOp → ℕ → ℕ → BusState → BusState
  ask op addr value bus = record bus { slave = record { op = op; addr = addr; value = value } }

  abbrev answer : Signal → (ℕ → ℕ) → BusState → DataBusReq × BusState
  answer c datum bus = reply bus.slave.op
    where
      response : ℕ → Bool → DataBusReq
      response datum ssyn = record {
        msg_type = dbm_resp;
        c = c;
        addr = junk;
        datum = datum;
        ssyn = ssyn;
      }

      reply : DataOp → DataBusReq × BusState
      reply DataOp.r_done = (response (datum bus.slave.value) true, record bus { slave = no_xfer })
      reply _ = (response junk false, bus)

  module _ {D : Type 0} (serve : BusState × D → Outcome (BusState × D)) where
    abbrev transfer :
        Signal → DataOp → ℕ → ℕ → (ℕ → ℕ) → BusState × D → Outcome (DataBusReq × (BusState × D))
    transfer c op addr value datum (bus, device) = do
      served ← serve (ask op addr value bus, device)
      let (resp, bus') = answer c datum served.0
      done (resp, (bus', served.1))

    unfoldable pub handle_dati : DataBusReq → BusState × D → Outcome (DataBusReq × (BusState × D))
    handle_dati event = transfer d_dati r_block_in event.addr 0 (λ v. v)

    unfoldable pub handle_dato : DataBusReq → BusState × D → Outcome (DataBusReq × (BusState × D))
    handle_dato event = transfer d_dato r_block_out event.addr event.datum (λ v. 0)

    unfoldable pub handle_datob : DataBusReq → BusState × D → Outcome (DataBusReq × (BusState × D))
    handle_datob event = transfer d_datob r_block_outb event.addr event.datum (λ v. 0)

    abbrev handle :
        Signal → DataBusReq → BusState × D → Outcome (Option DataBusReq × (BusState × D))
    handle d_dati event s = do r ← handle_dati event s; done (some r.0, r.1)
    handle d_dato event s = do r ← handle_dato event s; done (some r.0, r.1)
    handle d_datob event s = do r ← handle_datob event s; done (some r.0, r.1)
    handle _ event s = done (none, s)

    unfoldable pub handle_req :
        DataBusReq → BusState × D → Outcome (Option DataBusReq × (BusState × D))
    unfolding handle_dati handle_dato handle_datob
    handle_req event = handle event.c event

abbrev pub is_transfer : Signal → Bool
is_transfer d_dati = true
is_transfer d_dato = true
is_transfer d_datob = true
is_transfer _ = false

-- `handle_resp`. The flag says whether the waiting device is signalled.
unfoldable pub handle_resp : DataBusReq → Port → Port × Bool
handle_resp event p =
    if is_transfer event.c
    then (
      record {
        bus = record p.bus { master = record p.bus.master { op = r_done; value = event.datum } };
        thread = record p.thread { req_issued = false };
      },
      true,
    )
    else (p, false)

-- The two tests of `check_bus`, on a message that has arrived.
unfoldable pub is_for_slave : Bool → DataBusReq → Bool
is_for_slave is_this_device event = request event.msg_type && is_this_device
  where
    request : MsgType → Bool
    request dbm_req = true
    request dbm_resp = false

unfoldable pub is_for_master : Port → DataBusReq → Bool
is_for_master p event = response event.msg_type && p.bus.is_master && p.thread.req_issued
  where
    response : MsgType → Bool
    response dbm_req = false
    response dbm_resp = true

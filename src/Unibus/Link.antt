-- ===== src/Unibus/Link.antt =====
-- A processor and a memory joined by the data bus, in one order of the threads of a transfer: the
-- processor's call waits before the answer comes, and every message is sent. The bus thread of the
-- processor sends the request, that of the memory puts it before the memory, and the answer comes
-- back. Unibus/Waiting has the other orders, and Unibus/Send the messages that fail.
use xmachine.Base.{ℕ, true, false, if◌then◌else◌, Option, none, some}
use xmachine.Outcome.{Outcome, done, blocked, ◌>>=◌}
use xmachine.Mem.{MemDev, is_local_addr}
use xmachine.Mem.Service.{serve}
use xmachine.Cpu.State.{Bus}
use xmachine.Unibus.Types.{BusState, DataBusReq, Port, init_port}
use xmachine.Unibus.Master.{start_read, start_write, start_write_b, finish}
use xmachine.Unibus.DataBus.{
  take_master, process_op, handle_req, handle_resp, is_for_slave, is_for_master,
}

pub record System : Type 0 where
  pub cpu : Port
  pub mem : Port
  pub device : MemDev

abbrev pub boot : MemDev → System
boot d = record { cpu = init_port true; mem = init_port false; device = d }

module _ (junk : ℕ) where
  -- One round of the processor's bus thread: `data_bus_mgr` without `check_bus`.
  abbrev send : Port → Option DataBusReq × Port
  send p =
      let taken = take_master p in
      if taken.bus.is_master
      then (let (sent, t) = process_op junk taken.thread in (sent, record taken { thread = t }))
      else (none, taken)

  -- `check_bus` of the memory's thread. A request for another device gets no answer here.
  abbrev receive : DataBusReq → System → Outcome (DataBusReq × System)
  receive event s =
      if is_for_slave (is_local_addr event.addr) event
      then (do
        r ← handle_req junk serve event (s.mem.bus, s.device)
        elim r.0 [
          | none ↦ blocked
          | some resp ↦ done (resp, record s { mem = record s.mem { bus = r.1.0 }; device = r.1.1 })
        ])
      else blocked

  -- `check_bus` of the processor's thread, on the answer.
  abbrev accept : DataBusReq → System → Outcome System
  accept resp s =
      if is_for_master s.cpu resp
      then (let (p, signalled) = handle_resp resp s.cpu in
          if signalled then done (record s { cpu = p }) else blocked)
      else blocked

  -- From the request of a device's call to the signal that ends its wait.
  unfoldable pub transact : System → Outcome System
  unfolding take_master process_op is_for_slave is_local_addr handle_req serve is_for_master
      handle_resp
  transact s =
      let (sent, p) = send s.cpu in
      elim sent [
        | none ↦ blocked
        | some event ↦ receive event (record s { cpu = p }) >>= λ r. accept r.0 r.1
      ]

  abbrev with_cpu_bus : BusState → System → System
  with_cpu_bus bus s = record s { cpu = record s.cpu { bus = bus } }

  unfoldable pub read_data_in : ℕ → System → Outcome (ℕ × System)
  unfolding start_read transact finish
  read_data_in addr s = do
    s' ← transact (with_cpu_bus (start_read addr s.cpu.bus) s)
    let (status, value, bus) = finish s'.cpu.bus
    done (value, with_cpu_bus bus s')

  unfoldable pub write_data_out : ℕ → ℕ → System → Outcome System
  unfolding start_write transact finish
  write_data_out addr value s = do
    s' ← transact (with_cpu_bus (start_write addr value s.cpu.bus) s)
    let (status, _, bus) = finish s'.cpu.bus
    done (with_cpu_bus bus s')

  unfoldable pub write_data_out_b : ℕ → ℕ → System → Outcome System
  unfolding start_write_b transact finish
  write_data_out_b addr value s = do
    s' ← transact (with_cpu_bus (start_write_b addr value s.cpu.bus) s)
    let (status, _, bus) = finish s'.cpu.bus
    done (with_cpu_bus bus s')

  abbrev pub linked : Bus System
  linked = record {
    read_data_in = read_data_in;
    write_data_out = write_data_out;
    write_data_out_b = write_data_out_b;
  }

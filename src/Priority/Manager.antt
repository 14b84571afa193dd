-- ===== src/Priority/Manager.antt =====
-- The rounds of `priority_bus_mgr`, and the calls by which the device's own thread asks for the
-- bus: `req_bus_master` and `release_bus_master` of device_bus_mgr.c.
use xmachine.Base.{true, false, ◌&&◌, not, if◌then◌else◌, Option, none, some, List, [], ◌∷◌}
use xmachine.Sockets.{Sockets}
use xmachine.Priority.Types.{
  PrBusReq, Wires, MainThread, running, requesting, waits_master, releasing, waits_release, Device,
}
use xmachine.Priority.Handlers.{handle, request_master, release_master}

-- Up to the wait, and the wait.
unfoldable pub req_bus_master : {W : Type 0} → Device W → Device W
req_bus_master d =
    if d.bus.is_master
    then record d { main = requesting }
    else record d { main = requesting; bus = record d.bus { req_master = true } }

unfoldable pub release_bus_master : {W : Type 0} → Device W → Device W
release_bus_master d =
    if d.bus.is_master
    then record d { main = releasing; bus = record d.bus { rel_master = true } }
    else record d { main = releasing }

-- One step of the two threads, which may alternate in any order. The main thread's are `requests`
-- and `releases`, when it stands at neither call, and `waits`, when it has set its flag. A round of
-- the bus thread has what `recv` gives: a message, or none.
pub data Action : Type 0 where
  requests releases waits : Action
  polls : Option PrBusReq → Action

abbrev pub wait : MainThread → MainThread
wait requesting = waits_master
wait releasing = waits_release
wait m = m

abbrev pub when_running : {W : Type 0} → MainThread → (Device W → Device W) → Device W → Device W
when_running running f d = f d
when_running _ f d = d

module _ {W : Type 0} (net : Sockets PrBusReq W) where
  -- `process_pr_events`.
  unfoldable pub process_pr_events : Option PrBusReq → Device W → Device W
  process_pr_events none d = d
  process_pr_events (some event) d = handle net event.sig event d

  -- The body of the loop. The flags are read before either call. It is one step for the device's
  -- own thread, though the code holds its locks only around parts of it.
  unfoldable pub manage : Option PrBusReq → Device W → Device W
  unfolding process_pr_events
  manage event d =
      let d' : Device W =
        if d.bus.req_master && not d.bus.is_master
        then request_master net d
        else if d.bus.rel_master && d.bus.is_master
        then release_master net d
        else d in
      process_pr_events event d'

  unfoldable pub act : Action → Device W → Device W
  unfolding req_bus_master release_bus_master manage
  act requests d = when_running d.main req_bus_master d
  act releases d = when_running d.main release_bus_master d
  act waits d = record d { main = wait d.main }
  act (polls event) d = manage event d

  unfoldable pub run : List Action → Device W → Device W
  unfolding act
  run [] d = d
  run (a ∷ acts) d = run acts (act a d)

-- A device after `init_bus` and `init_pr_state`, over any sockets: its flags are clear.
abbrev pub fresh : {W : Type 0} → Wires W → Device W
fresh w = record {
  wires = w;
  flags = record {
    npr_issued = false;
    br_issued = false;
    sack_asserted = false;
    bbsy_asserted = false;
  };
  bus = record { is_master = false; req_master = false; rel_master = false };
  main = running;
}

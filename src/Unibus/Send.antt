-- ===== src/Unibus/Send.antt =====
-- data_bus.c: the sockets to the neighbours on the data bus, and `send_msg`.
pub mod Descriptors
pub mod Leaks
use xmachine.Base.{ℕ, Bool, true, false, if◌then◌else◌, Option, none, some}
use xmachine.Sockets.{Address, d_socket, Sockets}
use xmachine.Unibus.Types.{DataBusReq}

-- The sockets of `data_state`, with the state of the system. A neighbour's address is `none` where
-- its `sun_path` is empty.
pub record DataWires (W : Type 0) : Type 0 where
  pub d_out_addr_l : Option Address
  pub d_out_addr_r : Option Address
  pub d_bus_out_l : Option ℕ
  pub d_bus_out_r : Option ℕ
  pub net : W

-- What `init_data_state` makes of the neighbours' names. The descriptor of a neighbour that there
-- is is left as it was: `old_l` and `old_r`.
abbrev named : Option ℕ → Option Address
named none = none
named (some name) = some (d_socket name)

abbrev out_fd : Option ℕ → Option ℕ → Option ℕ
out_fd none old = none
out_fd (some name) old = old

abbrev pub init_wires : {W : Type 0} → Option ℕ → Option ℕ → Option ℕ → Option ℕ → W → DataWires W
init_wires l_sock r_sock old_l old_r net = record {
  d_out_addr_l = named l_sock;
  d_out_addr_r = named r_sock;
  d_bus_out_l = out_fd l_sock old_l;
  d_bus_out_r = out_fd r_sock old_r;
  net = net;
}

module _ {W : Type 0} (net : Sockets DataBusReq W) where
  -- `d_connect_l` keeps the field when `socket` fails, `d_connect_r` does not.
  abbrev attach_l : Address → Option ℕ → DataWires W → Bool × DataWires W
  attach_l to none w = (false, w)
  attach_l to (some fd) w =
      let (ok, n) = net.connect (some fd) to w.net in
      (ok, record w { d_bus_out_l = some fd; net = n })

  abbrev attach_r : Address → Option ℕ → DataWires W → Bool × DataWires W
  attach_r to none w = (false, record w { d_bus_out_r = none })
  attach_r to (some fd) w =
      let (ok, n) = net.connect (some fd) to w.net in
      (ok, record w { d_bus_out_r = some fd; net = n })

  abbrev open_l : Option Address → DataWires W → Bool × DataWires W
  open_l none w = (false, w)
  open_l (some to) w = let (fd, n) = net.socket w.net in attach_l to fd (record w { net = n })

  abbrev open_r : Option Address → DataWires W → Bool × DataWires W
  open_r none w = (false, w)
  open_r (some to) w = let (fd, n) = net.socket w.net in attach_r to fd (record w { net = n })

  unfoldable pub d_connect_l : DataWires W → Bool × DataWires W
  d_connect_l w = open_l w.d_out_addr_l w

  unfoldable pub d_connect_r : DataWires W → Bool × DataWires W
  d_connect_r w = open_r w.d_out_addr_r w

  -- The results are not read.
  unfoldable pub d_close_l : DataWires W → DataWires W
  d_close_l w = record w { d_bus_out_l = none; net = (net.close w.d_bus_out_l w.net).1 }

  unfoldable pub d_close_r : DataWires W → DataWires W
  d_close_r w = record w { d_bus_out_r = none; net = (net.close w.d_bus_out_r w.net).1 }

  -- The two halves of `send_msg`; `false` is the early return after a failed write.
  unfoldable pub send_l : DataBusReq → DataWires W → Bool × DataWires W
  unfolding d_connect_l d_close_l
  send_l req w =
      let (connected, w') = d_connect_l w in
      let (ok, n) = net.write w'.d_bus_out_l req w'.net in
      let w'' : DataWires W = record w' { net = n } in
      if connected then (if ok then (true, d_close_l w'') else (false, w'')) else (true, w')

  unfoldable pub send_r : DataBusReq → DataWires W → Bool × DataWires W
  unfolding d_connect_r d_close_r
  send_r req w =
      let (connected, w') = d_connect_r w in
      let (ok, n) = net.write w'.d_bus_out_r req w'.net in
      let w'' : DataWires W = record w' { net = n } in
      if connected then (if ok then (true, d_close_r w'') else (false, w'')) else (true, w')

  -- Whether 0 is returned.
  unfoldable pub send_msg : DataBusReq → DataWires W → Bool × DataWires W
  unfolding send_l send_r
  send_msg req w = let (ok, w') = send_l req w in if ok then send_r req w' else (false, w')

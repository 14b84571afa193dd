-- ===== src/Arbiter.antt =====
-- The bus arbiter of the processor, bus_arb.c: its state, its answers to the messages of the
-- priority bus, and the loop of `listen_priority`. The codes that its functions return are left
-- out, since `listen_priority` drops them.
pub mod Silence
pub mod Loss
use xmachine.Base.{
  ℕ, Bool, true, false, ◌&&◌, ◌||◌, not, ◌==◌, if◌then◌else◌, Option, none, some, List, [], ◌∷◌,
}
use xmachine.Sockets.{Address, bare, Sockets}
use xmachine.Priority.Types.{PrSignal, br, bg, npr, npg, sack, bbsy, PrBusReq}

-- `arb_state`, with the state of the system.
pub record ArbState (W : Type 0) : Type 0 where
  pub client_socket : Option ℕ
  pub current_client : Address
  pub outstanding_bg : Bool
  pub outstanding_npg : Bool
  pub sack : Bool
  pub bbsy : Bool
  pub net : W

-- `init_arb(NAME)`: the client's address is the bare name, not that of a socket in /tmp/xmachine.
abbrev pub init_arb : {W : Type 0} → ℕ → W → ArbState W
init_arb name net = record {
  client_socket = none;
  current_client = bare name;
  outstanding_bg = false;
  outstanding_npg = false;
  sack = false;
  bbsy = false;
  net = net;
}

-- What `recv` gives: a message, or an error number.
pub data Received : Type 0 where
  message : PrBusReq → Received
  failed : ℕ → Received

-- `err != EAGAIN || err != EWOULDBLOCK`
abbrev pub gives_up : ℕ → ℕ → ℕ → Bool
gives_up eagain ewouldblock err = not (err == eagain) || not (err == ewouldblock)

module _ {W : Type 0} (net : Sockets PrBusReq W) where
  -- The result is not read: after a failure the next call has the descriptor all the same.
  unfoldable pub client_connect : ArbState W → ArbState W
  client_connect a = let (fd, w) = net.socket a.net in attach fd w
    where
      attach : Option ℕ → W → ArbState W
      attach none w = record a { client_socket = none; net = w }
      attach (some fd) w = record a {
        client_socket = some fd;
        net = (net.connect (some fd) a.current_client w).1;
      }

  abbrev pub client_close : ArbState W → ArbState W
  client_close a = record a { net = (net.close a.client_socket a.net).1 }

  -- The part that the four functions below share: the message to the client. If it cannot be sent,
  -- the socket is not closed.
  unfoldable pub send_client : PrSignal → Bool → ArbState W → ArbState W
  unfolding client_connect
  send_client sig assertion a =
      let resp : PrBusReq = record { from = a.current_client; sig = sig; assertion = assertion } in
      let a' : ArbState W = client_connect a in
      let (ok, w) = net.sendto a'.client_socket resp a'.current_client a'.net in
      let a'' : ArbState W = record a' { net = w } in if ok then client_close a'' else a''

  unfoldable pub assert_bus_grant : ArbState W → ArbState W
  assert_bus_grant a =
      if a.sack then a else send_client bg true (record a { outstanding_bg = true })

  unfoldable pub negate_bus_grant : ArbState W → ArbState W
  negate_bus_grant a = send_client bg false (record a { outstanding_bg = false })

  unfoldable pub assert_np_grant : ArbState W → ArbState W
  assert_np_grant a =
      if a.sack then a else send_client npg true (record a { outstanding_npg = true })

  unfoldable pub negate_np_grant : ArbState W → ArbState W
  negate_np_grant a = send_client npg false (record a { outstanding_npg = false })

  unfoldable pub handle_sack : PrBusReq → ArbState W → ArbState W
  unfolding negate_bus_grant negate_np_grant
  handle_sack req a =
      let a' : ArbState W = record a { sack = req.assertion } in
      if not a.sack && req.assertion
      then (if a.outstanding_bg
          then negate_bus_grant a'
          else if a.outstanding_npg
          then negate_np_grant a'
          else a')
      else if a.sack && not req.assertion
      then a'
      else a

  unfoldable pub handle_bbsy : PrBusReq → ArbState W → ArbState W
  handle_bbsy req a =
      if a.bbsy && not req.assertion
      then record a { bbsy = false }
      else if not a.bbsy && req.assertion
      then record a { bbsy = true }
      else a

  -- The `switch` of `listen_priority`.
  abbrev pub answer : PrSignal → PrBusReq → ArbState W → ArbState W
  answer br req a = assert_bus_grant a
  answer npr req a = assert_np_grant a
  answer PrSignal.sack req a = handle_sack req a
  answer PrSignal.bbsy req a = handle_bbsy req a
  answer _ req a = a

  -- The loop, over what `recv` gives in each round until the shutdown. EAGAIN and EWOULDBLOCK are the
  -- platform's; the flag says that the loop has returned.
  module _ (eagain ewouldblock : ℕ) where
    unfoldable pub listen_priority : List Received → ArbState W → Bool × ArbState W
    unfolding assert_bus_grant assert_np_grant handle_sack handle_bbsy
    listen_priority [] a = (false, a)
    listen_priority (message req ∷ more) a = listen_priority more (answer req.sig req a)
    listen_priority (failed err ∷ more) a =
        let rest = listen_priority more a in
        if gives_up eagain ewouldblock err then (true, a) else rest

-- ===== src/Arbiter/Loss.antt =====
-- What reaches the devices of the arbiter's grants.
use xmachine.Base.{ℕ, ◌≡◌, refl, ◌∙◌, arith, Bool, true, false, Bool-cases, inl, inr, List, [], ◌∷◌}
use xmachine.Sockets.{Address, bare, Sockets, Delivers}
use xmachine.Priority.Types.{PrSignal, br, npr, PrBusReq}
use xmachine.Arbiter.{
  ArbState, Received, message, failed, init_arb, client_connect, send_client, assert_bus_grant,
  assert_np_grant, negate_bus_grant, negate_np_grant, handle_sack, handle_bbsy, answer,
  listen_priority, gives_up,
}

module _ {W : Type 0} (net : Sockets PrBusReq W) (name : ℕ) (log : Delivers net (bare name)) where
  -- The client is the bare name, and what was delivered is `past`.
  abbrev Lost : List (Address × PrBusReq) → ArbState W → Type 0
  Lost past a = (a.current_client ≡ bare name) × (log.delivered a.net ≡ past)

  connect-Lost :
      (past : List (Address × PrBusReq)) (a : ArbState W)
      → Lost past a
      → Lost past (client_connect net a)
  unfolding client_connect
  connect-Lost past a h =
      let (fd, w) = net.socket a.net in
      ground (arith, log.socket_keeps a.net, log.connect_keeps fd a.current_client w)

  send-Lost :
      (past : List (Address × PrBusReq)) (sig : PrSignal) (b : Bool) (a : ArbState W)
      → Lost past a
      → Lost past (send_client net sig b a)
  unfolding send_client
  send-Lost past sig b a h =
      let resp : PrBusReq = record { from = a.current_client; sig = sig; assertion = b } in
      let a' : ArbState W = client_connect net a in
      let kept : Lost past (client_connect net a) = connect-Lost past a h in
      let (fails, same) = log.sendto_unbound a'.client_socket resp a'.net in
      rw kept.0 (rw fails (refl, same ∙ kept.1))

  answer-Lost :
      (past : List (Address × PrBusReq)) (sig : PrSignal) (req : PrBusReq) (a : ArbState W)
      → Lost past a
      → Lost past (answer net sig req a)
  unfolding assert_bus_grant assert_np_grant handle_sack handle_bbsy negate_bus_grant
      negate_np_grant
  answer-Lost past br req a h = elim (Bool-cases a.sack) [
    | inl e ↦ rw e h
    | inr e ↦
        rw e (send-Lost past PrSignal.bg true (record a { sack = false; outstanding_bg = true }) h)
  ]
  answer-Lost past npr req a h = elim (Bool-cases a.sack) [
    | inl e ↦ rw e h
    | inr e ↦
        rw e
          (send-Lost past PrSignal.npg true (record a { sack = false; outstanding_npg = true }) h)
  ]
  answer-Lost past PrSignal.sack req a h =
      let after : ArbState W = record a { sack = req.assertion } in
      ground (
        arith,
        send-Lost past PrSignal.bg false (record after { outstanding_bg = false }) h,
        send-Lost past PrSignal.npg false (record after { outstanding_npg = false }) h,
      )
  answer-Lost past PrSignal.bbsy req a h = ground arith
  answer-Lost past _ req a h = h

  listen-Lost :
      (eagain ewouldblock : ℕ) (past : List (Address × PrBusReq)) (events : List Received)
      (a : ArbState W)
      → Lost past a
      → Lost past (listen_priority net eagain ewouldblock events a).1
  unfolding listen_priority
  listen-Lost eagain ewouldblock past [] a h = h
  listen-Lost eagain ewouldblock past (message req ∷ more) a h =
      listen-Lost eagain ewouldblock past more _ (answer-Lost past req.sig req a h)
  listen-Lost eagain ewouldblock past (failed err ∷ more) a h =
      elim (Bool-cases (gives_up eagain ewouldblock err)) [
        | inl e ↦ rw e h
        | inr e ↦ rw e (listen-Lost eagain ewouldblock past more a h)
      ]

  -- Where no socket is bound to the bare name of the arbiter's client, and only `sendto` and `write`
  -- deliver messages, nothing that the arbiter sends is ever delivered to anyone, for any messages
  -- that it receives: no device gets a grant.
  pub grants_are_lost :
      (eagain ewouldblock : ℕ) (events : List Received) (w : W)
      → log.delivered (listen_priority net eagain ewouldblock events (init_arb name w)).1.net
        ≡ log.delivered w
  grants_are_lost eagain ewouldblock events w =
      (listen-Lost eagain ewouldblock (log.delivered w) events (init_arb name w) (refl, refl)).1

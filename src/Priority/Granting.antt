-- ===== src/Priority/Granting.antt =====
-- A request for the bus that is served, and the release, on sockets whose calls succeed.
use xmachine.Base.{ℕ, ◌≡◌, refl, ap, ◌∙◌, arith, true, false, ◌&&◌, not, none, some, List, [], ◌∷◌}
use xmachine.Sockets.{Sockets, Succeeds, ReusesNumbers}
use xmachine.Priority.Descriptors.{
  has_neighbour, Ready, broadcast_lem, broadcast-Ready, forward_lem,
}
use xmachine.Priority.Types.{
  PrSignal, bg, PrBusReq, Wires, Device, running, requesting, waits_master, releasing,
  waits_release,
}
use xmachine.Priority.Wires.{get_fd_direction}
use xmachine.Priority.Handlers.{
  assert_br, assert_bbsy, negate_sack, negate_bbsy, handle_bg, request_master, release_master,
  is_none, signal_release,
}
use xmachine.Priority.Manager.{
  Action, requests, releases, waits, polls, process_pr_events, manage, act, run, req_bus_master,
  release_bus_master,
}

-- The device after its request, after BG asserted, and as master.
record Asked {W : Type 0} (d : Device W) : Type 0 where
  main : d.main ≡ waits_master
  issued : d.flags.br_issued ≡ true
  free : d.flags.bbsy_asserted ≡ false
  slave : d.bus.is_master ≡ false
  taken : d.bus.req_master ≡ false
  neighbour : has_neighbour d.wires ≡ true

record Chosen {W : Type 0} (d : Device W) : Type 0 where
  main : d.main ≡ waits_master
  issued : d.flags.br_issued ≡ false
  acknowledged : d.flags.sack_asserted ≡ true
  free : d.flags.bbsy_asserted ≡ false
  slave : d.bus.is_master ≡ false
  taken : d.bus.req_master ≡ false

pub record IsMaster {W : Type 0} (d : Device W) : Type 0 where
  pub main : d.main ≡ running
  pub issued : d.flags.br_issued ≡ false
  pub acknowledged : d.flags.sack_asserted ≡ true
  pub busy : d.flags.bbsy_asserted ≡ true
  pub master : d.bus.is_master ≡ true
  pub taken : d.bus.req_master ≡ false

-- A device that has given the bus back.
pub record IsReleased {W : Type 0} (d : Device W) : Type 0 where
  pub main : d.main ≡ running
  pub negated : d.flags.sack_asserted ≡ false
  pub free : d.flags.bbsy_asserted ≡ false
  pub slave : d.bus.is_master ≡ false
  pub request : d.bus.req_master ≡ false
  pub release : d.bus.rel_master ≡ false

module _ {W : Type 0} (net : Sockets PrBusReq W) (ok : Succeeds net) where
  request_master-Asked :
      (d : Device W)
      → d.main ≡ waits_master
      → d.flags.bbsy_asserted ≡ false
      → d.bus.is_master ≡ false
      → has_neighbour d.wires ≡ true
      → Asked (request_master net d)
  unfolding request_master assert_br
  request_master-Asked d m b s n = ground (arith, broadcast_lem net ok PrSignal.br true d.wires)

  -- The descriptors after the request.
  request_master-Ready :
      (reuse : ReusesNumbers net) (d : Device W)
      → d.flags.bbsy_asserted ≡ false
      → (fd : ℕ) × Ready net ok reuse fd (request_master net d).wires
  unfolding request_master assert_br
  request_master-Ready reuse d b =
      rw (b, (broadcast_lem net ok PrSignal.br true d.wires).0)
        (broadcast-Ready net ok reuse PrSignal.br true d.wires)

  direction_exists :
      (w : Wires W) (req : PrBusReq)
      → has_neighbour w ≡ true
      → is_none (get_fd_direction w req true) ≡ false
  unfolding get_fd_direction
  direction_exists w req h = ground arith

  bg-Chosen :
      (reuse : ReusesNumbers net) (fd : ℕ) (req : PrBusReq) (d : Device W)
      → req.assertion ≡ true
      → Asked d
      → Ready net ok reuse fd d.wires
      → Chosen (handle_bg net req d)
  unfolding handle_bg
  bg-Chosen reuse fd req d e h ready =
      let resp : PrBusReq = record {
        from = d.wires.pr_in_addr;
        sig = PrSignal.sack;
        assertion = true;
      } in
      let answered = forward_lem net ok reuse fd req resp d.wires h.neighbour ready in
      ground (arith, direction_exists d.wires req h.neighbour, answered)

  bg-IsMaster :
      (req : PrBusReq) (d : Device W)
      → req.assertion ≡ false
      → Chosen d
      → IsMaster (handle_bg net req d)
  unfolding handle_bg assert_bbsy
  bg-IsMaster req d e h = ground (arith, broadcast_lem net ok PrSignal.bbsy true d.wires)

  run-cons :
      (a : Action) (acts : List Action) (d : Device W) {d' : Device W}
      → act net a d ≡ d'
      → run net (a ∷ acts) d ≡ run net acts d'
  unfolding run
  run-cons a acts d e = ap (run net acts) e

  run-nil : (d : Device W) → run net [] d ≡ d
  unfolding run
  run-nil d = refl

  abbrev asking : Device W → Device W
  asking d = record d { main = waits_master; bus = record d.bus { req_master = true } }

  act_asks :
      (d : Device W)
      → d.main ≡ running
      → d.bus.is_master ≡ false
      → (acts : List Action) → run net (requests ∷ waits ∷ acts) d ≡ run net acts (asking d)
  unfolding act req_bus_master
  act_asks d m s acts =
      let set : act net requests d
          ≡ record d { main = requesting; bus = record d.bus { req_master = true } } =
        ground arith in
      run-cons requests (waits ∷ acts) d set ∙ run-cons waits acts _ refl

  act_requests :
      (d : Device W)
      → d.bus.is_master ≡ false
      → d.bus.req_master ≡ true
      → act net (polls none) d ≡ request_master net d
  unfolding act manage process_pr_events
  act_requests d s r = rw (s, r) refl

  act_grant :
      (d : Device W) (req : PrBusReq)
      → d.bus.is_master ≡ false
      → d.bus.req_master ≡ false
      → req.sig ≡ bg
      → act net (polls (some req)) d ≡ handle_bg net req d
  unfolding act manage process_pr_events
  act_grant d req s r g =
      let no_request : (d.bus.req_master && not d.bus.is_master) ≡ false = ground arith in
      let no_release : (d.bus.rel_master && d.bus.is_master) ≡ false = ground arith in
      rw (no_request, no_release, g) refl

  -- On sockets whose calls succeed, a write on a connected descriptor that is, and where a socket has the
  -- lowest number that is not in use, a device with a neighbour that is not bus master, whose own
  -- thread is at no call of the bus and for which BBSY is negated, is bus master after its request, one
  -- round without a message, BG asserted and BG negated: it holds SACK and BBSY, its request is
  -- taken, and its own thread goes on. Nothing else in the process opens or closes a
  -- descriptor meanwhile.
  pub request_is_granted :
      (reuse : ReusesNumbers net) (d : Device W) (asserted negated : PrBusReq)
      → d.main ≡ running
      → d.flags.bbsy_asserted ≡ false
      → d.bus.is_master ≡ false
      → has_neighbour d.wires ≡ true
      → asserted.sig ≡ bg
      → asserted.assertion ≡ true
      → negated.sig ≡ bg
      → negated.assertion ≡ false
      → IsMaster (
          run net
            (requests ∷ waits ∷ polls none ∷ polls (some asserted) ∷ polls (some negated) ∷ [])
            d)
  request_is_granted reuse d asserted negated m b s n sig1 on sig2 off =
      let d2 : Device W = request_master net (asking d) in
      let d3 : Device W = handle_bg net asserted d2 in
      let asked : Asked d2 = request_master-Asked (asking d) refl b s n in
      let (fd, ready) = request_master-Ready reuse (asking d) b in
      let chosen : Chosen d3 = bg-Chosen reuse fd asserted d2 on asked ready in
      let path : run net
            (requests ∷ waits ∷ polls none ∷ polls (some asserted) ∷ polls (some negated) ∷ []) d
          ≡ handle_bg net negated d3 =
        act_asks d m s (polls none ∷ polls (some asserted) ∷ polls (some negated) ∷ [])
        ∙ run-cons (polls none) _ _ (act_requests (asking d) s refl)
        ∙ run-cons (polls (some asserted)) _ _ (act_grant d2 asserted asked.slave asked.taken sig1)
        ∙ run-cons (polls (some negated)) _ _ (act_grant d3 negated chosen.slave chosen.taken sig2)
        ∙ run-nil (handle_bg net negated d3) in
      rw path (bg-IsMaster negated d3 off chosen)

  abbrev leaving : Device W → Device W
  leaving d = record d { main = waits_release; bus = record d.bus { rel_master = true } }

  act_leaves :
      (d : Device W)
      → d.main ≡ running
      → d.bus.is_master ≡ true
      → (acts : List Action) → run net (releases ∷ waits ∷ acts) d ≡ run net acts (leaving d)
  unfolding act release_bus_master
  act_leaves d m s acts =
      let set : act net releases d
          ≡ record d { main = releasing; bus = record d.bus { rel_master = true } } =
        ground arith in
      run-cons releases (waits ∷ acts) d set ∙ run-cons waits acts _ refl

  act_release :
      (d : Device W)
      → d.bus.is_master ≡ true
      → d.bus.rel_master ≡ true
      → act net (polls none) d ≡ release_master net d
  unfolding act manage process_pr_events
  act_release d s r =
      let no_request : (d.bus.req_master && not d.bus.is_master) ≡ false = ground arith in
      rw no_request (rw (s, r) refl)

  negated_sack :
      (d : Device W)
      → d.flags.sack_asserted ≡ true
      → ((negate_sack net d).flags.sack_asserted ≡ false)
        × ((negate_sack net d).flags.bbsy_asserted ≡ d.flags.bbsy_asserted)
        × ((negate_sack net d).main ≡ d.main)
  unfolding negate_sack
  negated_sack d a = ground (arith, broadcast_lem net ok PrSignal.sack false d.wires)

  negated_bbsy :
      (d : Device W)
      → d.flags.sack_asserted ≡ false
      → d.flags.bbsy_asserted ≡ true
      → d.main ≡ waits_release
      → IsReleased (record (negate_bbsy net d) { main = signal_release (negate_bbsy net d).main })
  unfolding negate_bbsy
  negated_bbsy d a b m = ground (arith, broadcast_lem net ok PrSignal.bbsy false d.wires)

  -- On sockets whose calls succeed, a bus master that holds SACK and BBSY, and whose own thread
  -- is at no call of the bus, is no longer master after its release and one round without a
  -- message: SACK and BBSY are negated, no request or release is left, and its own thread goes
  -- on.
  pub release_is_done :
      (d : Device W)
      → d.main ≡ running
      → d.bus.is_master ≡ true
      → d.flags.sack_asserted ≡ true
      → d.flags.bbsy_asserted ≡ true
      → IsReleased (run net (releases ∷ waits ∷ polls none ∷ []) d)
  unfolding release_master
  release_is_done d m s a b =
      let d1 : Device W = leaving d in
      let (sack_off, same, still) = negated_sack d1 a in
      let path : run net (releases ∷ waits ∷ polls none ∷ []) d ≡ release_master net d1 =
        act_leaves d m s (polls none ∷ [])
        ∙ run-cons (polls none) _ _ (act_release d1 s refl)
        ∙ run-nil (release_master net d1) in
      rw path (negated_bbsy (negate_sack net d1) sack_off (same ∙ b) still)

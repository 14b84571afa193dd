-- ===== src/Priority/History.antt =====
-- What must have happened before a device is bus master.
use xmachine.Base.{
  ℕ, ◌≤◌, ◌≡◌, refl, arith, Bool, true, false, Bool-cases, inl, inr, ◌&&◌, not, if◌then◌else◌, ◌==◌,
  Option, none, some, List, [], ◌∷◌,
}
use xmachine.Sockets.{Sockets}
use xmachine.Priority.Types.{PrSignal, bg, npg, bbsy, PrBusReq, Wires, Device}
use xmachine.Priority.Handlers.{
  handle, pass, assert_br, assert_bbsy, negate_sack, negate_bbsy, handle_br, handle_bg, handle_npr,
  handle_npg, handle_sack, handle_bbsy, request_master, release_master,
}
use xmachine.Priority.Manager.{
  Action, requests, releases, waits, polls, process_pr_events, manage, act, run, fresh,
  req_bus_master, release_bus_master,
}

-- How much of the handshake the actions have shown, in this order: a request of the device, a
-- message BG asserted, a message BG negated.
abbrev is_bg : PrSignal → Bool
is_bg bg = true
is_bg _ = false

abbrev granted : Bool → Option PrBusReq → Bool
granted assertion none = false
granted true (some event) = is_bg event.sig && event.assertion
granted false (some event) = is_bg event.sig && not event.assertion

abbrev pub shown : ℕ → Action → ℕ
shown n requests = if n == 0 then 1 else n
shown n (polls event) =
    if n == 1 && granted true event then 2 else if n == 2 && granted false event then 3 else n
shown n _ = n

abbrev pub history : List Action → ℕ → ℕ
history [] n = n
history (a ∷ acts) n = history acts (shown n a)

history-le : (acts : List Action) (n : ℕ) → n ≤ 3 → history acts n ≤ 3
history-le [] n h = h
history-le (a ∷ acts) n h = history-le acts (shown n a) (step a)
  where
    step : (a : Action) → shown n a ≤ 3
    step requests = ground arith
    step (polls event) = ground arith
    step _ = h

-- What the flags say of the actions before.
pub record Inv {W : Type 0} (n : ℕ) (d : Device W) : Type 0 where
  pub asked : d.bus.req_master ≡ true → 1 ≤ n
  pub issued : d.flags.br_issued ≡ true → 1 ≤ n
  pub acknowledged : d.flags.sack_asserted ≡ true → 2 ≤ n
  pub master : d.bus.is_master ≡ true → 3 ≤ n
  pub held : d.bus.is_master ≡ true → d.flags.sack_asserted ≡ true
  pub no_npr : d.flags.npr_issued ≡ false

module _ {W : Type 0} (net : Sockets PrBusReq W) where
  assert_br-Inv : (n : ℕ) (d : Device W) → 1 ≤ n → Inv n d → Inv n (assert_br net d)
  unfolding assert_br
  assert_br-Inv n d one h = ground arith

  negate_sack-Inv : (n : ℕ) (d : Device W) → Inv n d → Inv n (negate_sack net d)
  unfolding negate_sack
  negate_sack-Inv n d h = ground arith

  negate_bbsy-Inv : (n : ℕ) (d : Device W) → Inv n d → Inv n (negate_bbsy net d)
  unfolding negate_bbsy
  negate_bbsy-Inv n d h = ground arith

  handle_bg-Inv :
      (n : ℕ) (req : PrBusReq) (d : Device W)
      → req.sig ≡ bg
      → Inv n d
      → Inv (shown n (polls (some req))) (handle_bg net req d)
  unfolding handle_bg assert_bbsy
  handle_bg-Inv n req d e h = ground arith

  shown-le : (n : ℕ) (a : Action) → n ≤ shown n a
  shown-le n requests = ground arith
  shown-le n (polls event) = ground arith
  shown-le n _ = omega arith

  Inv-mono : (n m : ℕ) (d : Device W) → n ≤ m → Inv n d → Inv m d
  Inv-mono n m d le h = ground arith

  handle_bbsy-Inv :
      (n : ℕ) (req : PrBusReq) (d : Device W) → Inv n d → Inv n (handle_bbsy net req d)
  unfolding handle_bbsy
  handle_bbsy-Inv n req d h = ground arith

  handle_npg-Inv : (n : ℕ) (req : PrBusReq) (d : Device W) → Inv n d → Inv n (handle_npg net req d)
  unfolding handle_npg
  handle_npg-Inv n req d h = ground arith

  pass-Inv : (n : ℕ) (req : PrBusReq) (d : Device W) → Inv n d → Inv n (pass net req d)
  pass-Inv n req d h = ground arith

  -- What the other handlers keep, they keep at the later count too.
  handle-Inv :
      (n : ℕ) (sig : PrSignal) (req : PrBusReq) (d : Device W)
      → req.sig ≡ sig
      → Inv n d
      → Inv (shown n (polls (some req))) (handle net sig req d)
  unfolding handle_br handle_npr handle_sack
  handle-Inv n bg req d e h = handle_bg-Inv n req d e h
  handle-Inv n npg req d e h =
      Inv-mono n _ _ (shown-le n (polls (some req))) (handle_npg-Inv n req d h)
  handle-Inv n bbsy req d e h =
      Inv-mono n _ _ (shown-le n (polls (some req))) (handle_bbsy-Inv n req d h)
  handle-Inv n _ req d e h = Inv-mono n _ _ (shown-le n (polls (some req))) (pass-Inv n req d h)

  event-Inv :
      (n : ℕ) (event : Option PrBusReq) (d : Device W)
      → Inv n d
      → Inv (shown n (polls event)) (process_pr_events net event d)
  unfolding process_pr_events
  event-Inv n none d h = Inv-mono n _ d (shown-le n (polls none)) h
  event-Inv n (some event) d h = handle-Inv n event.sig event d refl h

  request_master-Inv : (n : ℕ) (d : Device W) → 1 ≤ n → Inv n d → Inv n (request_master net d)
  unfolding request_master
  request_master-Inv n d one h =
      let asserted : Inv n (assert_br net d) = assert_br-Inv n d one h in ground arith

  release_master-Inv : (n : ℕ) (d : Device W) → Inv n d → Inv n (release_master net d)
  unfolding release_master
  release_master-Inv n d h =
      let released : Inv n (negate_bbsy net (negate_sack net d)) =
        negate_bbsy-Inv n (negate_sack net d) (negate_sack-Inv n d h) in
      ground arith

  manage-Inv :
      (n : ℕ) (event : Option PrBusReq) (d : Device W)
      → Inv n d
      → Inv (shown n (polls event)) (manage net event d)
  unfolding manage
  manage-Inv n event d h = elim (Bool-cases (d.bus.req_master && not d.bus.is_master)) [
    | inl e ↦ rw e (event-Inv n event _ (request_master-Inv n d (h.asked (ground arith)) h))
    | inr e ↦ rw e (elim (Bool-cases (d.bus.rel_master && d.bus.is_master)) [
      | inl r ↦ rw r (event-Inv n event _ (release_master-Inv n d h))
      | inr r ↦ rw r (event-Inv n event d h)
    ])
  ]

  act-Inv : (n : ℕ) (a : Action) (d : Device W) → Inv n d → Inv (shown n a) (act net a d)
  unfolding act req_bus_master release_bus_master
  act-Inv n requests d h = ground arith
  act-Inv n releases d h = ground arith
  act-Inv n waits d h = ground arith
  act-Inv n (polls event) d h = manage-Inv n event d h

  run-Inv :
      (acts : List Action) (n : ℕ) (d : Device W) → Inv n d → Inv (history acts n) (run net acts d)
  unfolding run
  run-Inv [] n d h = h
  run-Inv (a ∷ acts) n d h = run-Inv acts (shown n a) (act net a d) (act-Inv n a d h)

  -- However the sockets behave and whatever messages arrive, a device that is bus master after some
  -- actions from the start has been through all the handshake, in this order: its own request, BG
  -- asserted, BG negated. It holds SACK, too.
  pub master_was_granted :
      (wires : Wires W) (acts : List Action)
      → (run net acts (fresh wires)).bus.is_master ≡ true
      → (history acts 0 ≡ 3) × ((run net acts (fresh wires)).flags.sack_asserted ≡ true)
  master_was_granted wires acts h =
      let inv : Inv (history acts 0) (run net acts (fresh wires)) =
        run-Inv acts 0 (fresh wires) (ground arith) in
      (omega (arith, inv.master h, history-le acts 0 (omega arith)), inv.held h)

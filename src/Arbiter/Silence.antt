-- ===== src/Arbiter/Silence.antt =====
-- The arbiter while SACK is asserted, and its flags.
use xmachine.Base.{
  ℕ, ◌≡◌, refl, ap, ◌∙◌, arith, Bool, true, false, Bool-cases, inl, inr, ◌&&◌, not, List, [], ◌∷◌,
}
use xmachine.Sockets.{Sockets}
use xmachine.Priority.Types.{PrSignal, PrBusReq}
use xmachine.Arbiter.{
  ArbState, Received, message, failed, assert_bus_grant, assert_np_grant, handle_sack, handle_bbsy,
  answer, listen_priority, gives_up,
}

-- SACK negated.
abbrev negates_sack : PrSignal → Bool → Bool
negates_sack PrSignal.sack assertion = not assertion
negates_sack _ assertion = false

abbrev pub no_release : List Received → Bool
no_release [] = true
no_release (message req ∷ more) = not (negates_sack req.sig req.assertion) && no_release more
no_release (failed err ∷ more) = no_release more

module _ {W : Type 0} (net : Sockets PrBusReq W) where
  -- All but BBSY as it was.
  abbrev pub Quiet : ArbState W → ArbState W → Type 0
  Quiet a a' = a' ≡ record a { bbsy = a'.bbsy }

  answer-Quiet :
      (sig : PrSignal) (req : PrBusReq) (a : ArbState W)
      → a.sack ≡ true
      → negates_sack sig req.assertion ≡ false
      → Quiet a (answer net sig req a)
  unfolding assert_bus_grant assert_np_grant handle_sack handle_bbsy
  answer-Quiet sig req a s n = ground arith

  -- While SACK is asserted, and until a message negates it, the arbiter changes nothing but its
  -- BBSY flag, whatever arrives and however the sockets behave: it sends nothing, opens no
  -- socket, and keeps SACK and what it has outstanding.
  pub silent_under_sack :
      (eagain ewouldblock : ℕ) (events : List Received) (a : ArbState W)
      → a.sack ≡ true
      → no_release events ≡ true
      → Quiet a (listen_priority net eagain ewouldblock events a).1
  unfolding listen_priority
  silent_under_sack eagain ewouldblock [] a s n = refl
  silent_under_sack eagain ewouldblock (message req ∷ more) a s n =
      let a' : ArbState W = answer net req.sig req a in
      let first : Quiet a a' = answer-Quiet req.sig req a s (ground arith) in
      let rest : Quiet a' (listen_priority net eagain ewouldblock more a').1 =
        silent_under_sack eagain ewouldblock more a' (ap (λ x. x.sack) first ∙ s) (ground arith) in
      rest
      ∙ ap {A = ArbState W}
          (λ x. record x { bbsy = (listen_priority net eagain ewouldblock more a').1.bbsy }) first
  silent_under_sack eagain ewouldblock (failed err ∷ more) a s n =
      elim (Bool-cases (gives_up eagain ewouldblock err)) [
        | inl e ↦ rw e refl
        | inr e ↦ rw e (silent_under_sack eagain ewouldblock more a s n)
      ]

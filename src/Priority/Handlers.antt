-- ===== src/Priority/Handlers.antt =====
-- The handlers of priority_bus.c, and the functions by which the thread asserts and negates.
use xmachine.Base.{Bool, true, false, ◌&&◌, not, if◌then◌else◌}
use xmachine.Sockets.{Sockets}
use xmachine.Priority.Types.{
  PrSignal, br, sack, bbsy, bg, npr, npg, PrBusReq, Direction, d_none, MainThread, running,
  waits_master, waits_release, Device,
}
use xmachine.Priority.Wires.{get_fd_direction, update_from_addr, broadcast, forward}

-- `pthread_cond_signal`: a thread in the wait goes on; without one the signal is lost.
abbrev pub signal_master : MainThread → MainThread
signal_master waits_master = running
signal_master m = m

abbrev pub signal_release : MainThread → MainThread
signal_release waits_release = running
signal_release m = m

abbrev pub is_none : Direction → Bool
is_none d_none = true
is_none _ = false

module _ {W : Type 0} (net : Sockets PrBusReq W) where
  -- The message to both neighbours, and `after` unless a write failed.
  abbrev pub announced : PrSignal → Bool → (Device W → Device W) → Device W → Device W
  announced sig assertion after d =
      let (ok, w) = broadcast net sig assertion d.wires in
      let d' : Device W = record d { wires = w } in if ok then after d' else d'

  unfoldable pub assert_br : Device W → Device W
  assert_br d =
      if d.flags.bbsy_asserted && not d.flags.br_issued
      then d
      else announced br true (λ d. record d { flags = record d.flags { br_issued = true } }) d

  unfoldable pub assert_bbsy : Device W → Device W
  assert_bbsy d =
      if d.flags.bbsy_asserted
      then d
      else announced bbsy true
          (λ d. record d {
            flags = record d.flags { bbsy_asserted = true };
            bus = record d.bus { is_master = true; req_master = false };
          })
          d

  unfoldable pub negate_sack : Device W → Device W
  negate_sack d =
      if d.flags.sack_asserted
      then announced sack false
          (λ d. record d {
            flags = record d.flags { sack_asserted = false };
            bus = record d.bus { is_master = false; req_master = false };
          })
          d
      else d

  unfoldable pub negate_bbsy : Device W → Device W
  negate_bbsy d =
      if d.flags.bbsy_asserted
      then announced bbsy false
          (λ d. record d {
            flags = record d.flags { bbsy_asserted = false };
            bus = record { is_master = false; req_master = false; rel_master = false };
          })
          d
      else d

  -- A message that goes to the other side, or nowhere: `handle_br`, `handle_npr`, `handle_sack`,
  -- and the last branch of both grants.
  abbrev pub pass : PrBusReq → Device W → Device W
  pass req d =
      let dir : Direction = get_fd_direction d.wires req false in
      if is_none dir
      then d
      else record d { wires = (forward net dir (update_from_addr d.wires req) d.wires).1 }

  unfoldable pub handle_br : PrBusReq → Device W → Device W
  handle_br = pass

  unfoldable pub handle_npr : PrBusReq → Device W → Device W
  handle_npr = pass

  unfoldable pub handle_sack : PrBusReq → Device W → Device W
  handle_sack = pass

  -- The grant is blocked: SACK back to where it came from, and `after` unless the write failed.
  abbrev pub blocked_grant : PrBusReq → (Device W → Device W) → Device W → Device W
  blocked_grant req after d =
      let dir : Direction = get_fd_direction d.wires req true in
      let resp : PrBusReq = record { from = d.wires.pr_in_addr; sig = sack; assertion = true } in
      let (ok, w) = forward net dir resp d.wires in
      let d' : Device W = record d { wires = w } in
      if is_none dir then d else if ok then after d' else d'

  unfoldable pub handle_bg : PrBusReq → Device W → Device W
  unfolding assert_bbsy
  handle_bg req d =
      if d.flags.br_issued && req.assertion
      then blocked_grant req
          (λ d. record d { flags = record d.flags { br_issued = false; sack_asserted = true } }) d
      else if d.flags.sack_asserted && not req.assertion
      then (let d' : Device W = assert_bbsy d in record d' { main = signal_master d'.main })
      else pass req d

  unfoldable pub handle_npg : PrBusReq → Device W → Device W
  handle_npg req d =
      if d.flags.npr_issued
      then blocked_grant req
          (λ d. record d { flags = record d.flags { npr_issued = false; sack_asserted = true } }) d
      else pass req d

  unfoldable pub handle_bbsy : PrBusReq → Device W → Device W
  handle_bbsy req d =
      let d' : Device W = record d { flags = record d.flags { bbsy_asserted = req.assertion } } in
      pass req d'

  -- The `switch` of `process_pr_events`, on a message that `recv` has given.
  abbrev pub handle : PrSignal → PrBusReq → Device W → Device W
  handle br = handle_br
  handle bg = handle_bg
  handle npr = handle_npr
  handle npg = handle_npg
  handle sack = handle_sack
  handle bbsy = handle_bbsy

  unfoldable pub request_master : Device W → Device W
  unfolding assert_br
  request_master d =
      if d.flags.bbsy_asserted
      then d
      else (let d' : Device W = assert_br d in
          record d' { bus = record d'.bus { req_master = false } })

  unfoldable pub release_master : Device W → Device W
  unfolding negate_sack negate_bbsy
  release_master d =
      let d' : Device W = negate_bbsy (negate_sack d) in record d' { main = signal_release d'.main }

-- ===== src/Unibus/Send/Descriptors.antt =====
-- The descriptors that a message on the data bus takes.
use xmachine.Base.{ℕ, ◌≡◌, refl, ap, ◌∙◌, arith, true, Option, none, some}
use xmachine.Sockets.{Address, Sockets, Succeeds, Accounts}
use xmachine.Unibus.Types.{DataBusReq}
use xmachine.Unibus.Send.{
  DataWires, d_connect_l, d_connect_r, d_close_l, d_close_r, send_l, send_r, send_msg,
}

-- The field of a side after a message: -1 where there is a neighbour.
abbrev pub after_close : Option Address → Option ℕ → Option ℕ
after_close none old = old
after_close (some to) old = none

module _ {W : Type 0} (net : Sockets DataBusReq W) (ok : Succeeds net)
    (accounts : Accounts net) where
  -- From `socket` to `close`, the count is the same in the end.
  abbrev sent : ℕ → Address → DataBusReq → W → W
  sent fd to req w = (net.write (some fd) req (net.connect (some fd) to (net.socket w).1).1).1

  cycle_keeps :
      (fd : ℕ) (to : Address) (req : DataBusReq) (w : W)
      → (net.socket w).0 ≡ some fd
      → accounts.held (net.close (some fd) (sent fd to req w)).1 ≡ accounts.held w
  cycle_keeps fd to req w s =
      let (more, own) = accounts.socket_holds fd w s in
      let (same, own1) = accounts.connect_holds fd to (net.socket w).1 own in
      let (same', own2) =
        accounts.write_holds fd req (net.connect (some fd) to (net.socket w).1).1 own1 in
      omega (arith, more, same, same', accounts.close_gives_back fd (sent fd to req w) own2)

  send_l_lem :
      (req : DataBusReq) (w : DataWires W) (l : Option Address)
      → w.d_out_addr_l ≡ l
      → ((send_l net req w).0 ≡ true)
        × (accounts.held (send_l net req w).1.net ≡ accounts.held w.net)
        × ((send_l net req w).1.d_bus_out_l ≡ after_close l w.d_bus_out_l)
        × ((send_l net req w).1.d_bus_out_r ≡ w.d_bus_out_r)
        × ((send_l net req w).1.d_out_addr_r ≡ w.d_out_addr_r)
  unfolding send_l d_connect_l d_close_l
  send_l_lem req w none e = rw e (refl, refl, refl, refl, refl)
  send_l_lem req w (some to) e =
      let (fd, s) = ok.socket_opens w.net in
      let (joins, joined) = ok.connect_joins fd to w.net s in
      rw (e, s, joins, ok.write_succeeds fd req _ joined)
        (refl, cycle_keeps fd to req w.net s, refl, refl, refl)

  send_r_lem :
      (req : DataBusReq) (w : DataWires W) (r : Option Address)
      → w.d_out_addr_r ≡ r
      → ((send_r net req w).0 ≡ true)
        × (accounts.held (send_r net req w).1.net ≡ accounts.held w.net)
        × ((send_r net req w).1.d_bus_out_r ≡ after_close r w.d_bus_out_r)
        × ((send_r net req w).1.d_bus_out_l ≡ w.d_bus_out_l)
  unfolding send_r d_connect_r d_close_r
  send_r_lem req w none e = rw e (refl, refl, refl, refl)
  send_r_lem req w (some to) e =
      let (fd, s) = ok.socket_opens w.net in
      let (joins, joined) = ok.connect_joins fd to w.net s in
      rw (e, s, joins, ok.write_succeeds fd req _ joined)
        (refl, cycle_keeps fd to req w.net s, refl, refl)

  -- On sockets whose calls succeed, `send_msg` returns 0 with no more and no fewer descriptors held
  -- than before, and the descriptor of each side with a neighbour is -1 again.
  pub send_msg_lem :
      (req : DataBusReq) (w : DataWires W)
      → let (sent_all, w') = send_msg net req w in
        (sent_all ≡ true)
        × (accounts.held w'.net ≡ accounts.held w.net)
        × (w'.d_bus_out_l ≡ after_close w.d_out_addr_l w.d_bus_out_l)
        × (w'.d_bus_out_r ≡ after_close w.d_out_addr_r w.d_bus_out_r)
  unfolding send_msg
  send_msg_lem req w =
      let (l, held, out_l, out_r, addr_r) = send_l_lem req w w.d_out_addr_l refl in
      let (r, held', out_r', out_l') = send_r_lem req (send_l net req w).1 w.d_out_addr_r addr_r in
      rw l (r, held' ∙ held, out_l' ∙ out_l, out_r' ∙ ap (after_close w.d_out_addr_r) out_r)

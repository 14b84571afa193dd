-- ===== src/Unibus/Send/Leaks.antt =====
-- Messages to neighbours that do not listen.
use xmachine.Base.{
  ℕ, ◌+◌, ◌*◌, ◌≡◌, refl, ◌∙◌, arith, Bool, true, false, Option, none, some, List, [], ◌∷◌, length,
}
use xmachine.Sockets.{Address, Sockets, Accounts}
use xmachine.Unibus.Types.{DataBusReq}
use xmachine.Unibus.Send.{
  DataWires, d_connect_l, d_connect_r, d_close_l, d_close_r, send_l, send_r, send_msg,
}

-- A system that gives descriptors, and where nobody is bound to a name.
pub record Refuses {W : Type 0} (net : Sockets DataBusReq W) : Type 0 where
  pub socket_opens : (w : W) → (fd : ℕ) × ((net.socket w).0 ≡ some fd)
  pub connect_fails : (fd : Option ℕ) (to : Address) (w : W) → (net.connect fd to w).0 ≡ false

abbrev pub count : Option Address → ℕ
count none = 0
count (some to) = 1

abbrev pub neighbours : {W : Type 0} → DataWires W → ℕ
neighbours w = count w.d_out_addr_l + count w.d_out_addr_r

unfoldable pub send_each :
    {W : Type 0} → Sockets DataBusReq W → List DataBusReq → DataWires W → DataWires W
send_each net [] w = w
send_each net (req ∷ reqs) w = send_each net reqs (send_msg net req w).1

module _ {W : Type 0} (net : Sockets DataBusReq W) (refuses : Refuses net)
    (accounts : Accounts net) where
  -- A half of `send_msg` gives up, and returns as if it had sent.
  record Lost (l : Option Address) (w : DataWires W) (r : Bool × DataWires W) : Type 0 where
    goes_on : r.0 ≡ true
    held : accounts.held r.1.net ≡ accounts.held w.net + count l
    left : r.1.d_out_addr_l ≡ w.d_out_addr_l
    right : r.1.d_out_addr_r ≡ w.d_out_addr_r

  open_keeps :
      (fd : ℕ) (to : Address) (w : W)
      → (net.socket w).0 ≡ some fd
      → accounts.held (net.connect (some fd) to (net.socket w).1).1 ≡ accounts.held w + 1
  open_keeps fd to w s =
      let (more, own) = accounts.socket_holds fd w s in
      (accounts.connect_holds fd to (net.socket w).1 own).0 ∙ more

  send_l-Lost :
      (req : DataBusReq) (w : DataWires W) (l : Option Address)
      → w.d_out_addr_l ≡ l
      → Lost l w (send_l net req w)
  unfolding send_l d_connect_l d_close_l
  send_l-Lost req w none e =
      rw e (record { goes_on = refl; held = omega arith; left = refl; right = refl })
  send_l-Lost req w (some to) e =
      let (fd, s) = refuses.socket_opens w.net in
      rw (e, s, refuses.connect_fails (some fd) to _)
        (record { goes_on = refl; held = open_keeps fd to w.net s; left = refl; right = refl })

  send_r-Lost :
      (req : DataBusReq) (w : DataWires W) (r : Option Address)
      → w.d_out_addr_r ≡ r
      → Lost r w (send_r net req w)
  unfolding send_r d_connect_r d_close_r
  send_r-Lost req w none e =
      rw e (record { goes_on = refl; held = omega arith; left = refl; right = refl })
  send_r-Lost req w (some to) e =
      let (fd, s) = refuses.socket_opens w.net in
      rw (e, s, refuses.connect_fails (some fd) to _)
        (record { goes_on = refl; held = open_keeps fd to w.net s; left = refl; right = refl })

  send_msg-Lost :
      (req : DataBusReq) (w : DataWires W)
      → ((send_msg net req w).0 ≡ true)
        × (accounts.held (send_msg net req w).1.net ≡ accounts.held w.net + neighbours w)
        × (neighbours (send_msg net req w).1 ≡ neighbours w)
  unfolding send_msg
  send_msg-Lost req w =
      let l = send_l-Lost req w w.d_out_addr_l refl in
      let r = send_r-Lost req (send_l net req w).1 w.d_out_addr_r l.right in
      rw l.goes_on
        (r.goes_on, omega (arith, l.held, r.held), rw (r.left, r.right, l.left, l.right) refl)

  -- On a system where every `connect` fails, `send_msg` returns 0 for each of a list of messages, and
  -- the process holds one more descriptor for each message and each neighbour that is named.
  pub unheard_messages_leak :
      (reqs : List DataBusReq) (req : DataBusReq) (w : DataWires W)
      → let w' = send_each net reqs w in
        ((send_msg net req w').0 ≡ true)
        × (accounts.held w'.net ≡ accounts.held w.net + length reqs * neighbours w)
  unfolding send_each
  unheard_messages_leak [] req w = ((send_msg-Lost req w).0, omega arith)
  unheard_messages_leak (next ∷ reqs) req w =
      let (ok, held, same) = send_msg-Lost next w in
      let (ok', held') = unheard_messages_leak reqs req (send_msg net next w).1 in
      (ok', held' ∙ rw (held, same) (grind arith))

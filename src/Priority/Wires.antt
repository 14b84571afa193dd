-- ===== src/Priority/Wires.antt =====
-- The sockets to the neighbours: opening, closing, choosing one, and sending.
use xmachine.Base.{ℕ, Bool, true, false, ◌==◌, if◌then◌else◌, Option, none, some}
use xmachine.Sockets.{Address, pr_socket, d_socket, bare, Sockets}
use xmachine.Priority.Types.{PrSignal, PrBusReq, Direction, d_left, d_right, d_none, Wires}

-- `strncmp` of two names gives 0.
abbrev pub same_address : Address → Address → Bool
same_address (pr_socket m) (pr_socket n) = m == n
same_address (d_socket m) (d_socket n) = m == n
same_address (bare m) (bare n) = m == n
same_address _ _ = false

abbrev pub is_open : Option ℕ → Bool
is_open none = false
is_open (some fd) = true

abbrev choose : Bool → Direction → Direction → Direction
choose reply back onward = if reply then back else onward

unfoldable pub get_fd_direction : {W : Type 0} → Wires W → PrBusReq → Bool → Direction
get_fd_direction w req reply =
    if is_open w.pr_bus_out_l
    then (if is_open w.pr_bus_out_r
        then (if same_address req.from w.pr_out_addr_l
            then choose reply d_left d_right
            else choose reply d_right d_left)
        else choose reply d_left d_none)
    else if is_open w.pr_bus_out_r
    then choose reply d_right d_none
    else d_none

unfoldable pub get_fd : {W : Type 0} → Wires W → Direction → Option ℕ
get_fd w d_left = w.pr_bus_out_l
get_fd w d_right = w.pr_bus_out_r
get_fd w d_none = none

abbrev pub update_from_addr : {W : Type 0} → Wires W → PrBusReq → PrBusReq
update_from_addr w req = record req { from = w.pr_in_addr }

module _ {W : Type 0} (net : Sockets PrBusReq W) where
  -- `socket` and `connect`: whether both succeed, the new descriptor, and the system.
  abbrev pub opened : Address → W → Bool × Option ℕ × W
  opened to w = let (fd, w') = net.socket w in attach fd w'
    where
      attach : Option ℕ → W → Bool × Option ℕ × W
      attach none w' = (false, none, w')
      attach (some fd) w' = let (ok, w'') = net.connect (some fd) to w' in (ok, some fd, w'')

  unfoldable pub pr_connect_l : Wires W → Bool × Wires W
  pr_connect_l w =
      if is_open w.pr_bus_out_l
      then (let (ok, fd, n) = opened w.pr_out_addr_l w.net in
          (ok, record w { pr_bus_out_l = fd; net = n }))
      else (false, w)

  unfoldable pub pr_connect_r : Wires W → Bool × Wires W
  pr_connect_r w =
      if is_open w.pr_bus_out_r
      then (let (ok, fd, n) = opened w.pr_out_addr_r w.net in
          (ok, record w { pr_bus_out_r = fd; net = n }))
      else (false, w)

  unfoldable pub pr_connect : Direction → Wires W → Bool × Wires W
  unfolding pr_connect_l pr_connect_r
  pr_connect d_left w = pr_connect_l w
  pr_connect d_right w = pr_connect_r w
  pr_connect d_none w = (false, w)

  -- `pr_close_l` and `pr_close_r`, whose results nothing reads. The field keeps its number.
  abbrev pub pr_close_l : Wires W → Wires W
  pr_close_l w = record w { net = (net.close w.pr_bus_out_l w.net).1 }

  abbrev pub pr_close_r : Wires W → Wires W
  pr_close_r w = record w { net = (net.close w.pr_bus_out_r w.net).1 }

  abbrev pub pr_close : Direction → Wires W → Wires W
  pr_close d_left w = pr_close_l w
  pr_close d_right w = pr_close_r w
  pr_close d_none w = w

  -- `write`; `false` is the early return when it fails.
  abbrev written : Option ℕ → PrBusReq → Wires W → Bool × Wires W
  written fd req w = let (ok, n) = net.write fd req w.net in (ok, record w { net = n })

  -- The part that `assert_br`, `assert_bbsy`, `negate_sack` and `negate_bbsy` share: the message to
  -- each neighbour that can be connected.
  abbrev pub broadcast_l : PrBusReq → Wires W → Bool × Wires W
  broadcast_l req w =
      let (connected, w') = pr_connect_l w in
      let (ok, w'') = written w'.pr_bus_out_l req w' in
      if connected then (if ok then (true, pr_close_l w'') else (false, w'')) else (true, w')

  abbrev pub broadcast_r : PrBusReq → Wires W → Bool × Wires W
  broadcast_r req w =
      let (connected, w') = pr_connect_r w in
      let (ok, w'') = written w'.pr_bus_out_r req w' in
      if connected then (if ok then (true, pr_close_r w'') else (false, w'')) else (true, w')

  unfoldable pub broadcast : PrSignal → Bool → Wires W → Bool × Wires W
  unfolding pr_connect_l pr_connect_r
  broadcast sig assertion w =
      let req : PrBusReq = record { from = w.pr_in_addr; sig = sig; assertion = assertion } in
      let (ok, w') = broadcast_l req w in if ok then broadcast_r req w' else (false, w')

  -- What the handlers share. The descriptor is read before `pr_connect` replaces it.
  unfoldable pub forward : Direction → PrBusReq → Wires W → Bool × Wires W
  unfolding get_fd pr_connect
  forward dir req w =
      let out_fd : Option ℕ = get_fd w dir in
      let (_, w') = pr_connect dir w in
      let (ok, w'') = written out_fd req w' in if ok then (true, pr_close dir w'') else (false, w'')

-- ===== src/Priority/Descriptors.antt =====
-- The descriptors of the sockets to the neighbours, on sockets whose calls succeed.
use native.Mathlib.Decide.{dec_lt}
use xmachine.Base.{
  subst, ℕ, ◌<◌, ◌≡◌, refl, ap, ◌∙◌, ◌⊎◌, inl, inr, arith, ◌==◌, Bool, true, false, ◌||◌, Option,
  none, some,
}
use xmachine.Sockets.{Address, Sockets, Succeeds, ReusesNumbers}
use xmachine.Priority.Types.{PrSignal, PrBusReq, d_left, d_right, Wires}
use xmachine.Priority.Wires.{
  is_open, pr_connect_l, pr_connect_r, pr_connect, get_fd, broadcast, broadcast_l, broadcast_r,
  forward, get_fd_direction,
}

abbrev pub has_neighbour : {W : Type 0} → Wires W → Bool
has_neighbour w = is_open w.pr_bus_out_l || is_open w.pr_bus_out_r

-- Which neighbours there are does not change.
abbrev pub SameSides : {W : Type 0} → Wires W → Wires W → Type 0
SameSides w w' =
    (is_open w'.pr_bus_out_l ≡ is_open w.pr_bus_out_l)
    × (is_open w'.pr_bus_out_r ≡ is_open w.pr_bus_out_r)

module _ {W : Type 0} (net : Sockets PrBusReq W) (ok : Succeeds net) where
  left_lem :
      (req : PrBusReq) (w : Wires W) (l : Option ℕ)
      → w.pr_bus_out_l ≡ l
      → ((broadcast_l net req w).0 ≡ true) × SameSides w (broadcast_l net req w).1
  unfolding pr_connect_l
  left_lem req w none e = rw e (refl, (refl, refl))
  left_lem req w (some old) e =
      let (fd, s) = ok.socket_opens w.net in
      let (joins, joined) = ok.connect_joins fd w.pr_out_addr_l w.net s in
      rw (e, s, joins, ok.write_succeeds fd req _ joined) (refl, (refl, refl))

  right_lem :
      (req : PrBusReq) (w : Wires W) (r : Option ℕ)
      → w.pr_bus_out_r ≡ r
      → ((broadcast_r net req w).0 ≡ true) × SameSides w (broadcast_r net req w).1
  unfolding pr_connect_r
  right_lem req w none e = rw e (refl, (refl, refl))
  right_lem req w (some old) e =
      let (fd, s) = ok.socket_opens w.net in
      let (joins, joined) = ok.connect_joins fd w.pr_out_addr_r w.net s in
      rw (e, s, joins, ok.write_succeeds fd req _ joined) (refl, (refl, refl))

  pub broadcast_lem :
      (sig : PrSignal) (b : Bool) (w : Wires W)
      → ((broadcast net sig b w).0 ≡ true) × SameSides w (broadcast net sig b w).1
  unfolding broadcast
  broadcast_lem sig b w =
      let req : PrBusReq = record { from = w.pr_in_addr; sig = sig; assertion = b } in
      let (l, same) = left_lem req w w.pr_bus_out_l refl in
      let (r, same') = right_lem req (broadcast_l net req w).1 _ refl in
      rw l (r, (same'.0 ∙ same.0, same'.1 ∙ same.1))

module _ {W : Type 0} (net : Sockets PrBusReq W) (ok : Succeeds net)
    (reuse : ReusesNumbers net) where
  -- The number that the next socket has.
  abbrev IsLowest : ℕ → W → Type 0
  IsLowest fd w = (reuse.unused w fd ≡ true) × ((n : ℕ) → n < fd → reuse.unused w n ≡ false)

  lowest_unique : (a b : ℕ) (w : W) → IsLowest a w → IsLowest b w → a ≡ b
  lowest_unique a b w h h' = elim (dec_lt a b) [
    | yes lt ↦ absurd (let used = h'.1 a lt in let free = h.0 in cc)
    | no m ↦ elim (dec_lt b a) [
      | yes lt ↦ absurd (let used = h.1 b lt in let free = h'.0 in cc)
      | no m' ↦ omega arith
    ]
  ]

  -- From `socket` to `close`.
  abbrev used_once : ℕ → Address → PrBusReq → W → W
  used_once fd to req w =
      (net.close (some fd)
        (net.write (some fd) req (net.connect (some fd) to (net.socket w).1).1).1).1

  used_once-IsLowest :
      (fd : ℕ) (to : Address) (req : PrBusReq) (w : W)
      → (net.socket w).0 ≡ some fd
      → IsLowest fd w
      → IsLowest fd (used_once fd to req w)
  used_once-IsLowest fd to req w s h =
      let (free, low, taken) = reuse.socket_takes fd w s in
      let same = λ (n : ℕ).
        reuse.close_frees fd
          (net.write (some fd) req (net.connect (some fd) to (net.socket w).1).1).1 n
        ∙ ap (λ b. b || n == fd)
            (reuse.write_keeps fd req (net.connect (some fd) to (net.socket w).1).1 n
              ∙ reuse.connect_keeps fd to (net.socket w).1 n
              ∙ taken n) in
      (ground (arith, same fd), λ n lt. ground (arith, same n, low n lt))

  -- The fields of the two sides hold the number of the next socket, or nothing.
  pub record Ready (fd : ℕ) (w : Wires W) : Type 0 where
    left : (w.pr_bus_out_l ≡ none) ⊎ (w.pr_bus_out_l ≡ some fd)
    right : (w.pr_bus_out_r ≡ none) ⊎ (w.pr_bus_out_r ≡ some fd)
    lowest : IsLowest fd w.net

  broadcast_l-IsLowest :
      (fd : ℕ) (req : PrBusReq) (w : Wires W) (l : Option ℕ)
      → w.pr_bus_out_l ≡ l
      → IsLowest fd w.net
      → let w' = (broadcast_l net req w).1 in
        ((w'.pr_bus_out_l ≡ none) ⊎ (w'.pr_bus_out_l ≡ some fd)) × IsLowest fd w'.net
  unfolding pr_connect_l
  broadcast_l-IsLowest fd req w none e h = rw e (inl refl, h)
  broadcast_l-IsLowest fd req w (some old) e h =
      let (got, s) = ok.socket_opens w.net in
      let (free, low, taken) = reuse.socket_takes got w.net s in
      let (joins, joined) = ok.connect_joins got w.pr_out_addr_l w.net s in
      let same : got ≡ fd = lowest_unique got fd w.net (free, low) h in
      let h' = used_once-IsLowest got w.pr_out_addr_l req w.net s (free, low) in
      rw (e, s, joins, ok.write_succeeds got req _ joined)
        (
          inr (ap some same),
          subst (λ n. IsLowest n (used_once got w.pr_out_addr_l req w.net)) same h',
        )

  broadcast_r-IsLowest :
      (fd : ℕ) (req : PrBusReq) (w : Wires W) (r : Option ℕ)
      → w.pr_bus_out_r ≡ r
      → IsLowest fd w.net
      → let w' = (broadcast_r net req w).1 in
        ((w'.pr_bus_out_r ≡ none) ⊎ (w'.pr_bus_out_r ≡ some fd))
        × IsLowest fd w'.net
        × (w'.pr_bus_out_l ≡ w.pr_bus_out_l)
  unfolding pr_connect_r
  broadcast_r-IsLowest fd req w none e h = rw e (inl refl, h, refl)
  broadcast_r-IsLowest fd req w (some old) e h =
      let (got, s) = ok.socket_opens w.net in
      let (free, low, taken) = reuse.socket_takes got w.net s in
      let (joins, joined) = ok.connect_joins got w.pr_out_addr_r w.net s in
      let same : got ≡ fd = lowest_unique got fd w.net (free, low) h in
      let h' = used_once-IsLowest got w.pr_out_addr_r req w.net s (free, low) in
      rw (e, s, joins, ok.write_succeeds got req _ joined)
        (
          inr (ap some same),
          subst (λ n. IsLowest n (used_once got w.pr_out_addr_r req w.net)) same h',
          refl,
        )

  pub broadcast-Ready :
      (sig : PrSignal) (b : Bool) (w : Wires W) → (fd : ℕ) × Ready fd (broadcast net sig b w).1
  unfolding broadcast
  broadcast-Ready sig b w =
      let req : PrBusReq = record { from = w.pr_in_addr; sig = sig; assertion = b } in
      let (fd, s) = ok.socket_opens w.net in
      let (free, low, taken) = reuse.socket_takes fd w.net s in
      let (left, h) = broadcast_l-IsLowest fd req w w.pr_bus_out_l refl (free, low) in
      let (right, h', same) = broadcast_r-IsLowest fd req (broadcast_l net req w).1 _ refl h in
      (
        fd,
        rw (left_lem net ok req w w.pr_bus_out_l refl).0
            (record { left = rw same left; right = right; lowest = h' }),
      )

  forward_left :
      (fd : ℕ) (resp : PrBusReq) (w : Wires W)
      → w.pr_bus_out_l ≡ some fd
      → IsLowest fd w.net
      → (forward net d_left resp w).0 ≡ true
  unfolding forward get_fd pr_connect pr_connect_l
  forward_left fd resp w e h =
      let (got, s) = ok.socket_opens w.net in
      let (free, low, taken) = reuse.socket_takes got w.net s in
      let (joins, joined) = ok.connect_joins got w.pr_out_addr_l w.net s in
      let same : got ≡ fd = lowest_unique got fd w.net (free, low) h in
      let joined_net : W = (net.connect (some got) w.pr_out_addr_l (net.socket w.net).1).1 in
      let written : (net.write (some fd) resp joined_net).0 ≡ true =
        subst (λ n. (net.write (some n) resp joined_net).0 ≡ true) same
          (ok.write_succeeds got resp joined_net joined) in
      rw (e, s, written) refl

  forward_right :
      (fd : ℕ) (resp : PrBusReq) (w : Wires W)
      → w.pr_bus_out_r ≡ some fd
      → IsLowest fd w.net
      → (forward net d_right resp w).0 ≡ true
  unfolding forward get_fd pr_connect pr_connect_r
  forward_right fd resp w e h =
      let (got, s) = ok.socket_opens w.net in
      let (free, low, taken) = reuse.socket_takes got w.net s in
      let (joins, joined) = ok.connect_joins got w.pr_out_addr_r w.net s in
      let same : got ≡ fd = lowest_unique got fd w.net (free, low) h in
      let joined_net : W = (net.connect (some got) w.pr_out_addr_r (net.socket w.net).1).1 in
      let written : (net.write (some fd) resp joined_net).0 ≡ true =
        subst (λ n. (net.write (some n) resp joined_net).0 ≡ true) same
          (ok.write_succeeds got resp joined_net joined) in
      rw (e, s, written) refl

  direction_cases :
      (w : Wires W) (req : PrBusReq)
      → has_neighbour w ≡ true
      → ((get_fd_direction w req true ≡ d_left) × (is_open w.pr_bus_out_l ≡ true))
        ⊎ ((get_fd_direction w req true ≡ d_right) × (is_open w.pr_bus_out_r ≡ true))
  unfolding get_fd_direction
  direction_cases w req h = ground arith

  open_lem : (fd : ℕ) (o : Option ℕ) → is_open o ≡ true → (o ≡ none) ⊎ (o ≡ some fd) → o ≡ some fd
  open_lem fd none h c = absurd (cc)
  open_lem fd (some n) h (inl e) = absurd (cc)
  open_lem fd (some n) h (inr e) = e

  -- An answer is written to a descriptor that is joined, though it was read before that was opened.
  pub forward_lem :
      (fd : ℕ) (req resp : PrBusReq) (w : Wires W)
      → has_neighbour w ≡ true
      → Ready fd w
      → (forward net (get_fd_direction w req true) resp w).0 ≡ true
  forward_lem fd req resp w n h = elim (direction_cases w req n) [
    | inl (e, o) ↦ rw e (forward_left fd resp w (open_lem fd w.pr_bus_out_l o h.left) h.lowest)
    | inr (e, o) ↦ rw e (forward_right fd resp w (open_lem fd w.pr_bus_out_r o h.right) h.lowest)
  ]

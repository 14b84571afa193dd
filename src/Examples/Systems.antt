-- ===== src/Examples/Systems.antt =====
-- Small systems behind the interfaces: a network of sockets, and a host with one file.
use xmachine.Base.{
  ◌==◌, ◌&&◌, ◌||◌, not, if◌then◌else◌, subst, ap, ◌∙◌, ℕ, zero, suc, ◌+◌, ◌<◌, ◌≡◌, arith, refl,
  Bool, true, false, none, some, Option, List, [], ◌∷◌, take, drop,
}
use xmachine.Sockets.{
  Address, pr_socket, bare, Sockets, Succeeds, ReusesNumbers, Delivers, Accounts,
}
use xmachine.Priority.Types.{PrSignal, PrBusReq, Wires}
use xmachine.Unibus.Types.{DataBusReq}
use xmachine.Unibus.Send.Leaks.{Refuses}
use xmachine.Load.{header_of, Host}
use xmachine.Load.Files.{Opens}

-- Which descriptors are in use, from 0 on, and what was delivered.
pub record Network : Type 0 where
  pub in_use : List Bool
  pub log : List (Address × PrBusReq)

abbrev lowest : List Bool → ℕ
lowest [] = 0
lowest (false ∷ used) = 0
lowest (true ∷ used) = suc (lowest used)

abbrev with_lowest : List Bool → List Bool
with_lowest [] = true ∷ []
with_lowest (false ∷ used) = true ∷ used
with_lowest (true ∷ used) = true ∷ with_lowest used

abbrev freed : ℕ → List Bool → List Bool
freed fd [] = []
freed zero (u ∷ used) = false ∷ used
freed (suc fd) (u ∷ used) = u ∷ freed fd used

abbrev is_free : List Bool → ℕ → Bool
is_free [] n = true
is_free (u ∷ used) zero = not u
is_free (u ∷ used) (suc n) = is_free used n

abbrev is_used : Option ℕ → Network → Bool
is_used none w = false
is_used (some fd) w = not (is_free w.in_use fd)

abbrev closed : Option ℕ → List Bool → List Bool
closed none used = used
closed (some fd) used = freed fd used

abbrev post : Address → PrBusReq → Network → Bool × Network
post (bare n) message w = (false, w)
post to message w = (true, record w { log = (to, message) ∷ w.log })

-- A call on a descriptor that is not in use fails, and nobody is bound to a bare name.
abbrev pub network : Sockets PrBusReq Network
network = record {
  socket = λ w. (some (lowest w.in_use), record w { in_use = with_lowest w.in_use });
  connect = λ fd to w. (is_used fd w, w);
  write = λ fd message w. (
    is_used fd w,
    record w { log = if is_used fd w then (pr_socket 0, message) ∷ w.log else w.log },
  );
  sendto = λ fd message to w. post to message w;
  close = λ fd w. (is_used fd w, record w { in_use = closed fd w.in_use });
}

with_lowest_lem : (used : List Bool) → is_free (with_lowest used) (lowest used) ≡ false
with_lowest_lem [] = refl
with_lowest_lem (false ∷ used) = refl
with_lowest_lem (true ∷ used) = with_lowest_lem used

lowest_free : (used : List Bool) → is_free used (lowest used) ≡ true
lowest_free [] = refl
lowest_free (false ∷ used) = refl
lowest_free (true ∷ used) = lowest_free used

below_lowest : (used : List Bool) (n : ℕ) → n < lowest used → is_free used n ≡ false
below_lowest [] n lt = absurd (omega arith)
below_lowest (false ∷ used) n lt = absurd (omega arith)
below_lowest (true ∷ used) zero lt = refl
below_lowest (true ∷ used) (suc n) lt = below_lowest used n (omega arith)

is_free-with_lowest :
    (used : List Bool) (n : ℕ)
    → is_free (with_lowest used) n ≡ (is_free used n && not (n == lowest used))
is_free-with_lowest [] zero = refl
is_free-with_lowest [] (suc n) = ground arith
is_free-with_lowest (false ∷ used) zero = refl
is_free-with_lowest (false ∷ used) (suc n) = ground arith
is_free-with_lowest (true ∷ used) zero = refl
is_free-with_lowest (true ∷ used) (suc n) = is_free-with_lowest used n ∙ ground arith

is_free-freed :
    (fd : ℕ) (used : List Bool) (n : ℕ) → is_free (freed fd used) n ≡ (is_free used n || n == fd)
is_free-freed fd [] n = refl
is_free-freed zero (u ∷ used) zero = ground arith
is_free-freed zero (u ∷ used) (suc n) = ground arith
is_free-freed (suc fd) (u ∷ used) zero = ground arith
is_free-freed (suc fd) (u ∷ used) (suc n) = is_free-freed fd used n ∙ ground arith

-- The number that `socket` gives.
given : (fd : ℕ) (w : Network) → (network.socket w).0 ≡ some fd → lowest w.in_use ≡ fd
given fd w e = cc

pub network-Succeeds : Succeeds network
network-Succeeds = record {
  Joined = λ fd w. is_free w.in_use fd ≡ false;
  socket_opens = λ w. (lowest w.in_use, refl);
  connect_joins = λ fd to w e.
      let used =
        subst (λ n. is_free (with_lowest w.in_use) n ≡ false) (given fd w e)
          (with_lowest_lem w.in_use) in
      (ap not used, used);
  write_succeeds = λ fd message w used. ap not used;
}

pub network-ReusesNumbers : ReusesNumbers network
network-ReusesNumbers = record {
  unused = λ w. is_free w.in_use;
  socket_takes = λ fd w e.
      subst
        (λ fd.
          (is_free w.in_use fd ≡ true)
          × ((n : ℕ) → n < fd → is_free w.in_use n ≡ false)
          × ((n : ℕ) → is_free (with_lowest w.in_use) n ≡ (is_free w.in_use n && not (n == fd))))
        (given fd w e) (lowest_free w.in_use, below_lowest w.in_use, is_free-with_lowest w.in_use);
  connect_keeps = λ fd to w n. refl;
  write_keeps = λ fd message w n. refl;
  close_frees = λ fd w n. is_free-freed fd w.in_use n;
}

abbrev pub network-Delivers : (n : ℕ) → Delivers network (bare n)
network-Delivers n = record {
  delivered = λ w. w.log;
  socket_keeps = λ w. refl;
  connect_keeps = λ fd to w. refl;
  close_keeps = λ fd w. refl;
  sendto_unbound = λ fd message w. (refl, refl);
}

abbrev pub quiet : Network
quiet = record { in_use = true ∷ true ∷ true ∷ true ∷ []; log = [] }

-- The memory, with the processor to its left.
abbrev pub mem_wires : Wires Network
mem_wires = record {
  pr_out_addr_l = pr_socket 0;
  pr_out_addr_r = pr_socket 2;
  pr_in_addr = pr_socket 1;
  pr_bus_out_l = some 4;
  pr_bus_out_r = none;
  net = quiet;
}

abbrev pub grant : Bool → PrBusReq
grant assertion = record { from = pr_socket 0; sig = PrSignal.bg; assertion = assertion }

-- A host whose files all hold the bytes of its state.
abbrev pub one_file : Host (List ℕ)
one_file = record {
  open_file = λ name f. (some 3, f);
  read_file = λ fd n f. (some (take n f), drop n f);
  close_file = λ fd f. (true, f);
  malloc = λ f. (some (header_of []), f);
  calloc = λ n f. (true, f);
}

pub one_file-Opens : (name : ℕ) (f : List ℕ) → Opens one_file name 3 f f
one_file-Opens name f = record {
  rest = λ g. g;
  opens = (refl, refl);
  read_gives = λ n g. (refl, refl);
  malloc_gives = λ g. (header_of [], refl);
  malloc_keeps = λ g. refl;
  calloc_keeps = λ n g. (refl, refl);
  closes = λ g. refl;
}

-- A process of which only the number of its open descriptors is kept.
abbrev release : Option ℕ → ℕ → Bool × ℕ
release none n = (false, n)
release (some fd) zero = (false, zero)
release (some fd) (suc n) = (true, n)

abbrev pub table : Sockets DataBusReq ℕ
table = record {
  socket = λ n. (some n, suc n);
  connect = λ fd to n. (true, n);
  write = λ fd message n. (true, n);
  sendto = λ fd message to n. (true, n);
  close = release;
}

pub table-Succeeds : Succeeds table
table-Succeeds = record {
  Joined = λ fd n. Unit {0};
  socket_opens = λ n. (n, refl);
  connect_joins = λ fd to n e. (refl, tt);
  write_succeeds = λ fd message n joined. refl;
}

abbrev close_gives_back : (fd n : ℕ) → 0 < n → (release (some fd) n).1 + 1 ≡ n
close_gives_back fd zero h = absurd (omega arith)
close_gives_back fd (suc n) h = omega arith

abbrev pub table-Accounts : Accounts table
table-Accounts = record {
  held = λ n. n;
  Owned = λ fd n. 0 < n;
  socket_holds = λ fd n e. (omega arith, omega arith);
  connect_holds = λ fd to n own. (refl, own);
  write_holds = λ fd message n own. (refl, own);
  close_gives_back = close_gives_back;
}

-- The same, with nobody to connect to.
abbrev pub deaf : Sockets DataBusReq ℕ
deaf = record table { connect = λ fd to n. (false, n) }

pub deaf-Refuses : Refuses deaf
deaf-Refuses = record { socket_opens = λ n. (n, refl); connect_fails = λ fd to n. refl }

abbrev pub deaf-Accounts : Accounts deaf
deaf-Accounts = record {
  held = λ n. n;
  Owned = λ fd n. 0 < n;
  socket_holds = λ fd n e. (omega arith, omega arith);
  connect_holds = λ fd to n own. (refl, own);
  write_holds = λ fd message n own. (refl, own);
  close_gives_back = close_gives_back;
}

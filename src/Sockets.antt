-- ===== src/Sockets.antt =====
-- The socket calls that src/libunibus makes, as an interface over the state `W` of the system, with
-- what the code relies on of them.
use xmachine.Base.{ℕ, ◌+◌, ◌<◌, ◌≡◌, ◌==◌, ◌&&◌, ◌||◌, not, Bool, true, false, Option, some, List}

-- The names in /tmp/xmachine, by the number of the device: that of its socket on the priority bus,
-- that on the data bus, and the bare name without a directory.
pub data Address : Type 0 where
  pr_socket d_socket bare : ℕ → Address

-- A descriptor is `none` for -1. A call that can fail says whether it did not.
pub record Sockets (Message W : Type 0) : Type 0 where
  pub socket : W → Option ℕ × W
  pub connect : Option ℕ → Address → W → Bool × W
  pub write : Option ℕ → Message → W → Bool × W
  pub sendto : Option ℕ → Message → Address → W → Bool × W
  pub close : Option ℕ → W → Bool × W

-- A system on which the calls succeed, a `write` on a descriptor that is open and connected:
-- `Joined fd w` says so. On any other descriptor it may fail.
pub record Succeeds {Message W : Type 0} (net : Sockets Message W) : Type 1 where
  pub Joined : ℕ → W → Type 0
  pub socket_opens : (w : W) → (fd : ℕ) × ((net.socket w).0 ≡ some fd)
  pub connect_joins :
      (fd : ℕ) (to : Address) (w : W)
      → (net.socket w).0 ≡ some fd
      → let r = net.connect (some fd) to (net.socket w).1 in (r.0 ≡ true) × Joined fd r.1
  pub write_succeeds :
      (fd : ℕ) (message : Message) (w : W) → Joined fd w → (net.write (some fd) message w).0 ≡ true

-- A system where `socket` gives the lowest number that the process does not use, as POSIX has it, and
-- nothing but these calls takes or frees a number.
pub record ReusesNumbers {Message W : Type 0} (net : Sockets Message W) : Type 0 where
  pub unused : W → ℕ → Bool
  pub socket_takes :
      (fd : ℕ) (w : W)
      → (net.socket w).0 ≡ some fd
      → (unused w fd ≡ true)
        × ((n : ℕ) → n < fd → unused w n ≡ false)
        × ((n : ℕ) → unused (net.socket w).1 n ≡ (unused w n && not (n == fd)))
  pub connect_keeps :
      (fd : ℕ) (to : Address) (w : W) (n : ℕ) → unused (net.connect (some fd) to w).1 n ≡ unused w n
  pub write_keeps :
      (fd : ℕ) (message : Message) (w : W) (n : ℕ)
      → unused (net.write (some fd) message w).1 n ≡ unused w n
  pub close_frees :
      (fd : ℕ) (w : W) (n : ℕ) → unused (net.close (some fd) w).1 n ≡ (unused w n || n == fd)

-- A system that keeps count of what was delivered, where only `write` and `sendto` deliver, and an
-- address that nobody has bound gets nothing.
pub record Delivers {Message W : Type 0} (net : Sockets Message W) (unbound : Address)
    : Type 0 where
  pub delivered : W → List (Address × Message)
  pub socket_keeps : (w : W) → delivered (net.socket w).1 ≡ delivered w
  pub connect_keeps :
      (fd : Option ℕ) (to : Address) (w : W) → delivered (net.connect fd to w).1 ≡ delivered w
  pub close_keeps : (fd : Option ℕ) (w : W) → delivered (net.close fd w).1 ≡ delivered w
  pub sendto_unbound :
      (fd : Option ℕ) (message : Message) (w : W)
      → ((net.sendto fd message unbound w).0 ≡ false)
        × (delivered (net.sendto fd message unbound w).1 ≡ delivered w)

-- A system that counts the descriptors that a process holds: a descriptor that `socket` gave is the
-- process's own until it is closed, and `close` gives it back.
pub record Accounts {Message W : Type 0} (net : Sockets Message W) : Type 1 where
  pub held : W → ℕ
  pub Owned : ℕ → W → Type 0
  pub socket_holds :
      (fd : ℕ) (w : W)
      → (net.socket w).0 ≡ some fd
      → (held (net.socket w).1 ≡ held w + 1) × Owned fd (net.socket w).1
  pub connect_holds :
      (fd : ℕ) (to : Address) (w : W)
      → Owned fd w
      → (held (net.connect (some fd) to w).1 ≡ held w) × Owned fd (net.connect (some fd) to w).1
  pub write_holds :
      (fd : ℕ) (message : Message) (w : W)
      → Owned fd w
      → (held (net.write (some fd) message w).1 ≡ held w)
        × Owned fd (net.write (some fd) message w).1
  pub close_gives_back : (fd : ℕ) (w : W) → Owned fd w → held (net.close (some fd) w).1 + 1 ≡ held w

-- ===== src/Attic/State.antt =====
-- attic/src: `memory_t` and `machine_state_t`, and commands over them.
use xmachine.Base.{ℕ, Bool, Option, List}
use xmachine.Outcome
use xmachine.Outcome.{Outcome, done}

-- The functions of the program that are registered as side effects of a read or a write.
pub data Effect : Type 0 where
  read_tkb_effect clear_tpb_effect clear_rxdb_effect clear_rxcs_effect : Effect

-- `side_effect`: a location and a handler, `none` for NULL.
abbrev pub SideEffect : Type 0
SideEffect = ℕ × Option Effect

-- `memory`, less its function pointers, which are never changed. `cells` is `_memory`.
pub record Memory : Type 0 where
  pub dest : ℕ
  pub src : ℕ
  pub read_side_effects : List SideEffect
  pub write_side_effects : List SideEffect
  pub cells : ℕ → ℕ
  pub bus_shutdown : Bool

-- `machine_state`, less the disk. The terminal is what is still to be typed, and what was printed,
-- the last character first.
pub record Emulator : Type 0 where
  pub alu : ℕ
  pub ir : ℕ
  pub halted : Bool
  pub memory : Memory
  pub input : List ℕ
  pub output : List ℕ

-- A command reads and changes a state.
abbrev pub Command : Type 0 → Type 0 → Type 0
Command S A = S → Outcome (A × S)

module _ {S A B : Type 0} where
  infixl 5 ◌>>=◌ ◌>>◌
  unfoldable pub ◌>>=◌ : Command S A → (A → Command S B) → Command S B
  m >>= k = λ s. Outcome.◌>>=◌ (m s) (λ r. k r.0 r.1)

  unfoldable pub ◌>>◌ : Command S A → Command S B → Command S B
  unfolding ◌>>=◌
  m >> n = m >>= λ _. n

module _ {S : Type 0} where
  abbrev pub pure : {A : Type 0} → A → Command S A
  pure a s = done (a, s)

  abbrev pub skip : Command S (Unit {0})
  skip = pure tt

  abbrev pub reads : {A : Type 0} → (S → A) → Command S A
  reads f s = done (f s, s)

  abbrev pub assign : (S → S) → Command S (Unit {0})
  assign f s = done (tt, f s)

-- A command on the memory, in the emulator.
unfoldable pub on_memory : {A : Type 0} → Command Memory A → Command Emulator A
on_memory m s = Outcome.◌>>=◌ (m s.memory) (λ r. done (r.0, record s { memory = r.1 }))

-- ===== src/Cpu/State.antt =====
-- The state of the processor, the bus that it reaches memory through, and commands over both.
use xmachine.Base.{ℕ, Bool, false, Option, none, some}
use xmachine.Outcome
use xmachine.Outcome.{Outcome, done, blocked, null_pointer, out_of_bounds}

-- `struct _cpu`
pub record Cpu : Type 0 where
  pub r0 : ℕ
  pub r1 : ℕ
  pub r2 : ℕ
  pub r3 : ℕ
  pub r4 : ℕ
  pub r5 : ℕ
  pub sp : ℕ
  pub pc : ℕ
  pub psw : ℕ
  pub alu : ℕ
  pub ir : ℕ
  pub src_address : ℕ
  pub dest_address : ℕ
  pub halted : Bool

abbrev pub init_cpu : Cpu
init_cpu = record {
  r0 = 0;
  r1 = 0;
  r2 = 0;
  r3 = 0;
  r4 = 0;
  r5 = 0;
  sp = 0;
  pc = 0;
  psw = 0;
  alu = 0;
  ir = 0;
  src_address = 0;
  dest_address = 0;
  halted = false;
}

-- The master functions of libunibus, over the state `S` of all that lies behind the bus.
pub record Bus (S : Type 0) : Type 0 where
  pub read_data_in : ℕ → S → Outcome (ℕ × S)
  pub write_data_out : ℕ → ℕ → S → Outcome S
  pub write_data_out_b : ℕ → ℕ → S → Outcome S

pub record Machine (S : Type 0) : Type 0 where
  pub cpu : Cpu
  pub rest : S

-- A command reads and changes the machine.
abbrev pub M : Type 0 → Type 0 → Type 0
M S A = Machine S → Outcome (A × Machine S)

module _ {S A B : Type 0} where
  infixl 5 ◌>>=◌ ◌>>◌
  unfoldable pub ◌>>=◌ : M S A → (A → M S B) → M S B
  m >>= k = λ s. Outcome.◌>>=◌ (m s) (λ r. k r.0 r.1)

  unfoldable pub ◌>>◌ : M S A → M S B → M S B
  unfolding ◌>>=◌
  m >> n = m >>= λ _. n

module _ {S : Type 0} where
  abbrev pub pure : {A : Type 0} → A → M S A
  pure a s = done (a, s)

  abbrev pub skip : M S (Unit {0})
  skip = pure tt

  -- What `CPU_STATE` holds, and an assignment to it.
  abbrev pub reads : {A : Type 0} → (Cpu → A) → M S A
  reads f s = done (f s.cpu, s)

  abbrev pub assign : (Cpu → Cpu) → M S (Unit {0})
  assign f s = done (tt, record s { cpu = f s.cpu })

  -- A pointer that may be NULL, followed.
  abbrev pub deref : {A : Type 0} → Option A → M S A
  deref none s = null_pointer
  deref (some a) s = done (a, s)

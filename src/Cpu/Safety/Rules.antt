-- ===== src/Cpu/Safety/Rules.antt =====
-- The widths of `CPU_STATE`, what the processor relies on of the bus, and rules for commands.
use xmachine.Base.{
  ℕ, ◌^◌, ◌≤◌, ◌<◌, ◌⊎◌, arith, ◌==◌, true, false, if◌then◌else◌, Bool, List, [], ◌∷◌,
}
use xmachine.Base.Bits.{bit_and_field, le-bit_or}
use xmachine.Outcome.{Safe, returns, Safe-bind}
use xmachine.Cpu.State.{Cpu, Bus, Machine, M, ◌>>=◌, ◌>>◌, reads, assign, skip}
use xmachine.Cpu.Registers.{switch}
use xmachine.Cpu.Access.{translate_bus_addr}

pub record IsCpu (c : Cpu) : Type 0 where
  pub r0 : c.r0 < 2 ^ 16
  pub r1 : c.r1 < 2 ^ 16
  pub r2 : c.r2 < 2 ^ 16
  pub r3 : c.r3 < 2 ^ 16
  pub r4 : c.r4 < 2 ^ 16
  pub r5 : c.r5 < 2 ^ 16
  pub sp : c.sp < 2 ^ 16
  pub pc : c.pc < 2 ^ 16
  pub psw : c.psw < 2 ^ 16
  pub alu : c.alu < 2 ^ 16
  pub ir : c.ir < 2 ^ 16
  pub src_address : c.src_address < 2 ^ 32
  pub dest_address : c.dest_address < 2 ^ 32

-- Where the processor's requests on the bus lie: in the first 512 bytes, or past 16 bits.
abbrev pub OnBus : ℕ → Type 0
OnBus addr = (addr < 512) ⊎ (2 ^ 16 ≤ addr)

-- What the processor relies on: at such addresses a transfer is safe, and what it reads is a word.
pub record BusLaws (S : Type 0) ⦃bus : Bus S⦄ : Type 1 where
  pub Good : S → Type 0
  pub read_safe :
      (addr : ℕ) (s : S)
      → OnBus addr
      → Good s
      → Safe (λ r. (r.0 < 2 ^ 16) × Good r.1) (bus.read_data_in addr s)
  pub write_safe :
      (addr value : ℕ) (s : S)
      → OnBus addr
      → value < 2 ^ 16
      → Good s
      → Safe Good (bus.write_data_out addr value s)
  pub write_b_safe :
      (addr value : ℕ) (s : S)
      → OnBus addr
      → value < 2 ^ 8
      → Good s
      → Safe Good (bus.write_data_out_b addr value s)

-- `translate_bus_addr` gives an address below 512 or one of 2 ^ 16 or more, at any address.
pub translate_bus_addr-OnBus : (addr : ℕ) → OnBus (translate_bus_addr addr)
unfolding translate_bus_addr
translate_bus_addr-OnBus addr = ground (arith, bit_and_field 7 9 addr, le-bit_or addr 0o700000)

module _ {S : Type 0} ⦃bus : Bus S⦄ (laws : BusLaws S) where
  abbrev pub IsGood : Machine S → Type 0
  IsGood s = IsCpu s.cpu × laws.Good s.rest

  -- From a good machine the command is safe, leaves the machine good, and returns a `Q`.
  pub record Gives {A : Type 0} (Q : A → Type 0) (m : M S A) : Type 0 where
    pub run : (s : Machine S) → IsGood s → Safe (λ r. Q r.0 × IsGood r.1) (m s)

  abbrev pub Keeps : M S (Unit {0}) → Type 0
  Keeps = Gives (λ _. Unit)

  abbrev pub GivesWord : M S ℕ → Type 0
  GivesWord = Gives (λ v. v < 2 ^ 16)

  module _ {A : Type 0} where
    pub Gives-bind :
        {B : Type 0} {Q : A → Type 0} {R : B → Type 0} {m : M S A} {k : A → M S B}
        → Gives Q m
        → ((a : A) → Q a → Gives R (k a))
        → Gives R (m >>= k)
    unfolding ◌>>=◌
    Gives-bind h next = record {
      run = λ s good. Safe-bind (h.run s good) (λ r p. (next r.0 p.0).run r.1 p.1);
    }

  infixr 5 ◌then◌
  pub ◌then◌ :
      {A : Type 0} {R : A → Type 0} {m : M S (Unit {0})} {n : M S A}
      → Keeps m
      → Gives R n
      → Gives R (m >> n)
  unfolding ◌>>◌
  h then next = Gives-bind h (λ _ _. next)

  pub Gives-reads :
      {A : Type 0} {Q : A → Type 0} (f : Cpu → A)
      → ((c : Cpu) → IsCpu c → Q (f c))
      → Gives Q (reads f)
  Gives-reads f h = record { run = λ s good. returns (h s.cpu good.0, good) }

  pub reads-GivesWord : (f : Cpu → ℕ) → ((c : Cpu) → IsCpu c → f c < 2 ^ 16) → GivesWord (reads f)
  reads-GivesWord = Gives-reads

  pub Gives-value : {A : Type 0} {Q : A → Type 0} (a : A) → Q a → Gives Q (reads (λ _. a))
  Gives-value a h = record { run = λ s good. returns (h, good) }

  pub Keeps-assign : (f : Cpu → Cpu) → ((c : Cpu) → IsCpu c → IsCpu (f c)) → Keeps (assign f)
  Keeps-assign f h = record { run = λ s good. returns (tt, (h s.cpu good.0, good.1)) }

  pub Keeps-skip : Keeps skip
  Keeps-skip = record { run = λ s good. returns (tt, good) }

  pub Keeps-if : (b : Bool) {m n : M S (Unit {0})} → Keeps m → Keeps n → Keeps (if b then m else n)
  Keeps-if true h k = h
  Keeps-if false h k = k

  abbrev pub AllKeep : List (ℕ × M S (Unit {0})) → Type 0
  AllKeep [] = Unit
  AllKeep ((n, m) ∷ cases) = Keeps m × AllKeep cases

  pub Keeps-switch :
      (n : ℕ) (cases : List (ℕ × M S (Unit {0}))) {other : M S (Unit {0})}
      → AllKeep cases
      → Keeps other
      → Keeps (switch n cases other)
  unfolding switch
  Keeps-switch n [] h k = k
  Keeps-switch n ((i, m) ∷ cases) h k = Keeps-if (n == i) h.0 (Keeps-switch n cases h.1 k)

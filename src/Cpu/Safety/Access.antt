-- ===== src/Cpu/Safety/Access.antt =====
-- Reads and writes of registers and memory are safe, whatever the address.
use xmachine.Base.{
  ℕ, ◌^◌, ◌<◌, ◌⊎◌, ◌≡◌, arith, u8, true, false, Bool, inl, inr, none, some, Option-cases,
}
use xmachine.Outcome.{returns, Safe-bind}
use xmachine.Cpu.State.{Cpu, Bus, ◌>>=◌}
use xmachine.Cpu.Registers.{
  Reg, r0, get_reg, set_reg, register_of_number, inc_register, dec_register,
  fetch_register_contents, register_to_bus_addr, bus_addr_to_register, is_internal_bus_addr,
}
use xmachine.Cpu.Access.{
  translate_bus_addr, store_data_register, fetch_data, store_data, store_data_b,
}
use xmachine.Cpu.Safety.Rules.{IsCpu, BusLaws, translate_bus_addr-OnBus, Keeps, GivesWord}

-- Either an address is not internal and `bus_addr_to_register` has no register for it, or it is
-- internal and there is one.
internal_iff_register :
    (addr : ℕ)
    → (is_internal_bus_addr addr ≡ false) × (bus_addr_to_register addr ≡ none)
      ⊎ (is_internal_bus_addr addr ≡ true) × ((r : Reg) × (bus_addr_to_register addr ≡ some r))
unfolding is_internal_bus_addr bus_addr_to_register
internal_iff_register addr = elim (Option-cases (bus_addr_to_register addr)) [
  | inl e ↦ inl (ground arith, e)
  | inr (r, e) ↦ inr (ground arith, (r, e))
]

pub get_reg-lt : (r : Reg) {c : Cpu} → IsCpu c → get_reg r c < 2 ^ 16
get_reg-lt r0 h = omega arith
get_reg-lt r h = omega arith

pub set_reg-IsCpu : (r : Reg) {v : ℕ} {c : Cpu} → v < 2 ^ 16 → IsCpu c → IsCpu (set_reg r v c)
set_reg-IsCpu r0 lt h = omega arith
set_reg-IsCpu r lt h = omega arith

pub inc_register-IsCpu : (reg : ℕ) (b : Bool) (c : Cpu) → IsCpu c → IsCpu (inc_register reg b c)
unfolding inc_register
inc_register-IsCpu reg b c h = elim (Option-cases (register_of_number reg)) [
  | inl e ↦ rw (e, inc_register) h
  | inr (r, e) ↦ rw (e, inc_register) (set_reg-IsCpu r (omega arith) h)
]

pub dec_register-IsCpu : (reg : ℕ) (b : Bool) (c : Cpu) → IsCpu c → IsCpu (dec_register reg b c)
unfolding dec_register
dec_register-IsCpu reg b c h = elim (Option-cases (register_of_number reg)) [
  | inl e ↦ rw (e, dec_register) h
  | inr (r, e) ↦ rw (e, dec_register) (set_reg-IsCpu r (omega arith) h)
]

pub fetch_register_contents-lt :
    (reg : ℕ) (c : Cpu) → IsCpu c → fetch_register_contents reg c < 2 ^ 16
unfolding fetch_register_contents
fetch_register_contents-lt reg c h = elim (Option-cases (register_of_number reg)) [
  | inl e ↦ rw (e, fetch_register_contents) (omega arith)
  | inr (r, e) ↦ rw (e, fetch_register_contents) (get_reg-lt r h)
]

pub register_to_bus_addr-lt : (reg : ℕ) → register_to_bus_addr reg < 2 ^ 32
unfolding register_to_bus_addr
register_to_bus_addr-lt reg = ground arith

module _ {S : Type 0} ⦃bus : Bus S⦄ (laws : BusLaws S) where
  pub fetch_data-GivesWord : (addr : ℕ) → GivesWord laws (fetch_data addr)
  unfolding fetch_data ◌>>=◌
  fetch_data-GivesWord addr = record {
    run = λ s good. elim (internal_iff_register addr) [
      | inl (e, _) ↦ rw e (
          Safe-bind
            (laws.read_safe (translate_bus_addr addr) s.rest (translate_bus_addr-OnBus addr) good.1)
            (λ r p. returns (p.0, (good.0, p.1))))
      | inr (e, (r, found)) ↦ rw (e, found) (returns (get_reg-lt r good.0, good))
    ];
  }

  pub store_data_register-Keeps :
      (addr v : ℕ)
      → is_internal_bus_addr addr ≡ true
      → v < 2 ^ 16
      → Keeps laws (store_data_register addr v)
  unfolding store_data_register ◌>>=◌
  store_data_register-Keeps addr v inside lt = record {
    run = λ s good. elim (internal_iff_register addr) [
      | inl (e, _) ↦ absurd (cc)
      | inr (e, (r, found)) ↦ rw found (returns (tt, (set_reg-IsCpu r lt good.0, good.1)))
    ];
  }

  pub store_data-Keeps : (addr v : ℕ) → v < 2 ^ 16 → Keeps laws (store_data addr v)
  unfolding store_data ◌>>=◌
  store_data-Keeps addr v lt = record {
    run = λ s good. elim (internal_iff_register addr) [
      | inl (e, _) ↦ rw e (
          Safe-bind
            (laws.write_safe (translate_bus_addr addr) v s.rest (translate_bus_addr-OnBus addr) lt
              good.1)
            (λ r p. returns (tt, (good.0, p))))
      | inr (e, (r, found)) ↦ rw (e, found) (returns (tt, (set_reg-IsCpu r lt good.0, good.1)))
    ];
  }

  pub store_data_b-Keeps : (addr v : ℕ) → Keeps laws (store_data_b addr v)
  unfolding store_data_b ◌>>=◌
  store_data_b-Keeps addr v = record {
    run = λ s good. elim (internal_iff_register addr) [
      | inl (e, _) ↦ rw e (
          Safe-bind
            (laws.write_b_safe (translate_bus_addr addr) (u8 v) s.rest
              (translate_bus_addr-OnBus addr) (omega arith) good.1)
            (λ r p. returns (tt, (good.0, p))))
      | inr (e, (r, found)) ↦
          rw (e, found) (returns (tt, (set_reg-IsCpu r (omega arith) good.0, good.1)))
    ];
  }

-- ===== src/Cpu/Ops/Alu.antt =====
-- The steps that the instructions share: operands, `CPU_STATE->alu`, and storing it.
use xmachine.Base.{ℕ, bit_and}
use xmachine.Cpu.State.{Cpu, Bus, M, ◌>>=◌, reads, assign}
use xmachine.Cpu.Access.{fetch_data, store_data, store_data_b}

module _ {S : Type 0} where
  -- `CPU_STATE->alu = f(CPU_STATE)`
  unfoldable pub set_alu : (Cpu → ℕ) → M S (Unit {0})
  set_alu f = assign (λ c. record c { alu = f c })

module _ {S : Type 0} ⦃bus : Bus S⦄ where
  unfoldable pub fetch_src : M S ℕ
  fetch_src = do addr ← reads (λ c. c.src_address); fetch_data addr

  unfoldable pub fetch_dest : M S ℕ
  fetch_dest = do addr ← reads (λ c. c.dest_address); fetch_data addr

  -- `CPU_STATE->alu = fetch_data(CPU_STATE->dest_address)`, whole and `& 0377`; so for the source.
  unfoldable pub alu_from_dest : M S (Unit {0})
  unfolding fetch_dest set_alu
  alu_from_dest = do value ← fetch_dest; set_alu (λ _. value)

  unfoldable pub alu_from_dest_b : M S (Unit {0})
  unfolding fetch_dest set_alu
  alu_from_dest_b = do value ← fetch_dest; set_alu (λ _. bit_and value 0o377)

  unfoldable pub alu_from_src : M S (Unit {0})
  unfolding fetch_src set_alu
  alu_from_src = do value ← fetch_src; set_alu (λ _. value)

  unfoldable pub alu_from_src_b : M S (Unit {0})
  unfolding fetch_src set_alu
  alu_from_src_b = do value ← fetch_src; set_alu (λ _. bit_and value 0o377)

  unfoldable pub store_alu : M S (Unit {0})
  store_alu = do
    addr ← reads (λ c. c.dest_address)
    value ← reads (λ c. c.alu)
    store_data addr value

  unfoldable pub store_alu_b : M S (Unit {0})
  store_alu_b = do
    addr ← reads (λ c. c.dest_address)
    value ← reads (λ c. c.alu)
    store_data_b addr value

-- ===== src/Cpu/Access.antt =====
-- Reads and writes at a bus address: a register inside the processor, or a device over the bus.
use xmachine.Base.{ℕ, bit_and, bit_or, u8, ◌==◌, if◌then◌else◌}
use xmachine.Outcome.{Outcome, done}
use xmachine.Outcome
use xmachine.Cpu.State.{Bus, M, ◌>>=◌, reads, assign, deref}
use xmachine.Cpu.Registers.{get_reg, set_reg, is_internal_bus_addr, bus_addr_to_register}

-- Convert a high address to a bus address.
unfoldable pub translate_bus_addr : ℕ → ℕ
translate_bus_addr addr = if bit_and addr 0o177000 == 0 then addr else bit_or addr 0o700000

module _ {S : Type 0} where
  unfoldable pub fetch_data_register : ℕ → M S ℕ
  unfolding bus_addr_to_register
  fetch_data_register addr = do reg ← deref (bus_addr_to_register addr); reads (get_reg reg)

  unfoldable pub store_data_register : ℕ → ℕ → M S (Unit {0})
  unfolding bus_addr_to_register
  store_data_register addr value = do
    reg ← deref (bus_addr_to_register addr)
    assign (set_reg reg value)

module _ {S : Type 0} ⦃bus : Bus S⦄ where
  -- The master functions, on the machine.
  abbrev pub read_in : ℕ → M S ℕ
  read_in addr s =
      Outcome.◌>>=◌ (bus.read_data_in addr s.rest) (λ r. done (r.0, record s { rest = r.1 }))

  abbrev pub write_out : ℕ → ℕ → M S (Unit {0})
  write_out addr value s =
      Outcome.◌>>=◌ (bus.write_data_out addr value s.rest) (λ r. done (tt, record s { rest = r }))

  abbrev pub write_out_b : ℕ → ℕ → M S (Unit {0})
  write_out_b addr value s =
      Outcome.◌>>=◌ (bus.write_data_out_b addr value s.rest) (λ r. done (tt, record s { rest = r }))

  unfoldable pub fetch_data : ℕ → M S ℕ
  unfolding is_internal_bus_addr fetch_data_register translate_bus_addr
  fetch_data addr =
      if is_internal_bus_addr addr
      then fetch_data_register addr
      else read_in (translate_bus_addr addr)

  unfoldable pub store_data : ℕ → ℕ → M S (Unit {0})
  unfolding is_internal_bus_addr store_data_register translate_bus_addr
  store_data addr value =
      if is_internal_bus_addr addr
      then store_data_register addr value
      else write_out (translate_bus_addr addr) value

  -- `value` is a `uint8_t`: callers pass a word, which is cut.
  unfoldable pub store_data_b : ℕ → ℕ → M S (Unit {0})
  unfolding is_internal_bus_addr store_data_register translate_bus_addr
  store_data_b addr value =
      if is_internal_bus_addr addr
      then store_data_register addr (u8 value)
      else write_out_b (translate_bus_addr addr) (u8 value)

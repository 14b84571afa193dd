-- ===== src/Cpu/Execute.antt =====
-- `execute`: fetch, step `pc` over the word, execute, until the processor has halted.
use xmachine.Base.{ℕ, zero, suc, ◌+◌, u16, if◌then◌else◌, Option, none, some}
use xmachine.Outcome
use xmachine.Outcome.{Outcome, done}
use xmachine.Cpu.State.{Bus, Machine, M, ◌>>=◌, ◌>>◌, reads, assign}
use xmachine.Cpu.Access.{fetch_data}
use xmachine.Cpu.Decode.{exec_instruction}

module _ {S : Type 0} ⦃bus : Bus S⦄ where
  -- The body of the loop.
  unfoldable pub cycle : M S (Unit {0})
  unfolding exec_instruction fetch_data
  cycle = do
    pc ← reads (λ c. c.pc)
    word ← fetch_data pc
    assign (λ c. record c { ir = word })
    assign (λ c. record c { pc = u16 (c.pc + 2) })
    exec_instruction

  -- The loop with fuel: `none` while the processor still runs when the fuel is spent.
  unfoldable pub execute : ℕ → Machine S → Outcome (Option (Machine S))
  unfolding cycle
  execute zero s = if s.cpu.halted then done (some s) else done none
  execute (suc fuel) s =
      let rest = Outcome.◌>>=◌ (cycle s) (λ r. execute fuel r.1) in
      if s.cpu.halted then done (some s) else rest

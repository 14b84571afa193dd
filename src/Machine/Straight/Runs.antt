-- ===== src/Machine/Straight/Runs.antt =====
-- The run of a program without jumps.
use xmachine.Base.{
  ℕ, zero, suc, ◌+◌, ◌*◌, ◌%◌, ◌^◌, ◌<◌, ◌≡◌, refl, sym, subst, ap, ◌∙◌, arith, ltb, Bool, true,
  false, if◌then◌else◌, some, List, [], ◌∷◌, length,
}
use xmachine.Outcome
use xmachine.Outcome.{Outcome, done, Safe, returns}
use xmachine.Unibus.Link.{System, linked}
use xmachine.Unibus.Transfer.{after_read}
use xmachine.Cpu.State.{Machine, ◌>>=◌, ◌>>◌}
use xmachine.Cpu.Registers.{Reg, get_reg}
use xmachine.Cpu.Ops.Control.{halt}
use xmachine.Cpu.Decode.{OpCode, decode, dispatch, perform, exec_instruction}
use xmachine.Cpu.Execute.{cycle, execute}
use xmachine.Cpu.Safety.Rules.{IsGood}
use xmachine.Cpu.Safety.Instruction.{cycle-Keeps}
use xmachine.Cpu.Laws.Operands.{number}
use xmachine.Cpu.Laws.Unary.{unary_on_register}
use xmachine.Machine.Laws.{linked_laws}
use xmachine.Machine.Reach.{fetch_data_reach}
use xmachine.Machine.Straight.{
  is_unary, result, unary-result, word_of, decode-word_of, fields, fetched, stepped, interpret,
  word_in, Holds, set_reg-others, get_reg-lt, get_reg-fetched,
}

otherwise : {A : Type 0} (b : Bool) (x y : A) → b ≡ false → (if b then x else y) ≡ y
otherwise true x y e = absurd (cc)
otherwise false x y e = refl

of_done : {A : Type 0} {P : A → Type 0} {a : A} → Safe P (done a) → P a
of_done (returns h) = h

module _ (junk : ℕ) where
  abbrev Good : Machine System → Type 0
  Good = IsGood ⦃bus = linked junk⦄ (linked_laws junk)

  abbrev fetched_from : ℕ → Machine System → Machine System
  fetched_from w s = record { cpu = fetched w s.cpu; rest = after_read s.cpu.pc w s.rest }

  abbrev after : OpCode × Reg → Machine System → Machine System
  after i s = record { cpu = stepped i s.cpu; rest = after_read s.cpu.pc (word_of i) s.rest }

  abbrev halted : Machine System → Machine System
  halted s = record { cpu = interpret [] s.cpu; rest = after_read s.cpu.pc 0 s.rest }

  cycle-fetched :
      (w : ℕ) (s : Machine System)
      → Good s
      → s.cpu.pc < 512
      → word_in s.rest.device s.cpu.pc ≡ w
      → cycle ⦃bus = linked junk⦄ s ≡ exec_instruction ⦃bus = linked junk⦄ (fetched_from w s)
  unfolding cycle ◌>>=◌ ◌>>◌
  cycle-fetched w s good low e =
      let below : ltb s.cpu.pc 512 ≡ true = ground arith in
      rw (fetch_data_reach junk s.cpu.pc s good.1 (omega arith), below, e) refl

  cycle-unary :
      (op : OpCode) (r : Reg) (s : Machine System)
      → Good s
      → is_unary op ≡ true
      → number r < 7
      → s.cpu.pc < 512
      → word_in s.rest.device s.cpu.pc ≡ word_of (op, r)
      → cycle ⦃bus = linked junk⦄ s ≡ done (tt, after (op, r) s)
  unfolding exec_instruction perform ◌>>=◌
  cycle-unary op r s good e lt low here =
      let w : ℕ = word_of (op, r) in
      let f : Machine System = fetched_from w s in
      let (mode, reg) = fields op r e (omega arith) in
      let word : get_reg r f.cpu < 2 ^ 16 =
        subst (λ v. v < 2 ^ 16) (sym (get_reg-fetched r w s.cpu lt))
          (get_reg-lt r s.cpu lt good.0) in
      cycle-fetched w s good low here
      ∙ rw (decode-word_of op r e (omega arith)) (
          unary_on_register ⦃bus = linked junk⦄ r f (omega arith) mode reg op _
            (unary-result op (f.cpu.psw % 2) (get_reg r f.cpu) e) word)

  cycle-halt :
      (s : Machine System)
      → Good s
      → s.cpu.pc < 512
      → word_in s.rest.device s.cpu.pc ≡ 0
      → cycle ⦃bus = linked junk⦄ s ≡ done (tt, halted s)
  unfolding exec_instruction perform decode halt dispatch ◌>>=◌
  cycle-halt s good low here = cycle-fetched 0 s good low here ∙ refl

  execute-step :
      (fuel : ℕ) (s t : Machine System)
      → s.cpu.halted ≡ false
      → cycle ⦃bus = linked junk⦄ s ≡ done (tt, t)
      → execute ⦃bus = linked junk⦄ (suc fuel) s ≡ execute ⦃bus = linked junk⦄ fuel t
  unfolding execute
  execute-step fuel s t running e =
      otherwise s.cpu.halted _ _ running
      ∙ ap (λ o. Outcome.◌>>=◌ o (λ r. execute ⦃bus = linked junk⦄ fuel r.1)) e

  execute-halted :
      (s : Machine System)
      → s.cpu.halted ≡ true
      → execute ⦃bus = linked junk⦄ zero s ≡ done (some s)
  unfolding execute
  execute-halted s stopped = rw stopped refl

  after-Good :
      (op : OpCode) (r : Reg) (s : Machine System)
      → Good s
      → cycle ⦃bus = linked junk⦄ s ≡ done (tt, after (op, r) s)
      → Good (after (op, r) s)
  after-Good op r s good e =
      (of_done
        (subst (Safe _) e ((cycle-Keeps ⦃bus = linked junk⦄ (linked_laws junk)).run s good))).1

  -- On a processor and a memory that are linked, with 16-bit registers, bytes in the memory and the
  -- processor as bus master: if the memory holds at `pc` a list of word instructions with one
  -- operand, each on a register but `pc`, and a HALT behind them, each word at an address below 512,
  -- and the processor has not halted, then `execute` ends in one round for each instruction and one for HALT. The processor is then the one that the
  -- instructions make of it, one after the other, and the memory is as it was.
  pub straight_program_ends :
      (is : List (OpCode × Reg)) (s : Machine System)
      → Good s
      → s.cpu.halted ≡ false
      → s.cpu.pc + length is * 2 < 512
      → Holds s.rest.device is s.cpu.pc
      → (s' : Machine System) × (execute ⦃bus = linked junk⦄ (suc (length is)) s ≡ done (some s'))
        × (s'.cpu ≡ interpret is s.cpu)
        × (s'.rest.device ≡ s.rest.device)
  straight_program_ends [] s good running low here = (
    halted s,
    execute-step 0 s (halted s) running (cycle-halt s good (omega arith) here)
        ∙ execute-halted (halted s) refl,
    refl,
    refl,
  )
  straight_program_ends ((op, r) ∷ is) s good running low (e, lt, here, later) =
      let t : Machine System = after (op, r) s in
      let step : cycle ⦃bus = linked junk⦄ s ≡ done (tt, t) =
        cycle-unary op r s good e lt (omega arith) here in
      let f = fetched (word_of (op, r)) s.cpu in
      let (next, still) = set_reg-others r (result op (f.psw % 2) (get_reg r f)) f lt in
      let at_next : t.cpu.pc ≡ s.cpu.pc + 2 = omega (arith, next) in
      let (s', ends, cpu, device) =
        straight_program_ends is t (after-Good op r s good step) (still ∙ running)
          (omega (arith, at_next)) (subst (Holds s.rest.device is) (sym at_next) later) in
      (s', execute-step (suc (length is)) s t running step ∙ ends, cpu, device)

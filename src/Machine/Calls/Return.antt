-- ===== src/Machine/Calls/Return.antt =====
-- A subroutine's return to its caller.
use xmachine.Base.{ℕ, ◌+◌, ◌^◌, ◌≤◌, ◌<◌, ◌≡◌, refl, ◌∙◌, arith, bit_and, ◌>>>◌}
use xmachine.Outcome.{done}
use xmachine.Unibus.Link.{System, linked}
use xmachine.Cpu.State.{Cpu, Machine}
use xmachine.Cpu.Registers.{Reg, r0, r1, r2, r3, r4, r5, sp, pc, psw, get_reg, set_reg}
use xmachine.Cpu.Decode.{OpCode, dispatch}
use xmachine.Cpu.Laws.Operands.{number}
use xmachine.Machine.Laws.{IsRunning}
use xmachine.Machine.Calls.{called, returned, word_at, jsr_lem, rts_lem}

get_reg-set_reg : (r : Reg) (v : ℕ) (c : Cpu) → get_reg r (set_reg r v c) ≡ v
get_reg-set_reg r0 v c = refl
get_reg-set_reg r1 v c = refl
get_reg-set_reg r2 v c = refl
get_reg-set_reg r3 v c = refl
get_reg-set_reg r4 v c = refl
get_reg-set_reg r5 v c = refl
get_reg-set_reg sp v c = refl
get_reg-set_reg pc v c = refl
get_reg-set_reg psw v c = refl

-- The general registers from 0 to 5.
set_reg-sp : (r : Reg) (v : ℕ) (c : Cpu) → number r < 6 → (set_reg r v c).sp ≡ c.sp
set_reg-sp sp v c h = absurd (omega arith)
set_reg-sp r v c h = refl

set_reg-pc : (r : Reg) (v : ℕ) (c : Cpu) → number r < 6 → (set_reg r v c).pc ≡ c.pc
set_reg-pc pc v c h = absurd (omega arith)
set_reg-pc r v c h = refl

get_reg-pc :
    (r : Reg) (v : ℕ) (c : Cpu) → number r < 6 → get_reg r (record c { pc = v }) ≡ get_reg r c
get_reg-pc pc v c h = absurd (omega arith)
get_reg-pc r v c h = refl

-- A subroutine's end, `s'`, agrees with its start, `t`, in what it returns by.
pub record Kept (r : Reg) (t s' : Machine System) : Type 0 where
  pub runs : IsRunning s'.rest
  pub stack : s'.cpu.sp ≡ t.cpu.sp
  pub link : get_reg r s'.cpu ≡ get_reg r t.cpu
  pub low : s'.rest.device.store t.cpu.sp ≡ t.rest.device.store t.cpu.sp
  pub high : s'.rest.device.store (t.cpu.sp + 1) ≡ t.rest.device.store (t.cpu.sp + 1)

called-word :
    (r d : Reg) (s : Machine System)
    → get_reg r s.cpu < 2 ^ 16
    → word_at s.cpu.sp (called r d s) ≡ get_reg r s.cpu
called-word r d s wr = ground arith

called-link :
    (r d : Reg) (s : Machine System) → number r < 6 → get_reg r (called r d s).cpu ≡ s.cpu.pc
called-link r d s h = get_reg-pc r _ _ h ∙ get_reg-set_reg r s.cpu.pc _

called-sp : (r d : Reg) (s : Machine System) → number r < 6 → (called r d s).cpu.sp ≡ s.cpu.sp
called-sp r d s h = set_reg-sp r s.cpu.pc _ h

word_at-Kept :
    (r d : Reg) (s s' : Machine System)
    → number r < 6
    → Kept r (called r d s) s'
    → word_at s'.cpu.sp s' ≡ word_at s.cpu.sp (called r d s)
word_at-Kept r d s s' lr kept = rw (kept.stack, kept.low, kept.high, called-sp r d s lr) refl

-- On a linked machine whose processor is the bus master and whose memory holds bytes, with a stack
-- pointer from 9 to 510: JSR through one of the registers 0 to 5, in mode 1 of another or the same,
-- both of 16 bits, puts the register on the
-- stack, goes to the address and leaves the stack pointer. After it, an RTS through that register in
-- any state that agrees with the one after the call on the stack pointer, the register and the word
-- on the stack goes back behind the call, with the register and the stack pointer as they were.
pub rts-jsr :
    (junk : ℕ) (r d : Reg) (s s' : Machine System)
    → IsRunning s.rest
    → number r < 6
    → number d < 6
    → bit_and s.cpu.ir 0o700 >>> 6 ≡ number r
    → bit_and s.cpu.ir 0o70 >>> 3 ≡ 1
    → bit_and s.cpu.ir 0o7 ≡ number d
    → 9 ≤ s.cpu.sp
    → s.cpu.sp + 1 < 512
    → get_reg r s.cpu < 2 ^ 16
    → get_reg d s.cpu < 2 ^ 16
    → Kept r (called r d s) s'
    → bit_and s'.cpu.ir 0o7 ≡ number r
    → (dispatch ⦃bus = linked junk⦄ OpCode.jsr_op s ≡ done (tt, called r d s))
      × ((called r d s).cpu.pc ≡ get_reg d s.cpu)
      × (dispatch ⦃bus = linked junk⦄ OpCode.rts_op s' ≡ done (tt, returned r s'))
      × ((returned r s').cpu.pc ≡ s.cpu.pc)
      × (get_reg r (returned r s').cpu ≡ get_reg r s.cpu)
      × ((returned r s').cpu.sp ≡ s.cpu.sp)
rts-jsr junk r d s s' good lr ld er em ed lo hi wr wd kept er' =
    let top : s'.cpu.sp ≡ s.cpu.sp = kept.stack ∙ called-sp r d s lr in
    (
      jsr_lem junk r d s good lr ld er em ed lo hi wr wd,
      refl,
      rts_lem junk r s' kept.runs lr er' (omega arith) (omega arith),
      set_reg-pc r _ _ lr ∙ kept.link ∙ called-link r d s lr,
      get_reg-set_reg r _ _ ∙ word_at-Kept r d s s' lr kept ∙ called-word r d s wr,
      set_reg-sp r _ _ lr ∙ top,
    )

-- ===== src/Examples/CpuWitnesses.antt =====
-- The theorems on instructions, and on calls and returns, applied to small machines.
use xmachine.Base.{ℕ, zero, suc, List, ◌∷◌, some, ◌≡◌, refl, arith, true, []}
use xmachine.Outcome.{done}
use xmachine.Cpu.State.{Machine, init_cpu}
use xmachine.Cpu.Execute.{execute}
use xmachine.Machine.Straight.{interpret}
use xmachine.Machine.Straight.Runs.{straight_program_ends}
use xmachine.Cpu.Laws.Unary
use xmachine.Cpu.Laws.Unary.{unary_on_register}
use xmachine.Cpu.Laws.Binary
use xmachine.Cpu.Laws.Binary.{binary-OnRegisters}
use xmachine.Cpu.Laws.UnaryByte
use xmachine.Cpu.Laws.UnaryByte.{unary_b_on_register}
use xmachine.Cpu.Laws.BinaryByte
use xmachine.Cpu.Laws.BinaryByte.{binary_b-OnRegisters}
use xmachine.Cpu.Laws.Operands.{OnRegisters}
use xmachine.Cpu.Registers.{Reg, r1, r2, r3, r5}
use xmachine.Cpu.Decode.{OpCode, dispatch}
use xmachine.Unibus.Link.{System, linked}
use xmachine.Machine.Laws.{AreBytes}
use xmachine.Machine.Calls.{called, returned}
use xmachine.Machine.Calls.Return.{Kept, rts-jsr}
use xmachine.Examples.Programs.{machine_of, memory_of, init_cpu-IsCpu}

-- JSR R5, (R1), with the stack pointer at 0100, and RTS R5 in the state after it.
abbrev caller : Machine System
caller =
    let m = machine_of [] in
    record m { cpu = record m.cpu { ir = 0o4511; sp = 0o100; pc = 2; r1 = 0o40; r5 = 7 } }

abbrev at_return : Machine System
at_return = let m = called r5 r1 caller in record m { cpu = record m.cpu { ir = 0o205 } }

zeros-AreBytes : AreBytes (memory_of [])
zeros-AreBytes j = omega arith

at_return-AreBytes : AreBytes at_return.rest.device
at_return-AreBytes j = ground arith

at_return-Kept : Kept r5 (called r5 r1 caller) at_return
at_return-Kept = record {
  runs = (refl, at_return-AreBytes);
  stack = refl;
  link = refl;
  low = refl;
  high = refl;
}

rts-jsr_example :
    (dispatch ⦃bus = linked 0⦄ OpCode.jsr_op caller ≡ done (tt, called r5 r1 caller))
    × ((called r5 r1 caller).cpu.pc ≡ 0o40)
    × (dispatch ⦃bus = linked 0⦄ OpCode.rts_op at_return ≡ done (tt, returned r5 at_return))
    × ((returned r5 at_return).cpu.pc ≡ 2)
    × ((returned r5 at_return).cpu.r5 ≡ 7)
    × ((returned r5 at_return).cpu.sp ≡ 0o100)
rts-jsr_example =
    rts-jsr 0 r5 r1 caller at_return (refl, zeros-AreBytes) (omega arith) (omega arith) refl refl
      refl (omega arith) (omega arith) (omega arith) (omega arith) at_return-Kept refl

-- INC R3 with R3 full, and SUB R1, R2.
abbrev at_inc : Machine System
at_inc = record { cpu = record init_cpu { r3 = 0xffff; ir = 0o5203 }; rest = (machine_of []).rest }

abbrev at_sub : Machine System
at_sub = record {
  cpu = record init_cpu { r1 = 7; r2 = 9; ir = 0o160102 };
  rest = (machine_of []).rest;
}

sub_operands : OnRegisters r1 r2 at_sub.cpu.ir
sub_operands = record { src_mode = refl; src_reg = refl; dest_mode = refl; dest_reg = refl }

unary_on_register_example :
    dispatch ⦃bus = linked 0⦄ OpCode.inc_op at_inc
    ≡ done (tt, record at_inc { cpu = Unary.operated r3 0 at_inc.cpu })
unary_on_register_example =
    unary_on_register ⦃bus = linked 0⦄ r3 at_inc (omega arith) refl refl OpCode.inc_op 0 refl
      (omega arith)

binary-OnRegisters_example :
    dispatch ⦃bus = linked 0⦄ OpCode.sub_op at_sub
    ≡ done (tt, record at_sub { cpu = Binary.operated r1 r2 (true, 0xfffe) at_sub.cpu })
binary-OnRegisters_example =
    binary-OnRegisters ⦃bus = linked 0⦄ OpCode.sub_op r1 r2 (true, 0xfffe) at_sub refl (omega arith)
      (omega arith) sub_operands (omega arith) (omega arith)

-- INCB of a register whose low byte is full: a zero byte, and Z clear.
abbrev at_incb : Machine System
at_incb = record {
  cpu = record init_cpu { r3 = 0x1ff; ir = 0o105203 };
  rest = (machine_of []).rest;
}

unary_b_on_register_example :
    dispatch ⦃bus = linked 0⦄ OpCode.incb_op at_incb
    ≡ done (tt, record at_incb { cpu = UnaryByte.operated r3 (0, 0x100) at_incb.cpu })
unary_b_on_register_example =
    unary_b_on_register ⦃bus = linked 0⦄ r3 at_incb (omega arith) refl refl OpCode.incb_op
      (0, 0x100) refl

-- BISB, on the operands of the subtraction.
abbrev at_bisb : Machine System
at_bisb = record {
  cpu = record init_cpu { r1 = 0x703; r2 = 0x904; ir = 0o150102 };
  rest = (machine_of []).rest;
}

binary_b-OnRegisters_example :
    dispatch ⦃bus = linked 0⦄ OpCode.bisb_op at_bisb
    ≡ done (tt, record at_bisb { cpu = BinaryByte.operated r1 r2 (7, 7) at_bisb.cpu })
binary_b-OnRegisters_example =
    binary_b-OnRegisters ⦃bus = linked 0⦄ r1 r2 at_bisb (omega arith) (omega arith)
      (record { src_mode = refl; src_reg = refl; dest_mode = refl; dest_reg = refl }) OpCode.bisb_op
      (7, 7) refl

-- INC R3; ASL R3; HALT
abbrev doubling : List ℕ
doubling = 0x83 ∷ 0x0a ∷ 0xc3 ∷ 0x0c ∷ []

doubling-AreBytes : AreBytes (memory_of doubling)
doubling-AreBytes zero = omega arith
doubling-AreBytes (suc zero) = omega arith
doubling-AreBytes (suc (suc zero)) = omega arith
doubling-AreBytes (suc (suc (suc zero))) = omega arith
doubling-AreBytes (suc (suc (suc (suc j)))) = omega arith

abbrev twice : List (OpCode × Reg)
twice = (OpCode.inc_op, r3) ∷ (OpCode.asl_op, r3) ∷ []

straight_program_ends_example :
    (s' : Machine System) × (execute ⦃bus = linked 0⦄ 3 (machine_of doubling) ≡ done (some s'))
    × (s'.cpu ≡ interpret twice init_cpu)
    × (s'.rest.device ≡ memory_of doubling)
straight_program_ends_example =
    straight_program_ends 0 twice (machine_of doubling) (init_cpu-IsCpu, (refl, doubling-AreBytes))
      refl (omega arith) (refl, omega arith, refl, (refl, omega arith, refl, refl))

-- Which is twice one.
doubled : (interpret twice init_cpu).r3 ≡ 2
doubled = refl

-- ===== src/Examples/Witnesses.antt =====
-- Each theorem with hypotheses, applied to a concrete machine, memory or word.
use xmachine.Base.{
  ℕ, zero, suc, ◌+◌, ◌*◌, ◌/◌, ◌≤◌, ◌<◌, ◌≡◌, ◌↔◌, refl, arith, [], ◌∷◌, some, true,
}
use xmachine.Outcome.{done, blocked, out_of_bounds, ◌>>=◌, Safe}
use xmachine.Mem.{MemDev, is_local_addr, read_word, write_word, write_byte, load_aout}
use xmachine.Mem.Words.{read_word-write_word, read_word-write_byte}
use xmachine.Mem.Loading.{with_bytes, load_aout_lem, read_word-load_aout, load_aout_overflow}
use xmachine.Unibus.Link.{System, linked, boot, read_data_in, write_data_out, write_data_out_b}
use xmachine.Unibus.Transfer.{
  after_read, after_write, read_data_in_lem, write_data_out_lem, write_data_out_b_lem,
}
use xmachine.Cpu.State.{Machine, init_cpu}
use xmachine.Cpu.Access.{fetch_data}
use xmachine.Cpu.Decode.{OpCode, code, decode, dispatch, exec_instruction}
use xmachine.Cpu.Decode.Table.{size, decode_lem}
use xmachine.Cpu.Execute.{execute}
use xmachine.Cpu.Safety.Rules.{IsGood}
use xmachine.Cpu.Safety.Instruction.{WhenDone, exec_instruction-Safe, execute-Safe}
use xmachine.Cpu.Laws.Conditions.{after_branch, branch_conditions}
use xmachine.Machine.Laws.{AreBytes, IsRunning, linked_laws}
use xmachine.Machine.Reach.{fetch_data_reach}
use xmachine.Unibus.Types.{Xfer, r_block_out}
use xmachine.Disk.{DiskState, init_disk}
use xmachine.Disk.Commands
use xmachine.Disk.Commands.{Files, start_function}
use xmachine.Disk.Bounds.{execute_in_buffer}
use xmachine.Disk.Transfer.{Stuck, transfer_never_ends}
use xmachine.Examples.Programs.{init_cpu-IsCpu, memory_of, machine_of, counting}

counting-AreBytes : AreBytes (memory_of counting)
counting-AreBytes zero = omega arith
counting-AreBytes (suc zero) = omega arith
counting-AreBytes (suc (suc zero)) = omega arith
counting-AreBytes (suc (suc (suc zero))) = omega arith
counting-AreBytes (suc (suc (suc (suc zero)))) = omega arith
counting-AreBytes (suc (suc (suc (suc (suc zero))))) = omega arith
counting-AreBytes (suc (suc (suc (suc (suc (suc zero)))))) = omega arith
counting-AreBytes (suc (suc (suc (suc (suc (suc (suc zero))))))) = omega arith
counting-AreBytes (suc (suc (suc (suc (suc (suc (suc (suc j)))))))) = omega arith

counting-IsRunning : IsRunning (machine_of counting).rest
counting-IsRunning = (refl, counting-AreBytes)

execute-Safe_example :
    Safe
      (WhenDone ⦃bus = linked 0⦄ (linked_laws 0))
      (execute ⦃bus = linked 0⦄ 4 (machine_of counting))
execute-Safe_example =
    execute-Safe ⦃bus = linked 0⦄ (linked_laws 0) 4 (machine_of counting)
      (init_cpu-IsCpu, counting-IsRunning)

exec_instruction-Safe_example :
    Safe
      (λ r. IsGood ⦃bus = linked 0⦄ (linked_laws 0) r.1)
      (exec_instruction ⦃bus = linked 0⦄ (machine_of counting))
exec_instruction-Safe_example =
    exec_instruction-Safe ⦃bus = linked 0⦄ (linked_laws 0) (machine_of counting)
      (init_cpu-IsCpu, counting-IsRunning)

decode_lem_example :
    (decode 0o10203 ≡ some OpCode.mov_op)
    ↔ ((code OpCode.mov_op ≤ 0o10203) × (0o10203 < code OpCode.mov_op + size OpCode.mov_op))
decode_lem_example = decode_lem 0o10203 OpCode.mov_op (omega arith)

-- BGE with N and V both set.
at_bge : Machine System
at_bge = record {
  cpu = record init_cpu { psw = 0o12; ir = 0o2003 };
  rest = boot (memory_of counting);
}

branch_conditions_example :
    (alu : ℕ) × (dispatch ⦃bus = linked 0⦄ OpCode.bge_op at_bge
      ≡ done (tt, after_branch alu true at_bge))
unfolding at_bge
branch_conditions_example = branch_conditions ⦃bus = linked 0⦄ OpCode.bge_op true at_bge refl

fetch_data_reach_example : fetch_data ⦃bus = linked 0⦄ 512 (machine_of counting) ≡ blocked
fetch_data_reach_example =
    fetch_data_reach 0 512 (machine_of counting) counting-IsRunning (omega arith)

read_data_in_lem_example : read_data_in 0 0 (boot (memory_of counting)) ≡ (
    read_word 0 (memory_of counting) >>= λ w. done (w, after_read 0 w (boot (memory_of counting))))
unfolding is_local_addr
read_data_in_lem_example = read_data_in_lem 0 0 (boot (memory_of counting)) refl

write_data_out_lem_example : write_data_out 0 2 7 (boot (memory_of counting)) ≡ (
    write_word 2 7 (memory_of counting) >>= λ d.
    done (after_write 2 7 d (boot (memory_of counting))))
unfolding is_local_addr
write_data_out_lem_example = write_data_out_lem 0 2 7 (boot (memory_of counting)) refl

write_data_out_b_lem_example : write_data_out_b 0 3 7 (boot (memory_of counting)) ≡ (
    write_byte 3 7 (memory_of counting) >>= λ d.
    done (after_write 3 7 d (boot (memory_of counting))))
unfolding is_local_addr
write_data_out_b_lem_example = write_data_out_b_lem 0 3 7 (boot (memory_of counting)) refl

read_word-write_word_example :
    (d' : MemDev) × (write_word 100 0o123456 (memory_of counting) ≡ done d')
    × (read_word 100 d' ≡ done 0o123456)
    × (d'.store 101 ≡ 0o123456 / 256)
read_word-write_word_example =
    read_word-write_word (memory_of counting) 100 0o123456 101 (omega arith) (omega arith)

read_word-write_byte_example :
    (low high : MemDev) × (write_byte 2 9 (memory_of counting) ≡ done low)
    × (write_byte 3 9 (memory_of counting) ≡ done high)
    × (read_word 2 low ≡ done 9)
    × (read_word 2 high ≡ done (9 * 256 + 5))
unfolding read_word
read_word-write_byte_example =
    read_word-write_byte (memory_of counting) 2 5 9 (omega arith) (omega arith) (omega arith) refl
      (omega arith)

load_aout_lem_example :
    load_aout 4 (0o5200 ∷ 0 ∷ []) 6 (memory_of counting)
    ≡ done (with_bytes (128 ∷ 10 ∷ 0 ∷ 0 ∷ []) 6 (memory_of counting))
load_aout_lem_example =
    load_aout_lem (0o5200 ∷ 0 ∷ []) 6 (memory_of counting) (omega arith, (omega arith, tt))
      (omega arith)

read_word-load_aout_example :
    (load_aout 4 (0o5200 ∷ 7 ∷ []) 6 (memory_of counting) >>= read_word 8) ≡ done 7
read_word-load_aout_example =
    read_word-load_aout (0o5200 ∷ 7 ∷ []) 6 (memory_of counting) 1 7
      (omega arith, (omega arith, tt)) (omega arith) refl

load_aout_overflow_example :
    load_aout 4 (0o5200 ∷ 0 ∷ []) 65533 (memory_of counting) ≡ out_of_bounds
load_aout_overflow_example =
    load_aout_overflow (0o5200 ∷ 0 ∷ []) 65533 (memory_of counting) (omega arith, (omega arith, tt))
      (omega arith) (omega arith)

-- A disk that fills its buffer, and files that hold nothing.
abbrev filling : DiskState
filling = start_function 0 init_disk

abbrev no_files : Files (Unit {0})
no_files = record {
  read_at = λ fd offset buffer f. (buffer, f);
  write_at = λ fd offset buffer f. f;
}

abbrev write_rxdb : Xfer
write_rxdb = record { op = r_block_out; addr = 0o777172; value = 7 }

execute_in_buffer_example :
    (s : DiskState × Unit) × (Commands.execute no_files
        (write_rxdb ∷ write_rxdb ∷ [])
        (init_disk, tt)
      ≡ done s)
    × (s.0.buffer_idx < 128)
execute_in_buffer_example =
    execute_in_buffer no_files (write_rxdb ∷ write_rxdb ∷ []) init_disk tt (omega arith)

transfer_never_ends_example :
    (d' : DiskState) × (Commands.execute no_files (write_rxdb ∷ write_rxdb ∷ []) (filling, tt)
      ≡ done (d', tt))
    × Stuck filling d'
unfolding start_function
transfer_never_ends_example =
    transfer_never_ends no_files (write_rxdb ∷ write_rxdb ∷ []) filling tt refl refl

-- ===== src/Attic/Agreement.antt =====
-- The steps of an instruction on registers, in the earlier emulator.
pub mod Forms
pub mod Words
pub mod Branching
pub mod Jumps
use xmachine.Base.{
  ℕ, ◌+◌, ◌*◌, ◌%◌, ◌^◌, ◌<◌, ◌≡◌, ◌≢◌, refl, sym, ap, ◌∙◌, arith, bit_and, bit_or, bit_xor, ◌>>>◌,
  ◌==◌, if◌then◌else◌, Bool, true, false, inl, inr,
}
use xmachine.Base.Bits.{bit_and-le, bit_or-lt, bit_xor-lt, bit_and_low}
use xmachine.Outcome.{done}
use xmachine.Attic.State.{Effect, Memory, Emulator, Command, ◌>>=◌, ◌>>◌, on_memory}
use xmachine.Attic.Memory.{
  r_ps, translate_register, get_r, set_r, write_word, direct_read_word, direct_write_word,
}
use xmachine.Attic.Addressing.{pc_addressing, sp_addressing, general_addressing}
use xmachine.Attic.Operands.{
  setup_dest_addressing, setup_src_addressing, setup_pc_dest_addressing, setup_sp_dest_addressing,
  setup_general_dest_addressing, setup_pc_src_addressing, setup_sp_src_addressing,
  setup_general_src_addressing,
}
use xmachine.Attic.Branches.{put_flag, with_flag, carry_flag}
use xmachine.Attic.Steps.{carry, dest_word, put_word}
use xmachine.Attic.Registers.{
  word_at, with_word, reg_loc, word_at-lt, get_r_lem, set_r_lem, word_at-with_word, word_at-other,
}
use xmachine.Attic.Effects.{tkb_loc, tpb_loc, rxdb}
use xmachine.Attic.Effects.Table.{IsWired, with_word-IsWired}
use xmachine.Attic.Effects.Access.{plain_read, plain_write}
use xmachine.Cpu.Registers.{Reg, psw, switch}
use xmachine.Cpu.Laws.Operands.{number}

-- The word of a register.
abbrev pub register : Reg → Emulator → ℕ
register r s = word_at (reg_loc (number r)) s.memory

-- The status word.
abbrev pub status : Emulator → ℕ
status s = word_at (reg_loc r_ps) s.memory

-- The operand set up with `a` in `ALU`, a word stored to it, and a flag set.
abbrev pub loaded : Reg → ℕ → Emulator → Emulator
loaded r a s = record s { alu = a; memory = record s.memory { dest = reg_loc (number r) } }

abbrev pub stored : Reg → ℕ → Emulator → Emulator
stored r v s = record s { memory = with_word (reg_loc (number r)) v s.memory }

abbrev pub flagged : ℕ → Bool → Emulator → Emulator
flagged flag raised s = record s {
  memory =
      with_word (reg_loc r_ps) (with_flag flag raised (word_at (reg_loc r_ps) s.memory)) s.memory;
}

pub with_flag-lt :
    (flag : ℕ) (raised : Bool) (ps : ℕ)
    → flag < 2 ^ 16
    → ps < 2 ^ 16
    → with_flag flag raised ps < 2 ^ 16
with_flag-lt flag true ps h lt = bit_or-lt 16 ps flag lt h
with_flag-lt flag false ps h lt = ground (arith, bit_xor-lt 16 ps flag lt h)

pub put_flag_lem :
    (flag : ℕ) (raised : Bool) (s : Emulator)
    → flag < 2 ^ 16
    → IsWired s.memory
    → put_flag flag raised s ≡ done (tt, flagged flag raised s)
unfolding ◌>>=◌ on_memory
put_flag_lem flag raised s lt h =
    let ps : ℕ = word_at (reg_loc r_ps) s.memory in
    rw
      (
        get_r_lem r_ps s.memory (omega arith) h.bytes,
        set_r_lem r_ps (with_flag flag raised ps) s.memory (omega arith)
            (with_flag-lt flag raised ps lt (word_at-lt (reg_loc r_ps) s.memory h.bytes)),
      )
      refl

pub carry_lem :
    (s : Emulator) → IsWired s.memory → carry s ≡ done (word_at (reg_loc r_ps) s.memory % 2, s)
unfolding carry ◌>>=◌ on_memory
carry_lem s h =
    rw
      (
        get_r_lem r_ps s.memory (omega arith) h.bytes,
        bit_and_low 1 (word_at (reg_loc r_ps) s.memory),
      )
      refl

pub setup_dest_lem :
    (c : Effect → Command Memory (Unit {0})) (r : Reg) (s : Emulator)
    → number r < 8
    → bit_and s.ir 0o70 >>> 3 ≡ 0
    → bit_and s.ir 0o7 ≡ number r
    → setup_dest_addressing c s ≡ done (tt, loaded r s.alu s)
unfolding setup_dest_addressing setup_pc_dest_addressing setup_sp_dest_addressing
    setup_general_dest_addressing pc_addressing sp_addressing general_addressing switch
    translate_register on_memory ◌>>=◌
setup_dest_lem c psw s lt mode reg = absurd (omega arith)
setup_dest_lem c r s lt mode reg = rw (mode, reg) refl

module _ (c : Effect → Command Memory (Unit {0})) (r : Reg) where
  pub dest_word_lem :
      (a : ℕ) (s : Emulator)
      → number r < 8
      → IsWired s.memory
      → dest_word c (loaded r a s) ≡ done (register r s, loaded r a s)
  unfolding dest_word ◌>>=◌ on_memory
  dest_word_lem a s lt h =
      let m : Memory = record s.memory { dest = reg_loc (number r) } in
      let wired : IsWired m = record {
        bytes = h.bytes;
        read_effects = h.read_effects;
        write_effects = h.write_effects;
      } in
      rw
        (plain_read c (reg_loc (number r)) m (omega arith) (ground arith) (ground arith)
          (ground arith) wired)
        refl

  pub put_word_lem :
      (a v : ℕ) (s : Emulator)
      → number r < 8
      → v < 2 ^ 16
      → IsWired s.memory
      → put_word c v (loaded r a s) ≡ done (tt, stored r v (loaded r a s))
  unfolding put_word write_word ◌>>=◌ on_memory
  put_word_lem a v s lt fits h =
      let m : Memory = record s.memory { dest = reg_loc (number r) } in
      let wired : IsWired m = record {
        bytes = h.bytes;
        read_effects = h.read_effects;
        write_effects = h.write_effects;
      } in
      rw (plain_write c (reg_loc (number r)) v m (omega arith) fits (ground arith) wired) refl

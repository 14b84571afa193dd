-- ===== src/Attic/Agreement/Forms.antt =====
-- The forms of the word instructions with one operand, on a register.
use xmachine.Base.{inr, ap, ℕ, ◌%◌, ◌^◌, ◌<◌, ◌≡◌, refl, ◌∙◌, arith, ◌==◌, Bool, false, inl}
use xmachine.Outcome.{Outcome, done}
use xmachine.Attic.State.{Effect, Memory, Emulator, Command, ◌>>=◌, ◌>>◌}
use xmachine.Attic.Memory.{r_ps}
use xmachine.Attic.Operands.{setup_dest_addressing}
use xmachine.Attic.Branches.{zero_flag, set_zero_flag, with_flag}
use xmachine.Attic.Steps.{set_alu, carry, dest_word, put_word, put_alu}
use xmachine.Attic.Double.{zero_of_alu}
use xmachine.Attic.Registers.{word_at, reg_loc, word_at-lt, word_at-with_word, word_at-other}
use xmachine.Attic.Effects.Table.{IsWired, with_word-IsWired}
use xmachine.Attic.Agreement.{
  status, register, loaded, stored, flagged, with_flag-lt, put_flag_lem, carry_lem, setup_dest_lem,
  dest_word_lem, put_word_lem,
}
use xmachine.Cpu.Registers.{Reg}
use xmachine.Cpu.Laws.Operands.{number}
use xmachine.Base.{bit_and, ◌>>>◌}

-- `s'` is `s` with `v` in a register and the status word `p`.
pub record Gives (r : Reg) (v p : ℕ) (s s' : Emulator) : Type 0 where
  pub value : register r s' ≡ v
  pub others :
      (q : Reg) → number q < 8 → (number q == number r) ≡ false → register q s' ≡ register q s
  pub codes : status s' ≡ p
  pub wired : IsWired s'.memory

-- It ends, and gives that.
abbrev pub EndsWith : Reg → ℕ → ℕ → Emulator → Outcome (Unit {0} × Emulator) → Type 0
EndsWith r v p s o = (s' : Emulator) × (o ≡ done (tt, s')) × Gives r v p s s'

abbrev pub carry_bit : Emulator → ℕ
carry_bit s = word_at (reg_loc r_ps) s.memory % 2

stored-Gives :
    (r : Reg) (v a : ℕ) (s : Emulator)
    → number r < 8
    → v < 2 ^ 16
    → IsWired s.memory
    → Gives r v (status s) s (stored r v (loaded r a s))
stored-Gives r v a s r8 lt h = record {
  value = word_at-with_word (reg_loc (number r)) v s.memory lt;
  others = λ q q8 other.
      word_at-other (reg_loc (number q)) (reg_loc (number r)) v s.memory (ground arith);
  codes = word_at-other (reg_loc r_ps) (reg_loc (number r)) v s.memory (inr (omega arith));
  wired = record {
    bytes = (with_word-IsWired (reg_loc (number r)) v s.memory lt h).bytes;
    read_effects = h.read_effects;
    write_effects = h.write_effects;
  };
}

-- The flags lie in the status word.
flagged-Gives :
    (r : Reg) (v p flag : ℕ) (raised : Bool) (s s' : Emulator)
    → number r < 8
    → flag < 2 ^ 16
    → Gives r v p s s'
    → Gives r v (with_flag flag raised p) s (flagged flag raised s')
flagged-Gives r v p flag raised s s' lt small g =
    let ps : ℕ = word_at (reg_loc r_ps) s'.memory in
    let fits =
      with_flag-lt flag raised ps small (word_at-lt (reg_loc r_ps) s'.memory g.wired.bytes) in
    record {
      value =
          word_at-other (reg_loc (number r)) (reg_loc r_ps) (with_flag flag raised ps) s'.memory
            (inl (omega arith))
          ∙ g.value;
      others = λ q q8 other.
          word_at-other (reg_loc (number q)) (reg_loc r_ps) (with_flag flag raised ps) s'.memory
            (inl (omega arith))
          ∙ g.others q q8 other;
      codes =
          word_at-with_word (reg_loc r_ps) (with_flag flag raised ps) s'.memory fits
          ∙ ap (with_flag flag raised) g.codes;
      wired = with_word-IsWired (reg_loc r_ps) (with_flag flag raised ps) s'.memory fits g.wired;
    }

module _ (c : Effect → Command Memory (Unit {0})) (r : Reg) (s : Emulator) (lt : number r < 8)
    (mode : bit_and s.ir 0o70 >>> 3 ≡ 0) (reg : bit_and s.ir 0o7 ≡ number r)
    (h : IsWired s.memory) where
  -- The status word with Z for a result.
  abbrev zeroed : ℕ → ℕ
  zeroed v = with_flag zero_flag (v == 0) (status s)

  -- A result that is stored, with and without the zero flag.
  abbrev plain_form : (ℕ → ℕ) → Command Emulator (Unit {0})
  plain_form g = do setup_dest_addressing c; w ← dest_word c; put_word c (g w)

  abbrev zero_form : (ℕ → ℕ) → Command Emulator (Unit {0})
  zero_form g = do setup_dest_addressing c; w ← dest_word c; put_word c (g w); set_zero_flag (g w)

  abbrev carry_form : (ℕ → ℕ → ℕ) → Command Emulator (Unit {0})
  carry_form g = do
    setup_dest_addressing c
    w ← dest_word c
    b ← carry
    put_word c (g b w)
    set_zero_flag (g b w)

  -- A result that goes through `ALU`.
  abbrev alu_form : (ℕ → ℕ) → Command Emulator (Unit {0})
  alu_form g = do
    setup_dest_addressing c
    w ← dest_word c
    set_alu (λ s. w)
    set_alu (λ s. g s.alu)
    put_alu c
    zero_of_alu

  pub plain_lem :
      (g : ℕ → ℕ)
      → g (register r s) < 2 ^ 16
      → EndsWith r (g (register r s)) (status s) s (plain_form g s)
  unfolding ◌>>=◌ ◌>>◌
  plain_lem g fits = (
    stored r (g (register r s)) (loaded r s.alu s),
    rw
        (
          setup_dest_lem c r s lt mode reg,
          dest_word_lem c r s.alu s lt h,
          put_word_lem c r s.alu (g (register r s)) s lt fits h,
        )
        refl,
    stored-Gives r (g (register r s)) s.alu s lt fits h,
  )

  pub clr_lem : EndsWith r 0 (status s) s ((do setup_dest_addressing c; put_word c 0) s)
  unfolding ◌>>=◌ ◌>>◌
  clr_lem = (
    stored r 0 (loaded r s.alu s),
    rw (setup_dest_lem c r s lt mode reg, put_word_lem c r s.alu 0 s lt (omega arith) h) refl,
    stored-Gives r 0 s.alu s lt (omega arith) h,
  )

  after_store : (v a : ℕ) → v < 2 ^ 16 → IsWired (stored r v (loaded r a s)).memory
  after_store v a fits = (stored-Gives r v a s lt fits h).wired

  pub zero_lem :
      (g : ℕ → ℕ)
      → g (register r s) < 2 ^ 16
      → EndsWith r (g (register r s)) (zeroed (g (register r s))) s (zero_form g s)
  unfolding ◌>>=◌ ◌>>◌ set_zero_flag
  zero_lem g fits =
      let v : ℕ = g (register r s) in
      (
        flagged zero_flag (v == 0) (stored r v (loaded r s.alu s)),
        rw
            (
              setup_dest_lem c r s lt mode reg,
              dest_word_lem c r s.alu s lt h,
              put_word_lem c r s.alu v s lt fits h,
            )
            (put_flag_lem zero_flag (v == 0) _ (omega arith) (after_store v s.alu fits)),
        flagged-Gives r v (status s) zero_flag (v == 0) s _ lt (omega arith)
            (stored-Gives r v s.alu s lt fits h),
      )

  pub carry_form_lem :
      (g : ℕ → ℕ → ℕ)
      → g (carry_bit s) (register r s) < 2 ^ 16
      → EndsWith r
          (g (carry_bit s) (register r s))
          (zeroed (g (carry_bit s) (register r s)))
          s
          (carry_form g s)
  unfolding ◌>>=◌ ◌>>◌ set_zero_flag
  carry_form_lem g fits =
      let v : ℕ = g (carry_bit s) (register r s) in
      let wired : IsWired (loaded r s.alu s).memory = record {
        bytes = h.bytes;
        read_effects = h.read_effects;
        write_effects = h.write_effects;
      } in
      (
        flagged zero_flag (v == 0) (stored r v (loaded r s.alu s)),
        rw
            (
              setup_dest_lem c r s lt mode reg,
              dest_word_lem c r s.alu s lt h,
              carry_lem (loaded r s.alu s) wired,
              put_word_lem c r s.alu v s lt fits h,
            )
            (put_flag_lem zero_flag (v == 0) _ (omega arith) (after_store v s.alu fits)),
        flagged-Gives r v (status s) zero_flag (v == 0) s _ lt (omega arith)
            (stored-Gives r v s.alu s lt fits h),
      )

  pub alu_lem :
      (g : ℕ → ℕ)
      → g (register r s) < 2 ^ 16
      → EndsWith r (g (register r s)) (zeroed (g (register r s))) s (alu_form g s)
  unfolding ◌>>=◌ ◌>>◌ set_alu put_alu zero_of_alu set_zero_flag
  alu_lem g fits =
      let v : ℕ = g (register r s) in
      (
        flagged zero_flag (v == 0) (stored r v (loaded r v s)),
        rw
            (
              setup_dest_lem c r s lt mode reg,
              dest_word_lem c r s.alu s lt h,
              put_word_lem c r v v s lt fits h,
            )
            (put_flag_lem zero_flag (v == 0) _ (omega arith) (after_store v v fits)),
        flagged-Gives r v (status s) zero_flag (v == 0) s _ lt (omega arith)
            (stored-Gives r v v s lt fits h),
      )

-- ===== src/Cpu/Safety/Addressing.antt =====
-- Setting up an operand is safe in every mode.
use xmachine.Base.{ℕ, ◌+◌, ◌^◌, ◌<◌, arith, Bool, true, false, u32}
use xmachine.Cpu.State.{Cpu, Bus, M, ◌>>=◌, ◌>>◌, reads, assign}
use xmachine.Cpu.Access.{fetch_data}
use xmachine.Cpu.Registers.{inc_register, fetch_register_contents}
use xmachine.Cpu.Addressing.{
  Loc, src, dest, set_loc, add_pc, add_sp, next_word, setup_pc_addressing, setup_sp_addressing,
  general_addressing, setup_general_addressing, setup_general_byte_addressing, setup_addressing,
  setup_dest_addressing, setup_src_addressing,
}
use xmachine.Cpu.Safety.Rules.{
  IsCpu, BusLaws, Keeps, GivesWord, Gives-bind, ◌then◌, reads-GivesWord, Gives-value, Keeps-assign,
  Keeps-skip, Keeps-if, Keeps-switch,
}
use xmachine.Cpu.Safety.Access.{
  inc_register-IsCpu, dec_register-IsCpu, fetch_register_contents-lt, register_to_bus_addr-lt,
  fetch_data-GivesWord, store_data-Keeps,
}

set_loc-IsCpu : (loc : Loc) {v : ℕ} {c : Cpu} → v < 2 ^ 32 → IsCpu c → IsCpu (set_loc loc v c)
set_loc-IsCpu src lt h = omega arith
set_loc-IsCpu dest lt h = omega arith

module _ {S : Type 0} ⦃bus : Bus S⦄ (laws : BusLaws S) where
  -- The rules at these laws.
  abbrev and_then : {m n : M S (Unit {0})} → Keeps laws m → Keeps laws n → Keeps laws (m >> n)
  and_then = ◌then◌ laws

  pub next_word-GivesWord : GivesWord laws next_word
  unfolding next_word
  next_word-GivesWord = Gives-bind laws (reads-GivesWord laws _ (λ c h. h.pc)) λ pc _.
      Gives-bind laws (fetch_data-GivesWord laws pc) λ word lt.
        ◌then◌ laws (Keeps-assign laws add_pc (λ c h. omega arith)) (Gives-value laws word lt)

  contents-GivesWord : (reg : ℕ) → GivesWord laws (reads (fetch_register_contents reg))
  contents-GivesWord reg = reads-GivesWord laws _ (fetch_register_contents-lt reg)

  sp-GivesWord : GivesWord laws (reads (λ c. c.sp))
  sp-GivesWord = reads-GivesWord laws _ (λ c h. h.sp)

  -- The address field takes any value of 32 bits.
  set_loc-Keeps : (loc : Loc) (v : ℕ) → v < 2 ^ 32 → Keeps laws (assign (set_loc loc v))
  set_loc-Keeps loc v lt = Keeps-assign laws _ (λ c h. set_loc-IsCpu loc lt h)

  set_loc_from-Keeps :
      (loc : Loc) (f : Cpu → ℕ)
      → ((c : Cpu) → IsCpu c → f c < 2 ^ 32)
      → Keeps laws (assign (λ c. set_loc loc (f c) c))
  set_loc_from-Keeps loc f lt = Keeps-assign laws _ (λ c h. set_loc-IsCpu loc (lt c h) h)

  pub setup_pc_addressing-Keeps :
      (loc : Loc) (mode reg : ℕ) → Keeps laws (setup_pc_addressing loc mode reg)
  unfolding setup_pc_addressing
  setup_pc_addressing-Keeps loc mode reg =
      Keeps-switch laws mode _
        (
          set_loc-Keeps loc _ (register_to_bus_addr-lt reg),
          (
            and_then (set_loc_from-Keeps loc (λ c. c.pc) (λ c h. omega arith))
                (Keeps-assign laws add_pc (λ c h. omega arith)),
            (
              Gives-bind laws next_word-GivesWord (λ addr lt. set_loc-Keeps loc addr (omega arith)),
              (
                Gives-bind laws next_word-GivesWord
                    (λ relative lt. set_loc_from-Keeps loc _ (λ c h. omega arith)),
                tt,
              ),
            ),
          ),
        )
        (Keeps-skip laws)

  pub setup_sp_addressing-Keeps :
      (loc : Loc) (mode reg : ℕ) → Keeps laws (setup_sp_addressing loc mode reg)
  unfolding setup_sp_addressing
  setup_sp_addressing-Keeps loc mode reg =
      Keeps-switch laws mode _
        (
          set_loc-Keeps loc _ (register_to_bus_addr-lt reg),
          (
            at_sp,
            (
              and_then at_sp (Keeps-assign laws add_sp (λ c h. omega arith)),
              (
                Gives-bind laws sp-GivesWord λ sp _.
                    Gives-bind laws (fetch_data-GivesWord laws sp) λ addr lt.
                      and_then (set_loc-Keeps loc addr (omega arith))
                        (Keeps-assign laws add_sp (λ c h. omega arith)),
                (
                  and_then (Keeps-assign laws _ (λ c h. omega arith)) at_sp,
                  (
                    Gives-bind laws next_word-GivesWord
                        (λ index lt. set_loc_from-Keeps loc _ (λ c h. omega arith)),
                    (
                      Gives-bind laws next_word-GivesWord λ index _.
                          Gives-bind laws sp-GivesWord λ sp _.
                            Gives-bind laws (fetch_data-GivesWord laws (u32 (index + sp)))
                              λ addr lt. set_loc-Keeps loc addr (omega arith),
                      tt,
                    ),
                  ),
                ),
              ),
            ),
          ),
        )
        (Keeps-skip laws)
    where
      at_sp : Keeps laws (assign (λ c. set_loc loc c.sp c))
      at_sp = set_loc_from-Keeps loc (λ c. c.sp) (λ c h. omega arith)

  -- The address is the register's contents, or a word found in memory.
  from_register-Keeps :
      (loc : Loc) (reg : ℕ)
      → Keeps laws (assign (λ c. set_loc loc (fetch_register_contents reg c) c))
  from_register-Keeps loc reg =
      set_loc_from-Keeps loc (fetch_register_contents reg)
        (λ c h. omega (arith, fetch_register_contents-lt reg c h))

  from_memory-Keeps :
      (loc : Loc) (at : ℕ) → Keeps laws (fetch_data at >>= λ addr. assign (set_loc loc addr))
  from_memory-Keeps loc at =
      Gives-bind laws (fetch_data-GivesWord laws at)
        (λ addr lt. set_loc-Keeps loc addr (omega arith))

  pub general_addressing-Keeps :
      (is_byte : Bool) (loc : Loc) (mode reg : ℕ)
      → Keeps laws (general_addressing is_byte loc mode reg)
  unfolding general_addressing
  general_addressing-Keeps is_byte loc mode reg =
      Keeps-switch laws mode _
        (
          set_loc-Keeps loc _ (register_to_bus_addr-lt reg),
          (
            from_register-Keeps loc reg,
            (
              and_then (from_register-Keeps loc reg) step_up,
              (
                Gives-bind laws (contents-GivesWord reg) λ deferred _.
                    Gives-bind laws (fetch_data-GivesWord laws deferred)
                      λ index _. and_then step_up (from_memory-Keeps loc index),
                (
                  and_then (from_register-Keeps loc reg)
                      (Keeps-assign laws _ (dec_register-IsCpu reg is_byte)),
                  (
                    Gives-bind laws (contents-GivesWord reg) λ deferred _.
                        Gives-bind laws (fetch_data-GivesWord laws deferred) λ index _.
                          Gives-bind laws (fetch_data-GivesWord laws index) λ addr lt.
                            and_then (set_loc-Keeps loc addr (omega arith))
                              (store_data-Keeps laws deferred _ (omega arith)),
                    (
                      Gives-bind laws next_word-GivesWord λ index _.
                          Gives-bind laws (contents-GivesWord reg)
                            λ deferred _. from_memory-Keeps loc (u32 (index + deferred)),
                      (
                        Gives-bind laws next_word-GivesWord λ index _.
                            Gives-bind laws (contents-GivesWord reg) λ deferred _.
                              Gives-bind laws (fetch_data-GivesWord laws deferred)
                                λ pointer _. from_memory-Keeps loc (u32 (pointer + index)),
                        tt,
                      ),
                    ),
                  ),
                ),
              ),
            ),
          ),
        )
        (Keeps-skip laws)
    where
      step_up : Keeps laws (assign (inc_register reg is_byte))
      step_up = Keeps-assign laws _ (inc_register-IsCpu reg is_byte)

  pub setup_addressing-Keeps :
      (loc : Loc) (is_byte : Bool) (mode reg : ℕ)
      → Keeps laws (setup_addressing loc is_byte mode reg)
  unfolding setup_addressing setup_general_addressing setup_general_byte_addressing
  setup_addressing-Keeps loc is_byte mode reg =
      Keeps-switch laws reg _
        (setup_pc_addressing-Keeps loc mode reg, (setup_sp_addressing-Keeps loc mode reg, tt))
        (Keeps-if laws is_byte (general_addressing-Keeps true loc mode reg)
          (general_addressing-Keeps false loc mode reg))

  pub setup_dest_addressing-Keeps : (is_byte : Bool) → Keeps laws (setup_dest_addressing is_byte)
  unfolding setup_dest_addressing
  setup_dest_addressing-Keeps is_byte =
      Gives-bind laws (reads-GivesWord laws _ (λ c h. h.ir))
        λ ir _. setup_addressing-Keeps Loc.dest is_byte _ _

  pub setup_src_addressing-Keeps : (is_byte : Bool) → Keeps laws (setup_src_addressing is_byte)
  unfolding setup_src_addressing
  setup_src_addressing-Keeps is_byte =
      Gives-bind laws (reads-GivesWord laws _ (λ c h. h.ir))
        λ ir _. setup_addressing-Keeps Loc.src is_byte _ _

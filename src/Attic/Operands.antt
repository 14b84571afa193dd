-- ===== src/Attic/Operands.antt =====
-- attic/src/handlers.c: the functions that set up an operand from the instruction word.
use xmachine.Base.{ℕ, [], ◌∷◌}
use xmachine.Attic.State.{Effect, Memory, Emulator, Command, ◌>>=◌, reads, on_memory}
use xmachine.Attic.Addressing.{
  Loc, mode_of, reg_of, pc_addressing, sp_addressing, general_addressing, general_byte_addressing,
}
use xmachine.Cpu.Registers.{switch}

module _ (call : Effect → Command Memory (Unit {0})) where
  unfoldable pub setup_pc_dest_addressing : ℕ → Command Memory (Unit {0})
  setup_pc_dest_addressing = pc_addressing call Loc.dest

  unfoldable pub setup_sp_dest_addressing : ℕ → Command Memory (Unit {0})
  setup_sp_dest_addressing ir =
      sp_addressing call Loc.dest (mode_of Loc.dest ir) (reg_of Loc.dest ir)

  unfoldable pub setup_general_dest_addressing : ℕ → Command Memory (Unit {0})
  setup_general_dest_addressing ir =
      general_addressing call Loc.dest (mode_of Loc.dest ir) (reg_of Loc.dest ir)

  unfoldable pub setup_pc_dest_byte_addressing : ℕ → Command Memory (Unit {0})
  setup_pc_dest_byte_addressing = pc_addressing call Loc.dest

  unfoldable pub setup_general_dest_byte_addressing : ℕ → Command Memory (Unit {0})
  setup_general_dest_byte_addressing ir =
      general_byte_addressing call Loc.dest (mode_of Loc.dest ir) (reg_of Loc.dest ir)

  unfoldable pub setup_pc_src_addressing : ℕ → Command Memory (Unit {0})
  setup_pc_src_addressing = pc_addressing call Loc.src

  unfoldable pub setup_sp_src_addressing : ℕ → Command Memory (Unit {0})
  setup_sp_src_addressing ir = sp_addressing call Loc.src (mode_of Loc.src ir) (reg_of Loc.src ir)

  unfoldable pub setup_general_src_addressing : ℕ → Command Memory (Unit {0})
  setup_general_src_addressing ir =
      general_addressing call Loc.src (mode_of Loc.src ir) (reg_of Loc.src ir)

  unfoldable pub setup_pc_src_byte_addressing : ℕ → Command Memory (Unit {0})
  setup_pc_src_byte_addressing = pc_addressing call Loc.src

  unfoldable pub setup_general_src_byte_addressing : ℕ → Command Memory (Unit {0})
  setup_general_src_byte_addressing ir =
      general_byte_addressing call Loc.src (mode_of Loc.src ir) (reg_of Loc.src ir)

  -- The four `switch (reg)`.
  abbrev choose_dest :
      (ℕ → Command Memory (Unit {0}))
      → (ℕ → Command Memory (Unit {0}))
      → ℕ
      → Command Memory (Unit {0})
  choose_dest pc general ir =
      switch (reg_of Loc.dest ir) ((7, pc ir) ∷ (6, setup_sp_dest_addressing ir) ∷ []) (general ir)

  abbrev choose_src :
      (ℕ → Command Memory (Unit {0}))
      → (ℕ → Command Memory (Unit {0}))
      → ℕ
      → Command Memory (Unit {0})
  choose_src pc general ir =
      switch (reg_of Loc.src ir) ((7, pc ir) ∷ (6, setup_sp_src_addressing ir) ∷ []) (general ir)

  unfoldable pub setup_dest_addressing : Command Emulator (Unit {0})
  unfolding ◌>>=◌ switch setup_pc_dest_addressing setup_sp_dest_addressing
      setup_general_dest_addressing
  setup_dest_addressing = do
    ir ← reads (λ s. s.ir)
    on_memory (choose_dest setup_pc_dest_addressing setup_general_dest_addressing ir)

  unfoldable pub setup_dest_byte_addressing : Command Emulator (Unit {0})
  unfolding ◌>>=◌ switch setup_pc_dest_byte_addressing setup_sp_dest_addressing
      setup_general_dest_byte_addressing
  setup_dest_byte_addressing = do
    ir ← reads (λ s. s.ir)
    on_memory (choose_dest setup_pc_dest_byte_addressing setup_general_dest_byte_addressing ir)

  unfoldable pub setup_src_addressing : Command Emulator (Unit {0})
  unfolding ◌>>=◌ switch setup_pc_src_addressing setup_sp_src_addressing
      setup_general_src_addressing
  setup_src_addressing = do
    ir ← reads (λ s. s.ir)
    on_memory (choose_src setup_pc_src_addressing setup_general_src_addressing ir)

  unfoldable pub setup_src_byte_addressing : Command Emulator (Unit {0})
  unfolding ◌>>=◌ switch setup_pc_src_byte_addressing setup_sp_src_addressing
      setup_general_src_byte_addressing
  setup_src_byte_addressing = do
    ir ← reads (λ s. s.ir)
    on_memory (choose_src setup_pc_src_byte_addressing setup_general_src_byte_addressing ir)

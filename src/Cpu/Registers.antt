-- ===== src/Cpu/Registers.antt =====
-- The registers by number and by bus address.
use xmachine.Base.{ℕ, ◌+◌, u16, sub16, ◌==◌, if◌then◌else◌, Bool, true, false}
use xmachine.Base.{Option, none, some, List, [], ◌∷◌}
use xmachine.Cpu.State.{Cpu}

-- A `uint16_t *` into `CPU_STATE`.
pub data Reg : Type 0 where
  r0 r1 r2 r3 r4 r5 sp pc psw : Reg

abbrev pub get_reg : Reg → Cpu → ℕ
get_reg r0 c = c.r0
get_reg r1 c = c.r1
get_reg r2 c = c.r2
get_reg r3 c = c.r3
get_reg r4 c = c.r4
get_reg r5 c = c.r5
get_reg sp c = c.sp
get_reg pc c = c.pc
get_reg psw c = c.psw

abbrev pub set_reg : Reg → ℕ → Cpu → Cpu
set_reg r0 v c = record c { r0 = v }
set_reg r1 v c = record c { r1 = v }
set_reg r2 v c = record c { r2 = v }
set_reg r3 v c = record c { r3 = v }
set_reg r4 v c = record c { r4 = v }
set_reg r5 v c = record c { r5 = v }
set_reg sp v c = record c { sp = v }
set_reg pc v c = record c { pc = v }
set_reg psw v c = record c { psw = v }

-- A `switch` on a number with a result for each case, tried in order.
unfoldable pub switch {ℓ} : {A : Type ℓ} → ℕ → List (ℕ × A) → A → A
switch n [] other = other
switch n ((k, a) ∷ cases) other = if n == k then a else switch n cases other

-- The `switch (reg)` that `inc_register`, `dec_register` and `fetch_register_contents` share.
unfoldable pub register_of_number : ℕ → Option Reg
unfolding switch
register_of_number reg =
    switch reg
      ((0, some r0)
        ∷ (1, some r1)
        ∷ (2, some r2)
        ∷ (3, some r3)
        ∷ (4, some r4)
        ∷ (5, some r5)
        ∷ (6, some sp)
        ∷ (7, some pc)
        ∷ (8, some psw)
        ∷ [])
      none

-- The amount by which a register moves: one for a byte, else two.
abbrev pub stride : Bool → ℕ
stride is_byte_addr = if is_byte_addr then 1 else 2

unfoldable pub inc_register : ℕ → Bool → Cpu → Cpu
unfolding register_of_number
inc_register reg is_byte_addr c = elim (register_of_number reg) [
  | none ↦ c
  | some r ↦ set_reg r (u16 (get_reg r c + stride is_byte_addr)) c
]

unfoldable pub dec_register : ℕ → Bool → Cpu → Cpu
unfolding register_of_number
dec_register reg is_byte_addr c = elim (register_of_number reg) [
  | none ↦ c
  | some r ↦ set_reg r (sub16 (get_reg r c) (stride is_byte_addr)) c
]

unfoldable pub fetch_register_contents : ℕ → Cpu → ℕ
unfolding register_of_number
fetch_register_contents reg c = elim (register_of_number reg) [
  | none ↦ 0xffff
  | some r ↦ get_reg r c
]

-- Octal, as in the source: the general registers lie at 0777700 to 0777707.
unfoldable pub register_to_bus_addr : ℕ → ℕ
unfolding switch
register_to_bus_addr reg =
    switch reg
      ((0, 0o777700)
        ∷ (1, 0o777701)
        ∷ (2, 0o777702)
        ∷ (3, 0o777703)
        ∷ (4, 0o777704)
        ∷ (5, 0o777705)
        ∷ (6, 0o777706)
        ∷ (7, 0o777707)
        ∷ (8, 0o777776)
        ∷ [])
      0xffff_ffff

unfoldable pub bus_addr_to_register : ℕ → Option Reg
unfolding switch
bus_addr_to_register addr =
    switch addr
      ((0o777700, some r0)
        ∷ (0o777701, some r1)
        ∷ (0o777702, some r2)
        ∷ (0o777703, some r3)
        ∷ (0o777704, some r4)
        ∷ (0o777705, some r5)
        ∷ (0o777706, some sp)
        ∷ (0o777707, some pc)
        ∷ (0o777776, some psw)
        ∷ [])
      none

unfoldable pub is_internal_bus_addr : ℕ → Bool
unfolding switch
is_internal_bus_addr addr =
    switch addr
      ((0o777700, true)
        ∷ (0o777701, true)
        ∷ (0o777702, true)
        ∷ (0o777703, true)
        ∷ (0o777704, true)
        ∷ (0o777705, true)
        ∷ (0o777706, true)
        ∷ (0o777707, true)
        ∷ (0o777776, true)
        ∷ [])
      false

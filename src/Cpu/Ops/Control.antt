-- ===== src/Cpu/Ops/Control.antt =====
-- Jumps, subroutines, the status word, `HALT`, and the instructions that do nothing.
use xmachine.Base.{bit_and, u16, ◌>>>◌, true, false}
use xmachine.Cpu.State.{Bus, M, ◌>>=◌, ◌>>◌, reads, assign, skip}
use xmachine.Cpu.Registers.{
  inc_register, dec_register, fetch_register_contents, register_to_bus_addr,
}
use xmachine.Cpu.Access.{fetch_data, store_data, store_data_register}
use xmachine.Cpu.Addressing.{setup_dest_addressing}
use xmachine.Cpu.Ops.Alu.{set_alu, fetch_dest, alu_from_dest, store_alu}

module _ {S : Type 0} where
  unfoldable pub nop : M S (Unit {0})
  nop = skip

  unfoldable pub ashc : M S (Unit {0})
  unfolding nop
  ashc = nop

  unfoldable pub ash : M S (Unit {0})
  unfolding nop
  ash = nop

  unfoldable pub div : M S (Unit {0})
  unfolding nop
  div = nop

  unfoldable pub mfpd : M S (Unit {0})
  unfolding nop
  mfpd = nop

  unfoldable pub mfpi : M S (Unit {0})
  unfolding nop
  mfpi = nop

  unfoldable pub mtpd : M S (Unit {0})
  unfolding nop
  mtpd = nop

  unfoldable pub mtpi : M S (Unit {0})
  unfolding nop
  mtpi = nop

  unfoldable pub mul : M S (Unit {0})
  unfolding nop
  mul = nop

  unfoldable pub sxt : M S (Unit {0})
  unfolding nop
  sxt = nop

  unfoldable pub xor : M S (Unit {0})
  unfolding nop
  xor = nop

  unfoldable pub halt : M S (Unit {0})
  halt = assign (λ c. record c { halted = true })

module _ {S : Type 0} ⦃bus : Bus S⦄ where
  unfoldable pub jmp : M S (Unit {0})
  jmp = do setup_dest_addressing false; addr ← fetch_dest; assign (λ c. record c { pc = addr })

  -- `dec_register` and `inc_register` take a register's number; both calls pass the contents of
  -- `sp` for it, as the source does.
  unfoldable pub jsr : M S (Unit {0})
  jsr = do
    ir ← reads (λ c. c.ir)
    let reg = bit_and ir 0o700 >>> 6
    setup_dest_addressing false
    tmp ← reads (λ c. u16 c.dest_address)
    reg_contents ← reads (fetch_register_contents reg)
    sp ← reads (λ c. c.sp)
    store_data sp reg_contents
    assign (λ c. dec_register c.sp false c)
    pc ← reads (λ c. c.pc)
    store_data_register (register_to_bus_addr reg) pc
    assign (λ c. record c { pc = tmp })

  unfoldable pub rts : M S (Unit {0})
  rts = do
    ir ← reads (λ c. c.ir)
    let reg = bit_and ir 0o7
    reg_contents ← reads (fetch_register_contents reg)
    assign (λ c. record c { pc = reg_contents })
    assign (λ c. inc_register c.sp false c)
    sp ← reads (λ c. c.sp)
    top_stack ← fetch_data sp
    store_data_register (register_to_bus_addr reg) top_stack

  unfoldable pub mfps : M S (Unit {0})
  mfps = do setup_dest_addressing false; set_alu (λ c. c.psw); store_alu

  unfoldable pub mtps : M S (Unit {0})
  mtps = do setup_dest_addressing false; alu_from_dest; assign (λ c. record c { psw = c.alu })

-- ===== src/Cpu/Ops/Double.antt =====
-- The instructions with two operands.
use xmachine.Base.{◌+◌, bit_and, bit_or, bit_not, u16, sub16, true, false}
use xmachine.Cpu.State.{Bus, M, ◌>>=◌, ◌>>◌}
use xmachine.Cpu.Flags.{zero_of_alu, negative_of_alu_b, negative_of_alu_w}
use xmachine.Cpu.Addressing.{setup_dest_addressing, setup_src_addressing}
use xmachine.Cpu.Ops.Alu.{
  set_alu, fetch_src, fetch_dest, alu_from_dest, alu_from_dest_b, alu_from_src, alu_from_src_b,
  store_alu, store_alu_b,
}

module _ {S : Type 0} ⦃bus : Bus S⦄ where
  unfoldable pub add : M S (Unit {0})
  add = do
    setup_src_addressing false
    setup_dest_addressing false
    alu_from_src
    value ← fetch_dest
    set_alu (λ c. u16 (c.alu + value))
    store_alu
    negative_of_alu_w
    zero_of_alu

  unfoldable pub bicb : M S (Unit {0})
  bicb = do
    setup_src_addressing true
    setup_dest_addressing true
    alu_from_dest_b
    value ← fetch_src
    set_alu (λ c. bit_and c.alu (bit_not (bit_and value 0o377)))
    store_alu_b
    negative_of_alu_b
    zero_of_alu

  unfoldable pub bic : M S (Unit {0})
  bic = do
    setup_src_addressing false
    setup_dest_addressing false
    alu_from_dest
    value ← fetch_src
    set_alu (λ c. bit_and c.alu (bit_not value))
    store_alu
    negative_of_alu_w
    zero_of_alu

  unfoldable pub bisb : M S (Unit {0})
  bisb = do
    setup_src_addressing true
    setup_dest_addressing true
    alu_from_dest_b
    value ← fetch_src
    set_alu (λ c. bit_or c.alu (bit_and value 0o377))
    store_alu_b
    negative_of_alu_b
    zero_of_alu

  unfoldable pub bis : M S (Unit {0})
  bis = do
    setup_src_addressing false
    setup_dest_addressing false
    alu_from_dest
    value ← fetch_src
    set_alu (λ c. bit_or c.alu value)
    store_alu
    negative_of_alu_w
    zero_of_alu

  unfoldable pub bitb : M S (Unit {0})
  bitb = do
    setup_src_addressing true
    setup_dest_addressing true
    alu_from_src_b
    value ← fetch_dest
    set_alu (λ c. bit_and c.alu (bit_and value 0o377))
    negative_of_alu_b
    zero_of_alu

  unfoldable pub bit : M S (Unit {0})
  bit = do
    setup_src_addressing false
    setup_dest_addressing false
    alu_from_src
    value ← fetch_dest
    set_alu (λ c. bit_and c.alu value)
    zero_of_alu
    negative_of_alu_w

  unfoldable pub cmpb : M S (Unit {0})
  cmpb = do
    setup_src_addressing true
    setup_dest_addressing true
    alu_from_dest_b
    value ← fetch_src
    set_alu (λ c. sub16 c.alu (bit_and value 0o377))
    zero_of_alu
    negative_of_alu_b

  unfoldable pub cmp : M S (Unit {0})
  cmp = do
    setup_src_addressing false
    setup_dest_addressing false
    alu_from_dest
    value ← fetch_src
    set_alu (λ c. sub16 c.alu value)
    zero_of_alu
    negative_of_alu_w

  unfoldable pub movb : M S (Unit {0})
  movb = do
    setup_src_addressing true
    setup_dest_addressing true
    alu_from_src_b
    store_alu_b
    zero_of_alu
    negative_of_alu_b

  unfoldable pub mov : M S (Unit {0})
  mov = do
    setup_src_addressing false
    setup_dest_addressing false
    alu_from_src
    store_alu
    zero_of_alu
    negative_of_alu_w

  unfoldable pub sub : M S (Unit {0})
  sub = do
    setup_src_addressing false
    setup_dest_addressing false
    alu_from_src
    value ← fetch_dest
    set_alu (λ c. sub16 c.alu value)
    store_alu
    negative_of_alu_w
    zero_of_alu

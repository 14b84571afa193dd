-- ===== src/Machine/Reach.antt =====
-- Which memory the processor reaches.
use xmachine.Base.{ℕ, ◌+◌, ◌*◌, ◌^◌, ◌≤◌, ◌<◌, ◌≡◌, refl, true, false, if◌then◌else◌, arith, ltb}
use xmachine.Base.Bits.{bit_and_field, le-bit_or}
use native.Mathlib.Decide.{dec_lt}
use xmachine.Outcome.{done, blocked}
use xmachine.Mem.Words.{read_word_lem}
use xmachine.Unibus.Link.{System, linked}
use xmachine.Unibus.Transfer.{after_read, read_data_in_lem}
use xmachine.Cpu.State.{Machine}
use xmachine.Cpu.Registers.{is_internal_bus_addr}
use xmachine.Cpu.Access.{translate_bus_addr, fetch_data}
use xmachine.Machine.Laws.{IsRunning, far_is_not_local, near_is_local}

pub translate_low : (addr : ℕ) → addr < 512 → translate_bus_addr addr ≡ addr
unfolding translate_bus_addr
translate_low addr low = ground (arith, bit_and_field 7 9 addr)

translate_high : (addr : ℕ) → 512 ≤ addr → addr < 2 ^ 16 → 2 ^ 16 ≤ translate_bus_addr addr
unfolding translate_bus_addr
translate_high addr high word = ground (arith, bit_and_field 7 9 addr, le-bit_or addr 0o700000)

pub word_is_external : (addr : ℕ) → addr < 2 ^ 16 → is_internal_bus_addr addr ≡ false
unfolding is_internal_bus_addr
word_is_external addr word = ground arith

-- Of a linked machine whose processor is the bus master and whose memory holds bytes, the
-- processor's reads at 16-bit addresses below 512 give the little-endian word of memory, which
-- stays as it was; a read at any 16-bit address from 512 on waits for ever.
pub fetch_data_reach :
    (junk addr : ℕ) (s : Machine System)
    → IsRunning s.rest
    → addr < 2 ^ 16
    → fetch_data ⦃bus = linked junk⦄ addr s ≡ (
        if ltb addr 512
        then (let w = s.rest.device.store (addr + 1) * 256 + s.rest.device.store addr in
            done (w, record s { rest = after_read addr w s.rest }))
        else blocked)
unfolding fetch_data
fetch_data_reach junk addr s good word = elim (dec_lt addr 512) [
  | yes low ↦
      let below : ltb addr 512 ≡ true = ground arith in
      rw
        (
          below,
          word_is_external addr word,
          translate_low addr low,
          read_data_in_lem junk addr s.rest good.0,
          near_is_local addr low,
          read_word_lem s.rest.device addr (omega arith) (good.1 addr),
        )
        refl
  | no high ↦
      let above : ltb addr 512 ≡ false = ground arith in
      rw
        (
          above,
          word_is_external addr word,
          read_data_in_lem junk (translate_bus_addr addr) s.rest good.0,
          far_is_not_local (translate_bus_addr addr) (translate_high addr (omega arith) word),
        )
        refl
]

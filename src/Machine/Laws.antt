-- ===== src/Machine/Laws.antt =====
-- The processor's laws of the bus, for the bus with a memory on it.
use xmachine.Base.{ℕ, ◌+◌, ◌^◌, ◌≤◌, ◌<◌, ◌≡◌, true, false, arith, inl, inr}
use xmachine.Outcome.{Safe, returns, waits}
use xmachine.Mem.{MemDev, is_local_addr}
use xmachine.Mem.Words.{with_word, with_byte, write_word_lem, write_byte_lem, read_word_lem}
use xmachine.Unibus.Link.{System, linked}
use xmachine.Unibus.Transfer.{read_data_in_lem, write_data_out_lem, write_data_out_b_lem}
use xmachine.Cpu.Safety.Rules.{OnBus, BusLaws}

-- Every byte of the store is one.
abbrev pub AreBytes : MemDev → Type 0
AreBytes d = (j : ℕ) → d.store j < 256

-- The processor is the bus master, and memory holds bytes.
abbrev pub IsRunning : System → Type 0
IsRunning s = (s.cpu.bus.is_master ≡ true) × AreBytes s.device

with_word-AreBytes :
    (addr w : ℕ) (d : MemDev) → w < 2 ^ 16 → AreBytes d → AreBytes (with_word addr w d)
with_word-AreBytes addr w d lt h j = ground (arith, h j)

with_byte-AreBytes : (addr w : ℕ) (d : MemDev) → AreBytes d → AreBytes (with_byte addr w d)
with_byte-AreBytes addr w d h j = ground (arith, h j)

pub far_is_not_local : (addr : ℕ) → 2 ^ 16 ≤ addr → is_local_addr addr ≡ false
unfolding is_local_addr
far_is_not_local addr far = ground arith

pub near_is_local : (addr : ℕ) → addr < 512 → is_local_addr addr ≡ true
unfolding is_local_addr
near_is_local addr near = ground arith

pub read_safe :
    (junk addr : ℕ) (s : System)
    → OnBus addr
    → IsRunning s
    → Safe (λ r. (r.0 < 2 ^ 16) × IsRunning r.1) ((linked junk).read_data_in addr s)
read_safe junk addr s (inl near) good =
    rw
      (
        read_data_in_lem junk addr s good.0,
        near_is_local addr near,
        read_word_lem s.device addr (omega arith) (good.1 addr),
      )
      (returns (omega (arith, good.1 addr, good.1 (addr + 1)), good))
read_safe junk addr s (inr far) good =
    rw (read_data_in_lem junk addr s good.0, far_is_not_local addr far) waits

pub write_safe :
    (junk addr value : ℕ) (s : System)
    → OnBus addr
    → value < 2 ^ 16
    → IsRunning s
    → Safe IsRunning ((linked junk).write_data_out addr value s)
write_safe junk addr value s (inl near) lt good =
    rw
      (
        write_data_out_lem junk addr value s good.0,
        near_is_local addr near,
        write_word_lem s.device addr value (omega arith) lt,
      )
      (returns (good.0, with_word-AreBytes addr value s.device lt good.1))
write_safe junk addr value s (inr far) lt good =
    rw (write_data_out_lem junk addr value s good.0, far_is_not_local addr far) waits

pub write_b_safe :
    (junk addr value : ℕ) (s : System)
    → OnBus addr
    → value < 2 ^ 8
    → IsRunning s
    → Safe IsRunning ((linked junk).write_data_out_b addr value s)
write_b_safe junk addr value s (inl near) lt good =
    rw
      (
        write_data_out_b_lem junk addr value s good.0,
        near_is_local addr near,
        write_byte_lem s.device addr value (omega arith),
      )
      (returns (good.0, with_byte-AreBytes addr value s.device good.1))
write_b_safe junk addr value s (inr far) lt good =
    rw (write_data_out_b_lem junk addr value s good.0, far_is_not_local addr far) waits

-- The laws of the bus, filled by the linked system.
abbrev pub linked_laws : (junk : ℕ) → BusLaws System ⦃bus = linked junk⦄
linked_laws junk = record {
  Good = IsRunning;
  read_safe = read_safe junk;
  write_safe = write_safe junk;
  write_b_safe = write_b_safe junk;
}

-- ===== src/Priority/Types.antt =====
-- signals.h, and the state of priority_bus.c.
use xmachine.Base.{ℕ, Bool, Option}
use xmachine.Sockets.{Address}

pub data PrSignal : Type 0 where
  br bg npr npg sack bbsy : PrSignal

-- `pr_bus_req_t`, less `level`, which nothing sets or reads. ASSERTED is `true`.
pub record PrBusReq : Type 0 where
  pub from : Address
  pub sig : PrSignal
  pub assertion : Bool

pub data Direction : Type 0 where
  d_left d_right d_none : Direction

-- The sockets of `pr_state`, with the state of the system behind them.
pub record Wires (W : Type 0) : Type 0 where
  pub pr_out_addr_l : Address
  pub pr_out_addr_r : Address
  pub pr_in_addr : Address
  pub pr_bus_out_l : Option ℕ
  pub pr_bus_out_r : Option ℕ
  pub net : W

-- The flags of `pr_state`.
pub record Flags : Type 0 where
  pub npr_issued : Bool
  pub br_issued : Bool
  pub sack_asserted : Bool
  pub bbsy_asserted : Bool

-- The fields of `bus_state` that the device and its priority bus thread share.
pub record Mastership : Type 0 where
  pub is_master : Bool
  pub req_master : Bool
  pub rel_master : Bool

-- Where the device's own thread stands in `req_bus_master` or `release_bus_master`: elsewhere, past
-- the flag, or in the wait.
pub data MainThread : Type 0 where
  running requesting waits_master releasing waits_release : MainThread

pub record Device (W : Type 0) : Type 0 where
  pub wires : Wires W
  pub flags : Flags
  pub bus : Mastership
  pub main : MainThread

-- ===== src/Unibus/Types.antt =====
-- The records of bus_state.h and data_bus.c that carry a transfer.
use xmachine.Base.{ℕ, Bool, false}

pub data DataOp : Type 0 where
  r_in r_inb r_out r_outb : DataOp
  r_block_in r_block_inb r_block_out r_block_outb : DataOp
  r_done r_none : DataOp

-- `data_xfer_spec`
pub record Xfer : Type 0 where
  pub op : DataOp
  pub addr : ℕ
  pub value : ℕ

abbrev pub no_xfer : Xfer
no_xfer = record { op = DataOp.r_none; addr = 0; value = 0 }

-- `bus_state`: the fields that the data bus uses.
pub record BusState : Type 0 where
  pub is_master : Bool
  pub master : Xfer
  pub slave : Xfer

-- `data_state`, less its sockets.
pub record DataState : Type 0 where
  pub buffer : Xfer
  pub req_issued : Bool

pub data MsgType : Type 0 where
  dbm_req dbm_resp : MsgType

pub data Signal : Type 0 where
  d_dati d_datip d_dato d_datob d_empty : Signal

-- `data_bus_req`, less `from` and `msyn`, which nothing reads.
pub record DataBusReq : Type 0 where
  pub msg_type : MsgType
  pub c : Signal
  pub addr : ℕ
  pub datum : ℕ
  pub ssyn : Bool

-- One device's process: what it shares with its data bus thread, and that thread's own state.
pub record Port : Type 0 where
  pub bus : BusState
  pub thread : DataState

-- `init_bus` and `init_data_state`.
abbrev pub init_port : Bool → Port
init_port is_master = record {
  bus = record { is_master = is_master; master = no_xfer; slave = no_xfer };
  thread = record { buffer = no_xfer; req_issued = false };
}

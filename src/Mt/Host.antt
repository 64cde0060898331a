-- ===== src/Mt/Host.antt =====
-- The state of a host program that uses framework/mt, and its surroundings.
use znp_host_framework.Base.{ℕ, List, Option}
use znp_host_framework.Rpc.{Rpc}
use znp_host_framework.Rpc.Send.{Others}
use znp_host_framework.Af.Events.{AfEvent, AfCallbacks}
use znp_host_framework.Sapi.Events.{SapiEvent, SapiCallbacks}
use znp_host_framework.Sys.Events.{SysEvent, SysCallbacks}
use znp_host_framework.Zdo.Events.{ZdoEvent, ZdoCallbacks}
use znp_host_framework.Zdo.Management.Responses.{BindingTableListItemFormat}

-- A call of a callback of one of the subsystems.
pub data MtEvent : Type 0 where
  af_event : AfEvent → MtEvent
  sapi_event : SapiEvent → MtEvent
  sys_event : SysEvent → MtEvent
  zdo_event : ZdoEvent → MtEvent

-- The callbacks registered with the subsystems.
pub record MtCallbacks : Type 0 where
  pub af : AfCallbacks
  pub sapi : SapiCallbacks
  pub sys : SysCallbacks
  pub zdo : ZdoCallbacks

-- The variables of rpc.c, `srspRpcBuff`, and the callbacks called so far.
pub record Host : Type 0 where
  pub rpc : Rpc
  pub srsp_rpc_buff : List ℕ
  pub calls : List MtEvent

-- The surroundings of a call: what the buffers of `rpcSendFrame`, of `rpcWaitMqClientMsg` and of
-- `processMgmtBindRsp`, which stand on the stack, hold at first, what the RPC thread does at the two
-- points of `rpcSendFrame` and while `rpcWaitMqClientMsg` waits, what `malloc` returns, with the bytes
-- that are in the memory by chance, and the callbacks.
pub record Env : Type 0 where
  pub junk : List ℕ
  pub waiting : Others
  pub leaving : Others
  pub malloc : ℕ → Option (List ℕ)
  pub arriving : Others
  pub frame_junk : List ℕ
  pub table_junk : List BindingTableListItemFormat
  pub callbacks : MtCallbacks

-- ===== src/Client/Messages.antt =====
-- The messages of all subsystems of framework/mt to the host, as frames.
use znp_host_framework.Base.{ℕ, List, [], ◌∷◌, Bool, if◌then◌else◌}
use znp_host_framework.Rpc.Frame.{Frame}
use znp_host_framework.Zdo.Management.Responses.{BindingTableListItemFormat}
use znp_host_framework.Mt.Host.{MtEvent, af_event, sapi_event, sys_event, zdo_event, MtCallbacks}
use znp_host_framework.Af
use znp_host_framework.Sapi
use znp_host_framework.Sys
use znp_host_framework.Zdo

abbrev pub frame_of : MtEvent → Frame
frame_of (af_event e) = record {
  cmd0 = Af.Decoding.cmd0_of e;
  cmd1 = Af.Decoding.cmd1_of e;
  payload = Af.Decoding.payload_of e;
}
frame_of (sapi_event e) = record {
  cmd0 = Sapi.Decoding.cmd0_of e;
  cmd1 = Sapi.Decoding.cmd1_of e;
  payload = Sapi.Decoding.payload_of e;
}
frame_of (sys_event e) = record {
  cmd0 = Sys.Decoding.cmd0_of e;
  cmd1 = Sys.Decoding.cmd1_of e;
  payload = Sys.Decoding.payload_of e;
}
frame_of (zdo_event e) = record {
  cmd0 = Zdo.Messages.cmd0_of e;
  cmd1 = Zdo.Messages.cmd1_of e;
  payload = Zdo.Messages.payload_of e;
}

abbrev pub IsValid : List BindingTableListItemFormat → MtEvent → Type 0
IsValid table (af_event e) = Af.Decoding.IsValid e
IsValid table (sapi_event e) = Sapi.Decoding.IsValid e
IsValid table (sys_event e) = Sys.Decoding.IsValid e
IsValid table (zdo_event e) = Zdo.Messages.IsValid table e

abbrev pub is_registered : MtCallbacks → MtEvent → Bool
is_registered cbs (af_event e) = Af.Decoding.is_registered cbs.af e
is_registered cbs (sapi_event e) = Sapi.Decoding.is_registered cbs.sapi e
is_registered cbs (sys_event e) = Sys.Decoding.is_registered cbs.sys e
is_registered cbs (zdo_event e) = Zdo.Messages.is_registered cbs.zdo e

-- What `srspRpcBuff` holds afterwards.
abbrev pub kept : MtEvent → (fcs : ℕ) (srsp : List ℕ) → List ℕ
kept (af_event e) fcs srsp = Af.Decoding.kept e fcs srsp
kept (sapi_event e) fcs srsp = Sapi.Decoding.kept e fcs srsp
kept (sys_event e) fcs srsp = Sys.Decoding.kept e fcs srsp
kept (zdo_event e) fcs srsp = Zdo.Messages.kept e fcs srsp

-- The calls that a message leads to.
abbrev pub called : MtCallbacks → MtEvent → List MtEvent
called cbs e = if is_registered cbs e then e ∷ [] else []

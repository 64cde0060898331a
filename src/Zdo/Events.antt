-- ===== src/Zdo/Events.antt =====
-- The calls of the callbacks of framework/mt/Zdo/mtZdo.h, and `mtZdoCb_t`.
use znp_host_framework.Base.{ℕ, Bool}
use znp_host_framework.Zdo.Address.Responses.{
  NwkAddrRspFormat, IeeeAddrRspFormat, ActiveEpRspFormat, ServerDiscRspFormat,
}
use znp_host_framework.Zdo.Descriptor.Responses.{
  NodeDescRspFormat, PowerDescRspFormat, SimpleDescRspFormat, MatchDescRspFormat,
  ComplexDescRspFormat, UserDescRspFormat, UserDescConfFormat,
}
use znp_host_framework.Zdo.Binding.Responses.{
  EndDeviceBindRspFormat, BindRspFormat, UnbindRspFormat, GetLinkKeySrspFormat,
}
use znp_host_framework.Zdo.Management.Responses.{
  MgmtNwkDiscRspFormat, MgmtLqiRspFormat, MgmtRtgRspFormat, MgmtBindRspFormat, MgmtLeaveRspFormat,
  MgmtDirectJoinRspFormat, MgmtPermitJoinRspFormat,
}
use znp_host_framework.Zdo.Indication.Responses.{
  MatchDescRspSentFormat, StatusErrorRspFormat, SrcRtgIndFormat, MsgCbIncomingFormat,
}
use znp_host_framework.Zdo.Network.Responses.{
  EndDeviceAnnceIndFormat, BeaconNotifyIndFormat, JoinCnfFormat, NwkDiscoveryCnfFormat,
  LeaveIndFormat,
}

-- A call of a callback with the struct, or the state of the device, it is given.
pub data ZdoEvent : Type 0 where
  state_change_ind : ℕ → ZdoEvent
  get_link_key_srsp : GetLinkKeySrspFormat → ZdoEvent
  nwk_addr_rsp : NwkAddrRspFormat → ZdoEvent
  ieee_addr_rsp : IeeeAddrRspFormat → ZdoEvent
  node_desc_rsp : NodeDescRspFormat → ZdoEvent
  power_desc_rsp : PowerDescRspFormat → ZdoEvent
  simple_desc_rsp : SimpleDescRspFormat → ZdoEvent
  active_ep_rsp : ActiveEpRspFormat → ZdoEvent
  match_desc_rsp : MatchDescRspFormat → ZdoEvent
  complex_desc_rsp : ComplexDescRspFormat → ZdoEvent
  user_desc_rsp : UserDescRspFormat → ZdoEvent
  user_desc_conf : UserDescConfFormat → ZdoEvent
  server_disc_rsp : ServerDiscRspFormat → ZdoEvent
  end_device_bind_rsp : EndDeviceBindRspFormat → ZdoEvent
  bind_rsp : BindRspFormat → ZdoEvent
  unbind_rsp : UnbindRspFormat → ZdoEvent
  mgmt_nwk_disc_rsp : MgmtNwkDiscRspFormat → ZdoEvent
  mgmt_lqi_rsp : MgmtLqiRspFormat → ZdoEvent
  mgmt_rtg_rsp : MgmtRtgRspFormat → ZdoEvent
  mgmt_bind_rsp : MgmtBindRspFormat → ZdoEvent
  mgmt_leave_rsp : MgmtLeaveRspFormat → ZdoEvent
  mgmt_direct_join_rsp : MgmtDirectJoinRspFormat → ZdoEvent
  mgmt_permit_join_rsp : MgmtPermitJoinRspFormat → ZdoEvent
  end_device_annce_ind : EndDeviceAnnceIndFormat → ZdoEvent
  match_desc_rsp_sent : MatchDescRspSentFormat → ZdoEvent
  status_error_rsp : StatusErrorRspFormat → ZdoEvent
  src_rtg_ind : SrcRtgIndFormat → ZdoEvent
  beacon_notify_ind : BeaconNotifyIndFormat → ZdoEvent
  join_cnf : JoinCnfFormat → ZdoEvent
  nwk_discovery_cnf : NwkDiscoveryCnfFormat → ZdoEvent
  leave_ind : LeaveIndFormat → ZdoEvent
  msg_cb_incoming : MsgCbIncomingFormat → ZdoEvent

-- Which callbacks are registered. No message calls `pfn_zdo_concentrator_ind`.
pub record ZdoCallbacks : Type 0 where
  pub pfn_zdo_nwk_addr_rsp : Bool
  pub pfn_zdo_ieee_addr_rsp : Bool
  pub pfn_zdo_node_desc_rsp : Bool
  pub pfn_zdo_power_desc_rsp : Bool
  pub pfn_zdo_simple_desc_rsp : Bool
  pub pfn_zdo_active_ep_rsp : Bool
  pub pfn_zdo_match_desc_rsp : Bool
  pub pfn_zdo_complex_desc_rsp : Bool
  pub pfn_zdo_user_desc_rsp : Bool
  pub pfn_zdo_user_desc_conf : Bool
  pub pfn_zdo_server_disc_rsp : Bool
  pub pfn_zdo_end_device_bind_rsp : Bool
  pub pfn_zdo_bind_rsp : Bool
  pub pfn_zdo_unbind_rsp : Bool
  pub pfn_zdo_mgmt_nwk_disc_rsp : Bool
  pub pfn_zdo_mgmt_lqi_rsp : Bool
  pub pfn_zdo_mgmt_rtg_rsp : Bool
  pub pfn_zdo_mgmt_bind_rsp : Bool
  pub pfn_zdo_mgmt_leave_rsp : Bool
  pub pfn_zdo_mgmt_direct_join_rsp : Bool
  pub pfn_zdo_mgmt_permit_join_rsp : Bool
  pub pfnmt_zdo_state_change_ind : Bool
  pub pfn_zdo_end_device_annce_ind : Bool
  pub pfn_zdo_src_rtg_ind : Bool
  pub pfn_zdo_beacon_notify_ind : Bool
  pub pfn_zdo_join_cnf : Bool
  pub pfn_zdo_nwk_discovery_cnf : Bool
  pub pfn_zdo_concentrator_ind : Bool
  pub pfn_zdo_leave_ind : Bool
  pub pfn_zdo_status_error_rsp : Bool
  pub pfn_zdo_match_desc_rsp_sent : Bool
  pub pfn_zdo_msg_cb_incoming : Bool
  pub pfn_zdo_get_link_key : Bool

-- `zdoRegisterCallbacks`: all callbacks at once, whatever was registered before.
unfoldable pub zdo_register_callbacks : ZdoCallbacks → ZdoCallbacks → ZdoCallbacks
zdo_register_callbacks mt_zdo_cbs cbs = cbs

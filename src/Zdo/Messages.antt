-- ===== src/Zdo/Messages.antt =====
-- The messages to the host as bytes: command number, payload and what makes one valid.
use znp_host_framework.Base.{
  ℕ, ◌+◌, ◌≡◌, List, [], ◌∷◌, ◌++◌, length, drop, Bool, if◌then◌else◌, ◌==◌, arith, length-append,
}
use znp_host_framework.Zdo.Events.{
  ZdoEvent, ZdoCallbacks, state_change_ind, get_link_key_srsp, nwk_addr_rsp, ieee_addr_rsp,
  node_desc_rsp, power_desc_rsp, simple_desc_rsp, active_ep_rsp, match_desc_rsp, complex_desc_rsp,
  user_desc_rsp, user_desc_conf, server_disc_rsp, end_device_bind_rsp, bind_rsp, unbind_rsp,
  mgmt_nwk_disc_rsp, mgmt_lqi_rsp, mgmt_rtg_rsp, mgmt_bind_rsp, mgmt_leave_rsp,
  mgmt_direct_join_rsp, mgmt_permit_join_rsp, end_device_annce_ind, match_desc_rsp_sent,
  status_error_rsp, src_rtg_ind, beacon_notify_ind, join_cnf, nwk_discovery_cnf, leave_ind,
  msg_cb_incoming,
}
use znp_host_framework.Zdo.Management.Responses.{BindingTableListItemFormat}
use znp_host_framework.Zdo.Address.Reading.{
  nwk_addr_rsp_bytes, IsNwkAddrRsp, ieee_addr_rsp_bytes, IsIeeeAddrRsp, active_ep_rsp_bytes,
  IsActiveEpRsp, server_disc_rsp_bytes, IsServerDiscRsp,
}
use znp_host_framework.Zdo.Descriptor.Reading.{
  node_desc_rsp_bytes, IsNodeDescRsp, power_desc_rsp_bytes, IsPowerDescRsp, simple_desc_rsp_bytes,
  IsSimpleDescRsp, match_desc_rsp_bytes, IsMatchDescRsp, complex_desc_rsp_bytes, IsComplexDescRsp,
  user_desc_rsp_bytes, IsUserDescRsp, user_desc_conf_bytes, IsUserDescConf,
}
use znp_host_framework.Zdo.Binding.Reading.{
  end_device_bind_rsp_bytes, IsEndDeviceBindRsp, bind_rsp_bytes, IsBindRsp, unbind_rsp_bytes,
  IsUnbindRsp, get_link_key_srsp_bytes, IsGetLinkKeySrsp,
}
use znp_host_framework.Zdo.Management.Reading.{
  mgmt_nwk_disc_rsp_bytes, IsMgmtNwkDiscRsp, mgmt_lqi_rsp_bytes, IsMgmtLqiRsp, mgmt_rtg_rsp_bytes,
  IsMgmtRtgRsp, mgmt_bind_rsp_bytes, IsMgmtBindRsp, mgmt_leave_rsp_bytes, IsMgmtLeaveRsp,
  mgmt_direct_join_rsp_bytes, IsMgmtDirectJoinRsp, mgmt_permit_join_rsp_bytes, IsMgmtPermitJoinRsp,
}
use znp_host_framework.Zdo.Indication.Reading.{
  match_desc_rsp_sent_bytes, IsMatchDescRspSent, status_error_rsp_bytes, IsStatusErrorRsp,
  src_rtg_ind_bytes, IsSrcRtgInd, msg_cb_incoming_bytes, IsMsgCbIncoming,
}
use znp_host_framework.Zdo.Network.Reading.{
  end_device_annce_ind_bytes, IsEndDeviceAnnceInd, beacon_notify_ind_bytes, IsBeaconNotifyInd,
  join_cnf_bytes, IsJoinCnf, nwk_discovery_cnf_bytes, IsNwkDiscoveryCnf, leave_ind_bytes,
  IsLeaveInd,
}

-- The first two bytes of a message: `MT_RPC_CMD_AREQ | MT_RPC_SYS_ZDO` or
-- `MT_RPC_CMD_SRSP | MT_RPC_SYS_ZDO`, and the command number.
abbrev pub cmd0_of : ZdoEvent → ℕ
cmd0_of (get_link_key_srsp e) = 0x65
cmd0_of e = 0x45

abbrev pub cmd1_of : ZdoEvent → ℕ
cmd1_of (state_change_ind s) = 0xc0
cmd1_of (get_link_key_srsp e) = 0x25
cmd1_of (nwk_addr_rsp e) = 0x80
cmd1_of (ieee_addr_rsp e) = 0x81
cmd1_of (node_desc_rsp e) = 0x82
cmd1_of (power_desc_rsp e) = 0x83
cmd1_of (simple_desc_rsp e) = 0x84
cmd1_of (active_ep_rsp e) = 0x85
cmd1_of (match_desc_rsp e) = 0x86
cmd1_of (complex_desc_rsp e) = 0x90
cmd1_of (user_desc_rsp e) = 0x91
cmd1_of (user_desc_conf e) = 0x94
cmd1_of (server_disc_rsp e) = 0x95
cmd1_of (end_device_bind_rsp e) = 0xa0
cmd1_of (bind_rsp e) = 0xa1
cmd1_of (unbind_rsp e) = 0xa2
cmd1_of (mgmt_nwk_disc_rsp e) = 0xb0
cmd1_of (mgmt_lqi_rsp e) = 0xb1
cmd1_of (mgmt_rtg_rsp e) = 0xb2
cmd1_of (mgmt_bind_rsp e) = 0xb3
cmd1_of (mgmt_leave_rsp e) = 0xb4
cmd1_of (mgmt_direct_join_rsp e) = 0xb5
cmd1_of (mgmt_permit_join_rsp e) = 0xb6
cmd1_of (end_device_annce_ind e) = 0xc1
cmd1_of (match_desc_rsp_sent e) = 0xc2
cmd1_of (status_error_rsp e) = 0xc3
cmd1_of (src_rtg_ind e) = 0xc4
cmd1_of (beacon_notify_ind e) = 0xc5
cmd1_of (join_cnf e) = 0xc6
cmd1_of (nwk_discovery_cnf e) = 0xc7
cmd1_of (leave_ind e) = 0xc9
cmd1_of (msg_cb_incoming e) = 0xff

-- The payload of a message.
abbrev pub payload_of : ZdoEvent → List ℕ
payload_of (state_change_ind s) = s ∷ []
payload_of (get_link_key_srsp e) = get_link_key_srsp_bytes e
payload_of (nwk_addr_rsp e) = nwk_addr_rsp_bytes e
payload_of (ieee_addr_rsp e) = ieee_addr_rsp_bytes e
payload_of (node_desc_rsp e) = node_desc_rsp_bytes e
payload_of (power_desc_rsp e) = power_desc_rsp_bytes e
payload_of (simple_desc_rsp e) = simple_desc_rsp_bytes e
payload_of (active_ep_rsp e) = active_ep_rsp_bytes e
payload_of (match_desc_rsp e) = match_desc_rsp_bytes e
payload_of (complex_desc_rsp e) = complex_desc_rsp_bytes e
payload_of (user_desc_rsp e) = user_desc_rsp_bytes e
payload_of (user_desc_conf e) = user_desc_conf_bytes e
payload_of (server_disc_rsp e) = server_disc_rsp_bytes e
payload_of (end_device_bind_rsp e) = end_device_bind_rsp_bytes e
payload_of (bind_rsp e) = bind_rsp_bytes e
payload_of (unbind_rsp e) = unbind_rsp_bytes e
payload_of (mgmt_nwk_disc_rsp e) = mgmt_nwk_disc_rsp_bytes e
payload_of (mgmt_lqi_rsp e) = mgmt_lqi_rsp_bytes e
payload_of (mgmt_rtg_rsp e) = mgmt_rtg_rsp_bytes e
payload_of (mgmt_bind_rsp e) = mgmt_bind_rsp_bytes e
payload_of (mgmt_leave_rsp e) = mgmt_leave_rsp_bytes e
payload_of (mgmt_direct_join_rsp e) = mgmt_direct_join_rsp_bytes e
payload_of (mgmt_permit_join_rsp e) = mgmt_permit_join_rsp_bytes e
payload_of (end_device_annce_ind e) = end_device_annce_ind_bytes e
payload_of (match_desc_rsp_sent e) = match_desc_rsp_sent_bytes e
payload_of (status_error_rsp e) = status_error_rsp_bytes e
payload_of (src_rtg_ind e) = src_rtg_ind_bytes e
payload_of (beacon_notify_ind e) = beacon_notify_ind_bytes e
payload_of (join_cnf e) = join_cnf_bytes e
payload_of (nwk_discovery_cnf e) = nwk_discovery_cnf_bytes e
payload_of (leave_ind e) = leave_ind_bytes e
payload_of (msg_cb_incoming e) = msg_cb_incoming_bytes e

-- What the handlers presuppose of a message. The numbers fit their types, and each length is that
-- of its list, which has room in the struct. A binding table has no entries, so that the array
-- stays as it is; a simple descriptor is there; without devices the start index of an IEEE address
-- is 0; and `NotUsed` of an incoming message is the byte that the handler reads for it.
abbrev pub IsValid : List BindingTableListItemFormat → ZdoEvent → Type 0
IsValid table (state_change_ind s) = Unit {0}
IsValid table (get_link_key_srsp e) = IsGetLinkKeySrsp e
IsValid table (nwk_addr_rsp e) = IsNwkAddrRsp e
IsValid table (ieee_addr_rsp e) = IsIeeeAddrRsp e
IsValid table (node_desc_rsp e) = IsNodeDescRsp e
IsValid table (power_desc_rsp e) = IsPowerDescRsp e
IsValid table (simple_desc_rsp e) = IsSimpleDescRsp e
IsValid table (active_ep_rsp e) = IsActiveEpRsp e
IsValid table (match_desc_rsp e) = IsMatchDescRsp e
IsValid table (complex_desc_rsp e) = IsComplexDescRsp e
IsValid table (user_desc_rsp e) = IsUserDescRsp e
IsValid table (user_desc_conf e) = IsUserDescConf e
IsValid table (server_disc_rsp e) = IsServerDiscRsp e
IsValid table (end_device_bind_rsp e) = IsEndDeviceBindRsp e
IsValid table (bind_rsp e) = IsBindRsp e
IsValid table (unbind_rsp e) = IsUnbindRsp e
IsValid table (mgmt_nwk_disc_rsp e) = IsMgmtNwkDiscRsp e
IsValid table (mgmt_lqi_rsp e) = IsMgmtLqiRsp e
IsValid table (mgmt_rtg_rsp e) = IsMgmtRtgRsp e
IsValid table (mgmt_bind_rsp e) = IsMgmtBindRsp table e
IsValid table (mgmt_leave_rsp e) = IsMgmtLeaveRsp e
IsValid table (mgmt_direct_join_rsp e) = IsMgmtDirectJoinRsp e
IsValid table (mgmt_permit_join_rsp e) = IsMgmtPermitJoinRsp e
IsValid table (end_device_annce_ind e) = IsEndDeviceAnnceInd e
IsValid table (match_desc_rsp_sent e) = IsMatchDescRspSent e
IsValid table (status_error_rsp e) = IsStatusErrorRsp e
IsValid table (src_rtg_ind e) = IsSrcRtgInd e
IsValid table (beacon_notify_ind e) = IsBeaconNotifyInd e
IsValid table (join_cnf e) = IsJoinCnf e
IsValid table (nwk_discovery_cnf e) = IsNwkDiscoveryCnf e
IsValid table (leave_ind e) = IsLeaveInd e
IsValid table (msg_cb_incoming e) = IsMsgCbIncoming e

-- Whether the callback of the event is registered.
abbrev pub is_registered : ZdoCallbacks → ZdoEvent → Bool
is_registered cbs (state_change_ind s) = cbs.pfnmt_zdo_state_change_ind
is_registered cbs (get_link_key_srsp e) = cbs.pfn_zdo_get_link_key
is_registered cbs (nwk_addr_rsp e) = cbs.pfn_zdo_nwk_addr_rsp
is_registered cbs (ieee_addr_rsp e) = cbs.pfn_zdo_ieee_addr_rsp
is_registered cbs (node_desc_rsp e) = cbs.pfn_zdo_node_desc_rsp
is_registered cbs (power_desc_rsp e) = cbs.pfn_zdo_power_desc_rsp
is_registered cbs (simple_desc_rsp e) = cbs.pfn_zdo_simple_desc_rsp
is_registered cbs (active_ep_rsp e) = cbs.pfn_zdo_active_ep_rsp
is_registered cbs (match_desc_rsp e) = cbs.pfn_zdo_match_desc_rsp
is_registered cbs (complex_desc_rsp e) = cbs.pfn_zdo_complex_desc_rsp
is_registered cbs (user_desc_rsp e) = cbs.pfn_zdo_user_desc_rsp
is_registered cbs (user_desc_conf e) = cbs.pfn_zdo_user_desc_conf
is_registered cbs (server_disc_rsp e) = cbs.pfn_zdo_server_disc_rsp
is_registered cbs (end_device_bind_rsp e) = cbs.pfn_zdo_end_device_bind_rsp
is_registered cbs (bind_rsp e) = cbs.pfn_zdo_bind_rsp
is_registered cbs (unbind_rsp e) = cbs.pfn_zdo_unbind_rsp
is_registered cbs (mgmt_nwk_disc_rsp e) = cbs.pfn_zdo_mgmt_nwk_disc_rsp
is_registered cbs (mgmt_lqi_rsp e) = cbs.pfn_zdo_mgmt_lqi_rsp
is_registered cbs (mgmt_rtg_rsp e) = cbs.pfn_zdo_mgmt_rtg_rsp
is_registered cbs (mgmt_bind_rsp e) = cbs.pfn_zdo_mgmt_bind_rsp
is_registered cbs (mgmt_leave_rsp e) = cbs.pfn_zdo_mgmt_leave_rsp
is_registered cbs (mgmt_direct_join_rsp e) = cbs.pfn_zdo_mgmt_direct_join_rsp
is_registered cbs (mgmt_permit_join_rsp e) = cbs.pfn_zdo_mgmt_permit_join_rsp
is_registered cbs (end_device_annce_ind e) = cbs.pfn_zdo_end_device_annce_ind
is_registered cbs (match_desc_rsp_sent e) = cbs.pfn_zdo_match_desc_rsp_sent
is_registered cbs (status_error_rsp e) = cbs.pfn_zdo_status_error_rsp
is_registered cbs (src_rtg_ind e) = cbs.pfn_zdo_src_rtg_ind
is_registered cbs (beacon_notify_ind e) = cbs.pfn_zdo_beacon_notify_ind
is_registered cbs (join_cnf e) = cbs.pfn_zdo_join_cnf
is_registered cbs (nwk_discovery_cnf e) = cbs.pfn_zdo_nwk_discovery_cnf
is_registered cbs (leave_ind e) = cbs.pfn_zdo_leave_ind
is_registered cbs (msg_cb_incoming e) = cbs.pfn_zdo_msg_cb_incoming

-- The message as it stands in `rpcBuff`: command, payload and check byte.
abbrev pub message_of : ZdoEvent → ℕ → List ℕ
message_of e fcs = cmd0_of e ∷ cmd1_of e ∷ (payload_of e ++ fcs ∷ [])

-- What `srspRpcBuff` holds afterwards: a response is kept.
abbrev pub kept : ZdoEvent → (fcs : ℕ) (srsp : List ℕ) → List ℕ
kept e fcs srsp =
    if cmd0_of e == 0x65 then message_of e fcs ++ drop (length (message_of e fcs)) srsp else srsp

pub size_of : (e : ZdoEvent) (fcs : ℕ) → length (message_of e fcs) ≡ 3 + length (payload_of e)
size_of e fcs = omega (arith, length-append (payload_of e) (fcs ∷ []))

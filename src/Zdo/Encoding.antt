-- ===== src/Zdo/Encoding.antt =====
-- What the request functions of framework/mt/Zdo/mtZdo.c hand on, all together: each request of the
-- interface as a message, with its command number.
use znp_host_framework.Base.{ℕ, ◌≡◌, List, [], ◌∷◌, length}
use znp_host_framework.Rpc.{Outcome}
use znp_host_framework.Mt.Host.{Host, Env}
use znp_host_framework.Mt.Call.{IsAllocator, transmit, zdo_finish}
use znp_host_framework.Zdo.Requests.{zdo_sreq}
use znp_host_framework.Zdo.Address.Formats.{
  NwkAddrReqFormat, IeeeAddrReqFormat, ActiveEpReqFormat, ServerDiscReqFormat, DeviceAnnceFormat,
}
use znp_host_framework.Zdo.Address.Requests.{
  zdo_nwk_addr_req, zdo_ieee_addr_req, zdo_active_ep_req, zdo_server_disc_req, zdo_device_annce,
}
use znp_host_framework.Zdo.Address.Payloads.{
  nwk_addr_req_bytes, IsNwkAddrReq, zdo_nwk_addr_req-transmit, ieee_addr_req_bytes, IsIeeeAddrReq,
  zdo_ieee_addr_req-transmit, active_ep_req_bytes, IsActiveEpReq, zdo_active_ep_req-transmit,
  server_disc_req_bytes, IsServerDiscReq, zdo_server_disc_req-transmit, device_annce_bytes,
  IsDeviceAnnce, zdo_device_annce-transmit,
}
use znp_host_framework.Zdo.Descriptor.Formats.{
  NodeDescReqFormat, PowerDescReqFormat, SimpleDescReqFormat, MatchDescReqFormat,
  ComplexDescReqFormat, UserDescReqFormat, UserDescSetFormat,
}
use znp_host_framework.Zdo.Descriptor.Requests.{
  zdo_node_desc_req, zdo_power_desc_req, zdo_simple_desc_req, zdo_match_desc_req,
  zdo_complex_desc_req, zdo_user_desc_req, zdo_user_desc_set,
}
use znp_host_framework.Zdo.Descriptor.Payloads.{
  node_desc_req_bytes, IsNodeDescReq, zdo_node_desc_req-transmit, power_desc_req_bytes,
  IsPowerDescReq, zdo_power_desc_req-transmit, simple_desc_req_bytes, IsSimpleDescReq,
  zdo_simple_desc_req-transmit, match_desc_req_bytes, IsMatchDescReq, zdo_match_desc_req-transmit,
  complex_desc_req_bytes, IsComplexDescReq, zdo_complex_desc_req-transmit, user_desc_req_bytes,
  IsUserDescReq, zdo_user_desc_req-transmit, user_desc_set_bytes, IsUserDescSet,
  zdo_user_desc_set-transmit,
}
use znp_host_framework.Zdo.Binding.Formats.{
  EndDeviceBindReqFormat, BindReqFormat, UnbindReqFormat, SetLinkKeyFormat, RemoveLinkKeyFormat,
  GetLinkKeyFormat,
}
use znp_host_framework.Zdo.Binding.Requests.{
  zdo_end_device_bind_req, zdo_bind_req, zdo_unbind_req, zdo_set_link_key, zdo_remove_link_key,
  zdo_get_link_key,
}
use znp_host_framework.Zdo.Binding.Payloads.{
  end_device_bind_req_bytes, IsEndDeviceBindReq, zdo_end_device_bind_req-transmit,
  set_link_key_bytes, IsSetLinkKey, zdo_set_link_key-transmit, remove_link_key_bytes,
  IsRemoveLinkKey, zdo_remove_link_key-transmit, get_link_key_bytes, IsGetLinkKey,
  zdo_get_link_key-transmit,
}
use znp_host_framework.Zdo.Binding.Bind.{
  bind_req_bytes, IsBindReq, zdo_bind_req-transmit, unbind_req_bytes, IsUnbindReq,
  zdo_unbind_req-transmit,
}
use znp_host_framework.Zdo.Management.Formats.{
  MgmtNwkDiscReqFormat, MgmtLqiReqFormat, MgmtRtgReqFormat, MgmtBindReqFormat, MgmtLeaveReqFormat,
  MgmtDirectJoinReqFormat, MgmtPermitJoinReqFormat, MgmtNwkUpdateReqFormat,
}
use znp_host_framework.Zdo.Management.Requests.{
  zdo_mgmt_nwk_disc_req, zdo_mgmt_lqi_req, zdo_mgmt_rtg_req, zdo_mgmt_bind_req, zdo_mgmt_leave_req,
  zdo_mgmt_direct_join_req, zdo_mgmt_permit_join_req, zdo_mgmt_nwk_update_req,
}
use znp_host_framework.Zdo.Management.Payloads.{
  mgmt_nwk_disc_req_bytes, IsMgmtNwkDiscReq, zdo_mgmt_nwk_disc_req-transmit, mgmt_lqi_req_bytes,
  IsMgmtLqiReq, zdo_mgmt_lqi_req-transmit, mgmt_rtg_req_bytes, IsMgmtRtgReq,
  zdo_mgmt_rtg_req-transmit, mgmt_bind_req_bytes, IsMgmtBindReq, zdo_mgmt_bind_req-transmit,
  mgmt_leave_req_bytes, IsMgmtLeaveReq, zdo_mgmt_leave_req-transmit, mgmt_direct_join_req_bytes,
  IsMgmtDirectJoinReq, zdo_mgmt_direct_join_req-transmit, mgmt_permit_join_req_bytes,
  IsMgmtPermitJoinReq, zdo_mgmt_permit_join_req-transmit, mgmt_nwk_update_req_bytes,
  IsMgmtNwkUpdateReq, zdo_mgmt_nwk_update_req-transmit,
}
use znp_host_framework.Zdo.Indication.Formats.{MsgCbRegisterFormat, MsgCbRemoveFormat}
use znp_host_framework.Zdo.Indication.Requests.{zdo_msg_cb_register, zdo_msg_cb_remove}
use znp_host_framework.Zdo.Indication.Payloads.{
  msg_cb_register_bytes, IsMsgCbRegister, zdo_msg_cb_register-transmit, msg_cb_remove_bytes,
  IsMsgCbRemove, zdo_msg_cb_remove-transmit,
}
use znp_host_framework.Zdo.Network.Formats.{
  StartupFromAppFormat, AutoFindDestinationFormat, NwkDiscoveryReqFormat, JoinReqFormat,
}
use znp_host_framework.Zdo.Network.Requests.{
  zdo_startup_from_app, zdo_auto_find_destination, zdo_nwk_discovery_req, zdo_join_req, zdo_init,
}
use znp_host_framework.Zdo.Network.Payloads.{
  startup_from_app_bytes, IsStartupFromApp, zdo_startup_from_app-transmit,
  auto_find_destination_bytes, IsAutoFindDestination, zdo_auto_find_destination-transmit,
  nwk_discovery_req_bytes, IsNwkDiscoveryReq, zdo_nwk_discovery_req-transmit, join_req_bytes,
  IsJoinReq, zdo_join_req-transmit, zdo_init-transmit,
}

-- A call of the interface; `init` is `zdoInit`.
pub data ZdoRequest : Type 0 where
  nwk_addr_req : NwkAddrReqFormat → ZdoRequest
  ieee_addr_req : IeeeAddrReqFormat → ZdoRequest
  active_ep_req : ActiveEpReqFormat → ZdoRequest
  server_disc_req : ServerDiscReqFormat → ZdoRequest
  device_annce : DeviceAnnceFormat → ZdoRequest
  node_desc_req : NodeDescReqFormat → ZdoRequest
  power_desc_req : PowerDescReqFormat → ZdoRequest
  simple_desc_req : SimpleDescReqFormat → ZdoRequest
  match_desc_req : MatchDescReqFormat → ZdoRequest
  complex_desc_req : ComplexDescReqFormat → ZdoRequest
  user_desc_req : UserDescReqFormat → ZdoRequest
  user_desc_set : UserDescSetFormat → ZdoRequest
  end_device_bind_req : EndDeviceBindReqFormat → ZdoRequest
  bind_req : BindReqFormat → ZdoRequest
  unbind_req : UnbindReqFormat → ZdoRequest
  set_link_key : SetLinkKeyFormat → ZdoRequest
  remove_link_key : RemoveLinkKeyFormat → ZdoRequest
  get_link_key : GetLinkKeyFormat → ZdoRequest
  mgmt_nwk_disc_req : MgmtNwkDiscReqFormat → ZdoRequest
  mgmt_lqi_req : MgmtLqiReqFormat → ZdoRequest
  mgmt_rtg_req : MgmtRtgReqFormat → ZdoRequest
  mgmt_bind_req : MgmtBindReqFormat → ZdoRequest
  mgmt_leave_req : MgmtLeaveReqFormat → ZdoRequest
  mgmt_direct_join_req : MgmtDirectJoinReqFormat → ZdoRequest
  mgmt_permit_join_req : MgmtPermitJoinReqFormat → ZdoRequest
  mgmt_nwk_update_req : MgmtNwkUpdateReqFormat → ZdoRequest
  msg_cb_register : MsgCbRegisterFormat → ZdoRequest
  msg_cb_remove : MsgCbRemoveFormat → ZdoRequest
  startup_from_app : StartupFromAppFormat → ZdoRequest
  auto_find_destination : AutoFindDestinationFormat → ZdoRequest
  nwk_discovery_req : NwkDiscoveryReqFormat → ZdoRequest
  join_req : JoinReqFormat → ZdoRequest
  init : ZdoRequest

-- The function that is called.
unfoldable pub zdo_request : Env → ZdoRequest → Host → Outcome (ℕ × Host)
zdo_request env (nwk_addr_req req) h = zdo_nwk_addr_req env req h
zdo_request env (ieee_addr_req req) h = zdo_ieee_addr_req env req h
zdo_request env (active_ep_req req) h = zdo_active_ep_req env req h
zdo_request env (server_disc_req req) h = zdo_server_disc_req env req h
zdo_request env (device_annce req) h = zdo_device_annce env req h
zdo_request env (node_desc_req req) h = zdo_node_desc_req env req h
zdo_request env (power_desc_req req) h = zdo_power_desc_req env req h
zdo_request env (simple_desc_req req) h = zdo_simple_desc_req env req h
zdo_request env (match_desc_req req) h = zdo_match_desc_req env req h
zdo_request env (complex_desc_req req) h = zdo_complex_desc_req env req h
zdo_request env (user_desc_req req) h = zdo_user_desc_req env req h
zdo_request env (user_desc_set req) h = zdo_user_desc_set env req h
zdo_request env (end_device_bind_req req) h = zdo_end_device_bind_req env req h
zdo_request env (bind_req req) h = zdo_bind_req env req h
zdo_request env (unbind_req req) h = zdo_unbind_req env req h
zdo_request env (set_link_key req) h = zdo_set_link_key env req h
zdo_request env (remove_link_key req) h = zdo_remove_link_key env req h
zdo_request env (get_link_key req) h = zdo_get_link_key env req h
zdo_request env (mgmt_nwk_disc_req req) h = zdo_mgmt_nwk_disc_req env req h
zdo_request env (mgmt_lqi_req req) h = zdo_mgmt_lqi_req env req h
zdo_request env (mgmt_rtg_req req) h = zdo_mgmt_rtg_req env req h
zdo_request env (mgmt_bind_req req) h = zdo_mgmt_bind_req env req h
zdo_request env (mgmt_leave_req req) h = zdo_mgmt_leave_req env req h
zdo_request env (mgmt_direct_join_req req) h = zdo_mgmt_direct_join_req env req h
zdo_request env (mgmt_permit_join_req req) h = zdo_mgmt_permit_join_req env req h
zdo_request env (mgmt_nwk_update_req req) h = zdo_mgmt_nwk_update_req env req h
zdo_request env (msg_cb_register req) h = zdo_msg_cb_register env req h
zdo_request env (msg_cb_remove req) h = zdo_msg_cb_remove env req h
zdo_request env (startup_from_app req) h = zdo_startup_from_app env req h
zdo_request env (auto_find_destination req) h = zdo_auto_find_destination env req h
zdo_request env (nwk_discovery_req req) h = zdo_nwk_discovery_req env req h
zdo_request env (join_req req) h = zdo_join_req env req h
zdo_request env init h = zdo_init env h

-- The command numbers, `MT_ZDO_NWK_ADDR_REQ` to `MT_ZDO_AUTO_FIND_DESTINATION`.
abbrev pub command : ZdoRequest → ℕ
command (nwk_addr_req req) = 0x00
command (ieee_addr_req req) = 0x01
command (active_ep_req req) = 0x05
command (server_disc_req req) = 0x0c
command (device_annce req) = 0x0a
command (node_desc_req req) = 0x02
command (power_desc_req req) = 0x03
command (simple_desc_req req) = 0x04
command (match_desc_req req) = 0x06
command (complex_desc_req req) = 0x07
command (user_desc_req req) = 0x08
command (user_desc_set req) = 0x0b
command (end_device_bind_req req) = 0x20
command (bind_req req) = 0x21
command (unbind_req req) = 0x22
command (set_link_key req) = 0x23
command (remove_link_key req) = 0x24
command (get_link_key req) = 0x25
command (mgmt_nwk_disc_req req) = 0x30
command (mgmt_lqi_req req) = 0x31
command (mgmt_rtg_req req) = 0x32
command (mgmt_bind_req req) = 0x33
command (mgmt_leave_req req) = 0x34
command (mgmt_direct_join_req req) = 0x35
command (mgmt_permit_join_req req) = 0x36
command (mgmt_nwk_update_req req) = 0x37
command (msg_cb_register req) = 0x3e
command (msg_cb_remove req) = 0x3f
command (startup_from_app req) = 0x40
command (auto_find_destination req) = 0x41
command (nwk_discovery_req req) = 0x26
command (join_req req) = 0x27
command init = 0x40

-- The payload of each command.
abbrev pub encode : ZdoRequest → List ℕ
encode (nwk_addr_req req) = nwk_addr_req_bytes req
encode (ieee_addr_req req) = ieee_addr_req_bytes req
encode (active_ep_req req) = active_ep_req_bytes req
encode (server_disc_req req) = server_disc_req_bytes req
encode (device_annce req) = device_annce_bytes req
encode (node_desc_req req) = node_desc_req_bytes req
encode (power_desc_req req) = power_desc_req_bytes req
encode (simple_desc_req req) = simple_desc_req_bytes req
encode (match_desc_req req) = match_desc_req_bytes req
encode (complex_desc_req req) = complex_desc_req_bytes req
encode (user_desc_req req) = user_desc_req_bytes req
encode (user_desc_set req) = user_desc_set_bytes req
encode (end_device_bind_req req) = end_device_bind_req_bytes req
encode (bind_req req) = bind_req_bytes req
encode (unbind_req req) = unbind_req_bytes req
encode (set_link_key req) = set_link_key_bytes req
encode (remove_link_key req) = remove_link_key_bytes req
encode (get_link_key req) = get_link_key_bytes req
encode (mgmt_nwk_disc_req req) = mgmt_nwk_disc_req_bytes req
encode (mgmt_lqi_req req) = mgmt_lqi_req_bytes req
encode (mgmt_rtg_req req) = mgmt_rtg_req_bytes req
encode (mgmt_bind_req req) = mgmt_bind_req_bytes req
encode (mgmt_leave_req req) = mgmt_leave_req_bytes req
encode (mgmt_direct_join_req req) = mgmt_direct_join_req_bytes req
encode (mgmt_permit_join_req req) = mgmt_permit_join_req_bytes req
encode (mgmt_nwk_update_req req) = mgmt_nwk_update_req_bytes req
encode (msg_cb_register req) = msg_cb_register_bytes req
encode (msg_cb_remove req) = msg_cb_remove_bytes req
encode (startup_from_app req) = startup_from_app_bytes req
encode (auto_find_destination req) = auto_find_destination_bytes req
encode (nwk_discovery_req req) = nwk_discovery_req_bytes req
encode (join_req req) = join_req_bytes req
encode init = 0 ∷ 0 ∷ []

-- The counts of a request are within its arrays, which have the sizes of the header where these
-- are fixed, the payload is at most 256 bytes, and `zdoUnbindReq` has a destination of two bytes.
abbrev pub IsValid : ZdoRequest → Type 0
IsValid (nwk_addr_req req) = IsNwkAddrReq req
IsValid (ieee_addr_req req) = IsIeeeAddrReq req
IsValid (active_ep_req req) = IsActiveEpReq req
IsValid (server_disc_req req) = IsServerDiscReq req
IsValid (device_annce req) = IsDeviceAnnce req
IsValid (node_desc_req req) = IsNodeDescReq req
IsValid (power_desc_req req) = IsPowerDescReq req
IsValid (simple_desc_req req) = IsSimpleDescReq req
IsValid (match_desc_req req) = IsMatchDescReq req
IsValid (complex_desc_req req) = IsComplexDescReq req
IsValid (user_desc_req req) = IsUserDescReq req
IsValid (user_desc_set req) = IsUserDescSet req
IsValid (end_device_bind_req req) = IsEndDeviceBindReq req
IsValid (bind_req req) = IsBindReq req
IsValid (unbind_req req) = IsUnbindReq req
IsValid (set_link_key req) = IsSetLinkKey req
IsValid (remove_link_key req) = IsRemoveLinkKey req
IsValid (get_link_key req) = IsGetLinkKey req
IsValid (mgmt_nwk_disc_req req) = IsMgmtNwkDiscReq req
IsValid (mgmt_lqi_req req) = IsMgmtLqiReq req
IsValid (mgmt_rtg_req req) = IsMgmtRtgReq req
IsValid (mgmt_bind_req req) = IsMgmtBindReq req
IsValid (mgmt_leave_req req) = IsMgmtLeaveReq req
IsValid (mgmt_direct_join_req req) = IsMgmtDirectJoinReq req
IsValid (mgmt_permit_join_req req) = IsMgmtPermitJoinReq req
IsValid (mgmt_nwk_update_req req) = IsMgmtNwkUpdateReq req
IsValid (msg_cb_register req) = IsMsgCbRegister req
IsValid (msg_cb_remove req) = IsMsgCbRemove req
IsValid (startup_from_app req) = IsStartupFromApp req
IsValid (auto_find_destination req) = IsAutoFindDestination req
IsValid (nwk_discovery_req req) = IsNwkDiscoveryReq req
IsValid (join_req req) = IsJoinReq req
IsValid init = Unit {0}

-- What each request function of the interface comes to, `rpcSendFrame` left as it is: status 1
-- without memory, and otherwise a call with the interface's `cmd0`, the command number and the
-- payload of the format, and its end. The counts are to be within the arrays of the struct and the
-- payload within 256 bytes, the destination of `zdoUnbindReq` is not to be an extended address, and
-- `malloc` is to return blocks of the size asked for.
pub zdo_request-transmit :
    (env : Env) (q : ZdoRequest) (h : Host)
    → IsAllocator env.malloc
    → IsValid q
    → zdo_request env q h
      ≡ transmit env
          (zdo_finish env)
          zdo_sreq
          (command q)
          (encode q)
          h
          (env.malloc (length (encode q)))
unfolding zdo_request
zdo_request-transmit env (nwk_addr_req req) h allocates ok =
    zdo_nwk_addr_req-transmit env req h allocates ok
zdo_request-transmit env (ieee_addr_req req) h allocates ok =
    zdo_ieee_addr_req-transmit env req h allocates ok
zdo_request-transmit env (active_ep_req req) h allocates ok =
    zdo_active_ep_req-transmit env req h allocates ok
zdo_request-transmit env (server_disc_req req) h allocates ok =
    zdo_server_disc_req-transmit env req h allocates ok
zdo_request-transmit env (device_annce req) h allocates ok =
    zdo_device_annce-transmit env req h allocates ok
zdo_request-transmit env (node_desc_req req) h allocates ok =
    zdo_node_desc_req-transmit env req h allocates ok
zdo_request-transmit env (power_desc_req req) h allocates ok =
    zdo_power_desc_req-transmit env req h allocates ok
zdo_request-transmit env (simple_desc_req req) h allocates ok =
    zdo_simple_desc_req-transmit env req h allocates ok
zdo_request-transmit env (match_desc_req req) h allocates ok =
    zdo_match_desc_req-transmit env req h allocates ok
zdo_request-transmit env (complex_desc_req req) h allocates ok =
    zdo_complex_desc_req-transmit env req h allocates ok
zdo_request-transmit env (user_desc_req req) h allocates ok =
    zdo_user_desc_req-transmit env req h allocates ok
zdo_request-transmit env (user_desc_set req) h allocates ok =
    zdo_user_desc_set-transmit env req h allocates ok
zdo_request-transmit env (end_device_bind_req req) h allocates ok =
    zdo_end_device_bind_req-transmit env req h allocates ok
zdo_request-transmit env (bind_req req) h allocates ok =
    zdo_bind_req-transmit env req h allocates ok
zdo_request-transmit env (unbind_req req) h allocates ok =
    zdo_unbind_req-transmit env req h allocates ok
zdo_request-transmit env (set_link_key req) h allocates ok =
    zdo_set_link_key-transmit env req h allocates ok
zdo_request-transmit env (remove_link_key req) h allocates ok =
    zdo_remove_link_key-transmit env req h allocates ok
zdo_request-transmit env (get_link_key req) h allocates ok =
    zdo_get_link_key-transmit env req h allocates ok
zdo_request-transmit env (mgmt_nwk_disc_req req) h allocates ok =
    zdo_mgmt_nwk_disc_req-transmit env req h allocates ok
zdo_request-transmit env (mgmt_lqi_req req) h allocates ok =
    zdo_mgmt_lqi_req-transmit env req h allocates ok
zdo_request-transmit env (mgmt_rtg_req req) h allocates ok =
    zdo_mgmt_rtg_req-transmit env req h allocates ok
zdo_request-transmit env (mgmt_bind_req req) h allocates ok =
    zdo_mgmt_bind_req-transmit env req h allocates ok
zdo_request-transmit env (mgmt_leave_req req) h allocates ok =
    zdo_mgmt_leave_req-transmit env req h allocates ok
zdo_request-transmit env (mgmt_direct_join_req req) h allocates ok =
    zdo_mgmt_direct_join_req-transmit env req h allocates ok
zdo_request-transmit env (mgmt_permit_join_req req) h allocates ok =
    zdo_mgmt_permit_join_req-transmit env req h allocates ok
zdo_request-transmit env (mgmt_nwk_update_req req) h allocates ok =
    zdo_mgmt_nwk_update_req-transmit env req h allocates ok
zdo_request-transmit env (msg_cb_register req) h allocates ok =
    zdo_msg_cb_register-transmit env req h allocates ok
zdo_request-transmit env (msg_cb_remove req) h allocates ok =
    zdo_msg_cb_remove-transmit env req h allocates ok
zdo_request-transmit env (startup_from_app req) h allocates ok =
    zdo_startup_from_app-transmit env req h allocates ok
zdo_request-transmit env (auto_find_destination req) h allocates ok =
    zdo_auto_find_destination-transmit env req h allocates ok
zdo_request-transmit env (nwk_discovery_req req) h allocates ok =
    zdo_nwk_discovery_req-transmit env req h allocates ok
zdo_request-transmit env (join_req req) h allocates ok =
    zdo_join_req-transmit env req h allocates ok
zdo_request-transmit env init h allocates ok = zdo_init-transmit env h allocates

-- ===== src/Zdo/Process.antt =====
-- `zdoProcess` of framework/mt/Zdo/mtZdo.c, with `processSrsp`. The argument `table` is what the array
-- of `processMgmtBindRsp`, a variable on the stack, holds at first.
use znp_host_framework.Base.{ℕ, List, [], ◌∷◌, if◌then◌else◌, ◌==◌, get_elem?, bit_and}
use znp_host_framework.Rpc.{Outcome, done, ◌>>=◌, checked, mt_rpc_cmd_type_mask, mt_rpc_cmd_srsp}
use znp_host_framework.Mt.Dispatch.{deliver, copy_srsp}
use znp_host_framework.Mt.Lists.{made}
use znp_host_framework.Zdo.Events.{
  ZdoEvent, ZdoCallbacks, state_change_ind, get_link_key_srsp, nwk_addr_rsp, ieee_addr_rsp,
  node_desc_rsp, power_desc_rsp, simple_desc_rsp, active_ep_rsp, match_desc_rsp, complex_desc_rsp,
  user_desc_rsp, user_desc_conf, server_disc_rsp, end_device_bind_rsp, bind_rsp, unbind_rsp,
  mgmt_nwk_disc_rsp, mgmt_lqi_rsp, mgmt_rtg_rsp, mgmt_bind_rsp, mgmt_leave_rsp,
  mgmt_direct_join_rsp, mgmt_permit_join_rsp, end_device_annce_ind, match_desc_rsp_sent,
  status_error_rsp, src_rtg_ind, beacon_notify_ind, join_cnf, nwk_discovery_cnf, leave_ind,
  msg_cb_incoming,
}
use znp_host_framework.Zdo.Address.Handlers.{
  process_nwk_addr_rsp, process_ieee_addr_rsp, process_active_ep_rsp, process_server_disc_rsp,
}
use znp_host_framework.Zdo.Descriptor.Handlers.{
  process_node_desc_rsp, process_power_desc_rsp, process_simple_desc_rsp, process_match_desc_rsp,
  process_complex_desc_rsp, process_user_desc_rsp, process_user_desc_conf,
}
use znp_host_framework.Zdo.Binding.Handlers.{
  process_end_device_bind_rsp, process_bind_rsp, process_unbind_rsp, process_get_link_key,
}
use znp_host_framework.Zdo.Management.Handlers.{
  process_mgmt_nwk_disc_rsp, process_mgmt_lqi_rsp, process_mgmt_rtg_rsp, process_mgmt_bind_rsp,
  process_mgmt_leave_rsp, process_mgmt_direct_join_rsp, process_mgmt_permit_join_rsp,
}
use znp_host_framework.Zdo.Indication.Handlers.{
  process_match_desc_rsp_sent, process_status_error_rsp, process_src_rtg_ind,
  process_msg_cb_incoming,
}
use znp_host_framework.Zdo.Network.Handlers.{
  process_end_device_annce_ind, process_beacon_notify_ind, process_join_cnf,
  process_nwk_discovery_cnf, process_leave_ind,
}
use znp_host_framework.Zdo.Management.Responses.{BindingTableListItemFormat}

-- The state is read whether or not there is a callback for it.
unfoldable pub process_state_change : ZdoCallbacks → (rpc_buff : List ℕ) → Outcome (List ZdoEvent)
process_state_change cbs rpc_buff = checked (get_elem? rpc_buff 2) >>= λ zdo_state.
    done (if cbs.pfnmt_zdo_state_change_ind then state_change_ind zdo_state ∷ [] else [])

-- The `switch` of `zdoProcess`.
unfoldable pub zdo_areq_switch :
    ZdoCallbacks
    → List BindingTableListItemFormat
    → (cmd1 : ℕ) (rpc_buff : List ℕ) (rpc_len : ℕ) → Outcome (List ZdoEvent)
zdo_areq_switch cbs table cmd1 rpc_buff rpc_len =
    if cmd1 == 0xc0
    then process_state_change cbs rpc_buff
    else if cmd1 == 0x80
    then deliver cbs.pfn_zdo_nwk_addr_rsp (made nwk_addr_rsp (process_nwk_addr_rsp rpc_len))
        rpc_buff
    else if cmd1 == 0x81
    then deliver cbs.pfn_zdo_ieee_addr_rsp (made ieee_addr_rsp (process_ieee_addr_rsp rpc_len))
        rpc_buff
    else if cmd1 == 0x82
    then deliver cbs.pfn_zdo_node_desc_rsp (made node_desc_rsp process_node_desc_rsp) rpc_buff
    else if cmd1 == 0x83
    then deliver cbs.pfn_zdo_power_desc_rsp (made power_desc_rsp process_power_desc_rsp) rpc_buff
    else if cmd1 == 0x84
    then deliver cbs.pfn_zdo_simple_desc_rsp
        (made simple_desc_rsp (process_simple_desc_rsp rpc_len)) rpc_buff
    else if cmd1 == 0x85
    then deliver cbs.pfn_zdo_active_ep_rsp (made active_ep_rsp (process_active_ep_rsp rpc_len))
        rpc_buff
    else if cmd1 == 0x86
    then deliver cbs.pfn_zdo_match_desc_rsp (made match_desc_rsp (process_match_desc_rsp rpc_len))
        rpc_buff
    else if cmd1 == 0x90
    then deliver cbs.pfn_zdo_complex_desc_rsp
        (made complex_desc_rsp (process_complex_desc_rsp rpc_len)) rpc_buff
    else if cmd1 == 0x91
    then deliver cbs.pfn_zdo_user_desc_rsp (made user_desc_rsp (process_user_desc_rsp rpc_len))
        rpc_buff
    else if cmd1 == 0x94
    then deliver cbs.pfn_zdo_user_desc_conf (made user_desc_conf process_user_desc_conf) rpc_buff
    else if cmd1 == 0x95
    then deliver cbs.pfn_zdo_server_disc_rsp (made server_disc_rsp process_server_disc_rsp) rpc_buff
    else if cmd1 == 0xa0
    then deliver cbs.pfn_zdo_end_device_bind_rsp
        (made end_device_bind_rsp process_end_device_bind_rsp) rpc_buff
    else if cmd1 == 0xa1
    then deliver cbs.pfn_zdo_bind_rsp (made bind_rsp process_bind_rsp) rpc_buff
    else if cmd1 == 0xa2
    then deliver cbs.pfn_zdo_unbind_rsp (made unbind_rsp process_unbind_rsp) rpc_buff
    else if cmd1 == 0xb0
    then deliver cbs.pfn_zdo_mgmt_nwk_disc_rsp
        (made mgmt_nwk_disc_rsp (process_mgmt_nwk_disc_rsp rpc_len)) rpc_buff
    else if cmd1 == 0xb1
    then deliver cbs.pfn_zdo_mgmt_lqi_rsp (made mgmt_lqi_rsp (process_mgmt_lqi_rsp rpc_len))
        rpc_buff
    else if cmd1 == 0xb2
    then deliver cbs.pfn_zdo_mgmt_rtg_rsp (made mgmt_rtg_rsp (process_mgmt_rtg_rsp rpc_len))
        rpc_buff
    else if cmd1 == 0xb3
    then deliver cbs.pfn_zdo_mgmt_bind_rsp
        (made mgmt_bind_rsp (process_mgmt_bind_rsp table rpc_len)) rpc_buff
    else if cmd1 == 0xb4
    then deliver cbs.pfn_zdo_mgmt_leave_rsp (made mgmt_leave_rsp process_mgmt_leave_rsp) rpc_buff
    else if cmd1 == 0xb5
    then deliver cbs.pfn_zdo_mgmt_direct_join_rsp
        (made mgmt_direct_join_rsp process_mgmt_direct_join_rsp) rpc_buff
    else if cmd1 == 0xb6
    then deliver cbs.pfn_zdo_mgmt_permit_join_rsp
        (made mgmt_permit_join_rsp process_mgmt_permit_join_rsp) rpc_buff
    else if cmd1 == 0xc1
    then deliver cbs.pfn_zdo_end_device_annce_ind
        (made end_device_annce_ind process_end_device_annce_ind) rpc_buff
    else if cmd1 == 0xc2
    then deliver cbs.pfn_zdo_match_desc_rsp_sent
        (made match_desc_rsp_sent process_match_desc_rsp_sent) rpc_buff
    else if cmd1 == 0xc3
    then deliver cbs.pfn_zdo_status_error_rsp (made status_error_rsp process_status_error_rsp)
        rpc_buff
    else if cmd1 == 0xc4
    then deliver cbs.pfn_zdo_src_rtg_ind (made src_rtg_ind process_src_rtg_ind) rpc_buff
    else if cmd1 == 0xc5
    then deliver cbs.pfn_zdo_beacon_notify_ind
        (made beacon_notify_ind (process_beacon_notify_ind rpc_len)) rpc_buff
    else if cmd1 == 0xc6
    then deliver cbs.pfn_zdo_join_cnf (made join_cnf process_join_cnf) rpc_buff
    else if cmd1 == 0xc7
    then deliver cbs.pfn_zdo_nwk_discovery_cnf (made nwk_discovery_cnf process_nwk_discovery_cnf)
        rpc_buff
    else if cmd1 == 0xc9
    then deliver cbs.pfn_zdo_leave_ind (made leave_ind process_leave_ind) rpc_buff
    else if cmd1 == 0xff
    then deliver cbs.pfn_zdo_msg_cb_incoming (made msg_cb_incoming process_msg_cb_incoming) rpc_buff
    else done []

-- `processSrsp`: the message is kept, and the handler for it called. The result has the callbacks
-- called and `srspRpcBuff`.
unfoldable pub zdo_process_srsp :
    ZdoCallbacks
    → (cmd1 : ℕ) (rpc_buff : List ℕ) (rpc_len : ℕ) (srsp_rpc_buff : List ℕ)
    → Outcome (List ZdoEvent × List ℕ)
zdo_process_srsp cbs cmd1 rpc_buff rpc_len srsp_rpc_buff =
    copy_srsp srsp_rpc_buff rpc_buff rpc_len >>= λ kept.
    (if cmd1 == 0x25
      then deliver cbs.pfn_zdo_get_link_key (made get_link_key_srsp process_get_link_key) rpc_buff
      else done [])
    >>= λ events. done (events, kept)

unfoldable pub zdo_process :
    ZdoCallbacks
    → List BindingTableListItemFormat
    → (rpc_buff : List ℕ) (rpc_len : ℕ) (srsp_rpc_buff : List ℕ) → Outcome (List ZdoEvent × List ℕ)
zdo_process cbs table rpc_buff rpc_len srsp_rpc_buff = do
  cmd0 ← checked (get_elem? rpc_buff 0)
  cmd1 ← checked (get_elem? rpc_buff 1)
  if bit_and cmd0 mt_rpc_cmd_type_mask == mt_rpc_cmd_srsp
      then zdo_process_srsp cbs cmd1 rpc_buff rpc_len srsp_rpc_buff
      else (zdo_areq_switch cbs table cmd1 rpc_buff rpc_len >>= λ events.
          done (events, srsp_rpc_buff))

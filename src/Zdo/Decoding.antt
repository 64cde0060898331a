-- ===== src/Zdo/Decoding.antt =====
-- That `zdoProcess` calls the callback with what a message says.
use znp_host_framework.Base.{ℕ, ◌≤◌, ◌≡◌, refl, List, [], ◌∷◌, ◌++◌, length, if◌then◌else◌, arith}
use znp_host_framework.Rpc.{done}
use znp_host_framework.Mt.Dispatch.{deliver-made, deliver-unread, copy_srsp_lem}
use znp_host_framework.Zdo.Events.{
  ZdoEvent, ZdoCallbacks, state_change_ind, get_link_key_srsp, nwk_addr_rsp, ieee_addr_rsp,
  node_desc_rsp, power_desc_rsp, simple_desc_rsp, active_ep_rsp, match_desc_rsp, complex_desc_rsp,
  user_desc_rsp, user_desc_conf, server_disc_rsp, end_device_bind_rsp, bind_rsp, unbind_rsp,
  mgmt_nwk_disc_rsp, mgmt_lqi_rsp, mgmt_rtg_rsp, mgmt_bind_rsp, mgmt_leave_rsp,
  mgmt_direct_join_rsp, mgmt_permit_join_rsp, end_device_annce_ind, match_desc_rsp_sent,
  status_error_rsp, src_rtg_ind, beacon_notify_ind, join_cnf, nwk_discovery_cnf, leave_ind,
  msg_cb_incoming,
}
use znp_host_framework.Zdo.Address.Handlers.{
  process_nwk_addr_rsp, process_ieee_addr_rsp, process_active_ep_rsp, process_server_disc_rsp,
}
use znp_host_framework.Zdo.Descriptor.Handlers.{
  process_node_desc_rsp, process_power_desc_rsp, process_simple_desc_rsp, process_match_desc_rsp,
  process_complex_desc_rsp, process_user_desc_rsp, process_user_desc_conf,
}
use znp_host_framework.Zdo.Binding.Handlers.{
  process_end_device_bind_rsp, process_bind_rsp, process_unbind_rsp, process_get_link_key,
}
use znp_host_framework.Zdo.Management.Handlers.{
  process_mgmt_nwk_disc_rsp, process_mgmt_lqi_rsp, process_mgmt_rtg_rsp, process_mgmt_bind_rsp,
  process_mgmt_leave_rsp, process_mgmt_direct_join_rsp, process_mgmt_permit_join_rsp,
}
use znp_host_framework.Zdo.Indication.Handlers.{
  process_match_desc_rsp_sent, process_status_error_rsp, process_src_rtg_ind,
  process_msg_cb_incoming,
}
use znp_host_framework.Zdo.Network.Handlers.{
  process_end_device_annce_ind, process_beacon_notify_ind, process_join_cnf,
  process_nwk_discovery_cnf, process_leave_ind,
}
use znp_host_framework.Zdo.Management.Responses.{BindingTableListItemFormat}
use znp_host_framework.Zdo.Address.Reading.{
  nwk_addr_rsp_bytes, process_nwk_addr_rsp-Reads, ieee_addr_rsp_bytes, process_ieee_addr_rsp-Reads,
  active_ep_rsp_bytes, process_active_ep_rsp-Reads, server_disc_rsp_bytes,
  process_server_disc_rsp-Reads,
}
use znp_host_framework.Zdo.Descriptor.Reading.{
  node_desc_rsp_bytes, process_node_desc_rsp-Reads, power_desc_rsp_bytes,
  process_power_desc_rsp-Reads, simple_desc_rsp_bytes, process_simple_desc_rsp-Reads,
  match_desc_rsp_bytes, process_match_desc_rsp-Reads, complex_desc_rsp_bytes,
  process_complex_desc_rsp-Reads, user_desc_rsp_bytes, process_user_desc_rsp-Reads,
  user_desc_conf_bytes, process_user_desc_conf-Reads,
}
use znp_host_framework.Zdo.Binding.Reading.{
  end_device_bind_rsp_bytes, process_end_device_bind_rsp-Reads, bind_rsp_bytes,
  process_bind_rsp-Reads, unbind_rsp_bytes, process_unbind_rsp-Reads, get_link_key_srsp_bytes,
  process_get_link_key-Reads,
}
use znp_host_framework.Zdo.Management.Reading.{
  mgmt_nwk_disc_rsp_bytes, process_mgmt_nwk_disc_rsp-Reads, mgmt_lqi_rsp_bytes,
  process_mgmt_lqi_rsp-Reads, mgmt_rtg_rsp_bytes, process_mgmt_rtg_rsp-Reads, mgmt_bind_rsp_bytes,
  process_mgmt_bind_rsp-Reads, mgmt_leave_rsp_bytes, process_mgmt_leave_rsp-Reads,
  mgmt_direct_join_rsp_bytes, process_mgmt_direct_join_rsp-Reads, mgmt_permit_join_rsp_bytes,
  process_mgmt_permit_join_rsp-Reads,
}
use znp_host_framework.Zdo.Indication.Reading.{
  match_desc_rsp_sent_bytes, process_match_desc_rsp_sent-Reads, status_error_rsp_bytes,
  process_status_error_rsp-Reads, src_rtg_ind_bytes, process_src_rtg_ind-Reads,
  msg_cb_incoming_front, process_msg_cb_incoming-Reads,
}
use znp_host_framework.Zdo.Network.Reading.{
  end_device_annce_ind_bytes, process_end_device_annce_ind-Reads, beacon_notify_ind_bytes,
  process_beacon_notify_ind-Reads, join_cnf_bytes, process_join_cnf-Reads, nwk_discovery_cnf_bytes,
  process_nwk_discovery_cnf-Reads, leave_ind_bytes, process_leave_ind-Reads,
}
use znp_host_framework.Zdo.Messages.{payload_of, IsValid, is_registered, message_of, kept, size_of}
use znp_host_framework.Zdo.Process.{
  process_state_change, zdo_areq_switch, zdo_process_srsp, zdo_process,
}

-- A message to the host, in a buffer that may hold anything behind it, makes `zdoProcess` call the
-- callback of its command, if that is registered, with exactly what the message says, and no other;
-- a response is also kept in `srspRpcBuff`, which a message of another kind leaves as it is. The
-- message is to have what the handlers presuppose: its numbers fit their types, each length is that
-- of its list, each list fits its array, a response of `zdoSimpleDescReq` has a descriptor, one of
-- `zdoIeeeAddrReq` without devices has the start index 0, a binding table has no entries, and the
-- `NotUsed` byte of an incoming message is the low byte of its `NwkAddr`, which the handler reads
-- in its place. The payload has at most 252 bytes and `srspRpcBuff` has 256.
pub zdo_process-event :
    (cbs : ZdoCallbacks) (table : List BindingTableListItemFormat) (e : ZdoEvent) (fcs : ℕ)
    (back srsp : List ℕ)
    → IsValid table e
    → length (payload_of e) ≤ 252
    → length srsp ≡ 256
    → zdo_process cbs table (message_of e fcs ++ back) (length (message_of e fcs)) srsp
      ≡ done (if is_registered cbs e then e ∷ [] else [], kept e fcs srsp)
unfolding zdo_process zdo_areq_switch zdo_process_srsp process_state_change
zdo_process-event cbs table (state_change_ind s) fcs back srsp ok short size = refl
zdo_process-event cbs table (get_link_key_srsp e) fcs back srsp ok short size =
    let msg = message_of (get_link_key_srsp e) fcs in
    rw
      (copy_srsp_lem srsp msg back (length msg) refl
        (omega (arith, size_of (get_link_key_srsp e) fcs, short, size)))
      (rw
        (deliver-made cbs.pfn_zdo_get_link_key get_link_key_srsp process_get_link_key 0x65 0x25
          (get_link_key_srsp_bytes e) fcs back e (process_get_link_key-Reads e ok) short)
        refl)
zdo_process-event cbs table (nwk_addr_rsp e) fcs back srsp ok short size =
    rw
      (deliver-made cbs.pfn_zdo_nwk_addr_rsp nwk_addr_rsp
        (process_nwk_addr_rsp (length (message_of (nwk_addr_rsp e) fcs))) 0x45 0x80
        (nwk_addr_rsp_bytes e) fcs back e
        (process_nwk_addr_rsp-Reads e (length (message_of (nwk_addr_rsp e) fcs))
          (omega (arith, size_of (nwk_addr_rsp e) fcs)) ok)
        short)
      refl
zdo_process-event cbs table (ieee_addr_rsp e) fcs back srsp ok short size =
    rw
      (deliver-made cbs.pfn_zdo_ieee_addr_rsp ieee_addr_rsp
        (process_ieee_addr_rsp (length (message_of (ieee_addr_rsp e) fcs))) 0x45 0x81
        (ieee_addr_rsp_bytes e) fcs back e
        (process_ieee_addr_rsp-Reads e (length (message_of (ieee_addr_rsp e) fcs))
          (omega (arith, size_of (ieee_addr_rsp e) fcs)) ok)
        short)
      refl
zdo_process-event cbs table (node_desc_rsp e) fcs back srsp ok short size =
    rw
      (deliver-made cbs.pfn_zdo_node_desc_rsp node_desc_rsp process_node_desc_rsp 0x45 0x82
        (node_desc_rsp_bytes e) fcs back e (process_node_desc_rsp-Reads e ok) short)
      refl
zdo_process-event cbs table (power_desc_rsp e) fcs back srsp ok short size =
    rw
      (deliver-made cbs.pfn_zdo_power_desc_rsp power_desc_rsp process_power_desc_rsp 0x45 0x83
        (power_desc_rsp_bytes e) fcs back e (process_power_desc_rsp-Reads e ok) short)
      refl
zdo_process-event cbs table (simple_desc_rsp e) fcs back srsp ok short size =
    rw
      (deliver-made cbs.pfn_zdo_simple_desc_rsp simple_desc_rsp
        (process_simple_desc_rsp (length (message_of (simple_desc_rsp e) fcs))) 0x45 0x84
        (simple_desc_rsp_bytes e) fcs back e
        (process_simple_desc_rsp-Reads e (length (message_of (simple_desc_rsp e) fcs))
          (omega (arith, size_of (simple_desc_rsp e) fcs)) ok)
        short)
      refl
zdo_process-event cbs table (active_ep_rsp e) fcs back srsp ok short size =
    rw
      (deliver-made cbs.pfn_zdo_active_ep_rsp active_ep_rsp
        (process_active_ep_rsp (length (message_of (active_ep_rsp e) fcs))) 0x45 0x85
        (active_ep_rsp_bytes e) fcs back e
        (process_active_ep_rsp-Reads e (length (message_of (active_ep_rsp e) fcs))
          (omega (arith, size_of (active_ep_rsp e) fcs)) ok)
        short)
      refl
zdo_process-event cbs table (match_desc_rsp e) fcs back srsp ok short size =
    rw
      (deliver-made cbs.pfn_zdo_match_desc_rsp match_desc_rsp
        (process_match_desc_rsp (length (message_of (match_desc_rsp e) fcs))) 0x45 0x86
        (match_desc_rsp_bytes e) fcs back e
        (process_match_desc_rsp-Reads e (length (message_of (match_desc_rsp e) fcs))
          (omega (arith, size_of (match_desc_rsp e) fcs)) ok)
        short)
      refl
zdo_process-event cbs table (complex_desc_rsp e) fcs back srsp ok short size =
    rw
      (deliver-made cbs.pfn_zdo_complex_desc_rsp complex_desc_rsp
        (process_complex_desc_rsp (length (message_of (complex_desc_rsp e) fcs))) 0x45 0x90
        (complex_desc_rsp_bytes e) fcs back e
        (process_complex_desc_rsp-Reads e (length (message_of (complex_desc_rsp e) fcs))
          (omega (arith, size_of (complex_desc_rsp e) fcs)) ok)
        short)
      refl
zdo_process-event cbs table (user_desc_rsp e) fcs back srsp ok short size =
    rw
      (deliver-made cbs.pfn_zdo_user_desc_rsp user_desc_rsp
        (process_user_desc_rsp (length (message_of (user_desc_rsp e) fcs))) 0x45 0x91
        (user_desc_rsp_bytes e) fcs back e
        (process_user_desc_rsp-Reads e (length (message_of (user_desc_rsp e) fcs))
          (omega (arith, size_of (user_desc_rsp e) fcs)) ok)
        short)
      refl
zdo_process-event cbs table (user_desc_conf e) fcs back srsp ok short size =
    rw
      (deliver-made cbs.pfn_zdo_user_desc_conf user_desc_conf process_user_desc_conf 0x45 0x94
        (user_desc_conf_bytes e) fcs back e (process_user_desc_conf-Reads e ok) short)
      refl
zdo_process-event cbs table (server_disc_rsp e) fcs back srsp ok short size =
    rw
      (deliver-made cbs.pfn_zdo_server_disc_rsp server_disc_rsp process_server_disc_rsp 0x45 0x95
        (server_disc_rsp_bytes e) fcs back e (process_server_disc_rsp-Reads e ok) short)
      refl
zdo_process-event cbs table (end_device_bind_rsp e) fcs back srsp ok short size =
    rw
      (deliver-made cbs.pfn_zdo_end_device_bind_rsp end_device_bind_rsp process_end_device_bind_rsp
        0x45 0xa0 (end_device_bind_rsp_bytes e) fcs back e (process_end_device_bind_rsp-Reads e ok)
        short)
      refl
zdo_process-event cbs table (bind_rsp e) fcs back srsp ok short size =
    rw
      (deliver-made cbs.pfn_zdo_bind_rsp bind_rsp process_bind_rsp 0x45 0xa1 (bind_rsp_bytes e) fcs
        back e (process_bind_rsp-Reads e ok) short)
      refl
zdo_process-event cbs table (unbind_rsp e) fcs back srsp ok short size =
    rw
      (deliver-made cbs.pfn_zdo_unbind_rsp unbind_rsp process_unbind_rsp 0x45 0xa2
        (unbind_rsp_bytes e) fcs back e (process_unbind_rsp-Reads e ok) short)
      refl
zdo_process-event cbs table (mgmt_nwk_disc_rsp e) fcs back srsp ok short size =
    rw
      (deliver-made cbs.pfn_zdo_mgmt_nwk_disc_rsp mgmt_nwk_disc_rsp
        (process_mgmt_nwk_disc_rsp (length (message_of (mgmt_nwk_disc_rsp e) fcs))) 0x45 0xb0
        (mgmt_nwk_disc_rsp_bytes e) fcs back e
        (process_mgmt_nwk_disc_rsp-Reads e (length (message_of (mgmt_nwk_disc_rsp e) fcs))
          (omega (arith, size_of (mgmt_nwk_disc_rsp e) fcs)) ok)
        short)
      refl
zdo_process-event cbs table (mgmt_lqi_rsp e) fcs back srsp ok short size =
    rw
      (deliver-made cbs.pfn_zdo_mgmt_lqi_rsp mgmt_lqi_rsp
        (process_mgmt_lqi_rsp (length (message_of (mgmt_lqi_rsp e) fcs))) 0x45 0xb1
        (mgmt_lqi_rsp_bytes e) fcs back e
        (process_mgmt_lqi_rsp-Reads e (length (message_of (mgmt_lqi_rsp e) fcs))
          (omega (arith, size_of (mgmt_lqi_rsp e) fcs)) ok)
        short)
      refl
zdo_process-event cbs table (mgmt_rtg_rsp e) fcs back srsp ok short size =
    rw
      (deliver-made cbs.pfn_zdo_mgmt_rtg_rsp mgmt_rtg_rsp
        (process_mgmt_rtg_rsp (length (message_of (mgmt_rtg_rsp e) fcs))) 0x45 0xb2
        (mgmt_rtg_rsp_bytes e) fcs back e
        (process_mgmt_rtg_rsp-Reads e (length (message_of (mgmt_rtg_rsp e) fcs))
          (omega (arith, size_of (mgmt_rtg_rsp e) fcs)) ok)
        short)
      refl
zdo_process-event cbs table (mgmt_bind_rsp e) fcs back srsp ok short size =
    rw
      (deliver-made cbs.pfn_zdo_mgmt_bind_rsp mgmt_bind_rsp
        (process_mgmt_bind_rsp table (length (message_of (mgmt_bind_rsp e) fcs))) 0x45 0xb3
        (mgmt_bind_rsp_bytes e) fcs back e
        (process_mgmt_bind_rsp-Reads table e (length (message_of (mgmt_bind_rsp e) fcs)) ok) short)
      refl
zdo_process-event cbs table (mgmt_leave_rsp e) fcs back srsp ok short size =
    rw
      (deliver-made cbs.pfn_zdo_mgmt_leave_rsp mgmt_leave_rsp process_mgmt_leave_rsp 0x45 0xb4
        (mgmt_leave_rsp_bytes e) fcs back e (process_mgmt_leave_rsp-Reads e ok) short)
      refl
zdo_process-event cbs table (mgmt_direct_join_rsp e) fcs back srsp ok short size =
    rw
      (deliver-made cbs.pfn_zdo_mgmt_direct_join_rsp mgmt_direct_join_rsp
        process_mgmt_direct_join_rsp 0x45 0xb5 (mgmt_direct_join_rsp_bytes e) fcs back e
        (process_mgmt_direct_join_rsp-Reads e ok) short)
      refl
zdo_process-event cbs table (mgmt_permit_join_rsp e) fcs back srsp ok short size =
    rw
      (deliver-made cbs.pfn_zdo_mgmt_permit_join_rsp mgmt_permit_join_rsp
        process_mgmt_permit_join_rsp 0x45 0xb6 (mgmt_permit_join_rsp_bytes e) fcs back e
        (process_mgmt_permit_join_rsp-Reads e ok) short)
      refl
zdo_process-event cbs table (end_device_annce_ind e) fcs back srsp ok short size =
    rw
      (deliver-made cbs.pfn_zdo_end_device_annce_ind end_device_annce_ind
        process_end_device_annce_ind 0x45 0xc1 (end_device_annce_ind_bytes e) fcs back e
        (process_end_device_annce_ind-Reads e ok) short)
      refl
zdo_process-event cbs table (match_desc_rsp_sent e) fcs back srsp ok short size =
    rw
      (deliver-made cbs.pfn_zdo_match_desc_rsp_sent match_desc_rsp_sent process_match_desc_rsp_sent
        0x45 0xc2 (match_desc_rsp_sent_bytes e) fcs back e (process_match_desc_rsp_sent-Reads e ok)
        short)
      refl
zdo_process-event cbs table (status_error_rsp e) fcs back srsp ok short size =
    rw
      (deliver-made cbs.pfn_zdo_status_error_rsp status_error_rsp process_status_error_rsp 0x45 0xc3
        (status_error_rsp_bytes e) fcs back e (process_status_error_rsp-Reads e ok) short)
      refl
zdo_process-event cbs table (src_rtg_ind e) fcs back srsp ok short size =
    rw
      (deliver-made cbs.pfn_zdo_src_rtg_ind src_rtg_ind process_src_rtg_ind 0x45 0xc4
        (src_rtg_ind_bytes e) fcs back e (process_src_rtg_ind-Reads e ok) short)
      refl
zdo_process-event cbs table (beacon_notify_ind e) fcs back srsp ok short size =
    rw
      (deliver-made cbs.pfn_zdo_beacon_notify_ind beacon_notify_ind
        (process_beacon_notify_ind (length (message_of (beacon_notify_ind e) fcs))) 0x45 0xc5
        (beacon_notify_ind_bytes e) fcs back e
        (process_beacon_notify_ind-Reads e (length (message_of (beacon_notify_ind e) fcs))
          (omega (arith, size_of (beacon_notify_ind e) fcs)) ok)
        short)
      refl
zdo_process-event cbs table (join_cnf e) fcs back srsp ok short size =
    rw
      (deliver-made cbs.pfn_zdo_join_cnf join_cnf process_join_cnf 0x45 0xc6 (join_cnf_bytes e) fcs
        back e (process_join_cnf-Reads e ok) short)
      refl
zdo_process-event cbs table (nwk_discovery_cnf e) fcs back srsp ok short size =
    rw
      (deliver-made cbs.pfn_zdo_nwk_discovery_cnf nwk_discovery_cnf process_nwk_discovery_cnf 0x45
        0xc7 (nwk_discovery_cnf_bytes e) fcs back e (process_nwk_discovery_cnf-Reads e ok) short)
      refl
zdo_process-event cbs table (leave_ind e) fcs back srsp ok short size =
    rw
      (deliver-made cbs.pfn_zdo_leave_ind leave_ind process_leave_ind 0x45 0xc9 (leave_ind_bytes e)
        fcs back e (process_leave_ind-Reads e ok) short)
      refl
zdo_process-event cbs table (msg_cb_incoming e) fcs back srsp ok short size =
    rw
      (deliver-unread cbs.pfn_zdo_msg_cb_incoming msg_cb_incoming process_msg_cb_incoming 0x45 0xff
        (msg_cb_incoming_front e) e.not_used fcs back e (process_msg_cb_incoming-Reads e ok) short)
      refl

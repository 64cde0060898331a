-- ===== src/Client/Process.antt =====
-- `mtProcess` of framework/mt/mtParser.c on a message of any subsystem, and `rpcWaitMqClientMsg` of
-- framework/rpc/rpc.c on a queue with such a message.
use znp_host_framework.Base.{
  ℕ, ◌+◌, ◌%◌, ◌≤◌, ◌≡◌, refl, List, [], ◌∷◌, ◌++◌, map, length, drop, Bool, true, false,
  if◌then◌else◌, bit_and, arith, length-append,
}
use znp_host_framework.Base.Bytes.{overwrite-append}
use znp_host_framework.Rpc.{Rpc, done}
use znp_host_framework.Rpc.Frame.{Frame, message}
use znp_host_framework.Zdo.Management.Responses.{BindingTableListItemFormat}
use znp_host_framework.Af.Events.{
  AfEvent, data_confirm, incoming_msg, incoming_msg_ext, data_retrieve_srsp, reflect_error,
}
use znp_host_framework.Sapi.Events.{
  SapiEvent, read_configuration_srsp, get_device_info_srsp, find_device_cnf, send_data_cnf,
  receive_data_ind, allow_bind_cnf, bind_cnf, start_cnf,
}
use znp_host_framework.Sys.Events.{
  SysEvent, ping_srsp, get_ext_addr_srsp, ram_read_srsp, reset_ind, version_srsp, osal_nv_read_srsp,
  osal_nv_length_srsp, osal_timer_expired, stack_tune_srsp, adc_read_srsp, gpio_srsp, random_srsp,
  get_time_srsp, set_tx_power_srsp,
}
use znp_host_framework.Zdo.Events.{
  ZdoEvent, state_change_ind, get_link_key_srsp, nwk_addr_rsp, ieee_addr_rsp, node_desc_rsp,
  power_desc_rsp, simple_desc_rsp, active_ep_rsp, match_desc_rsp, complex_desc_rsp, user_desc_rsp,
  user_desc_conf, server_disc_rsp, end_device_bind_rsp, bind_rsp, unbind_rsp, mgmt_nwk_disc_rsp,
  mgmt_lqi_rsp, mgmt_rtg_rsp, mgmt_bind_rsp, mgmt_leave_rsp, mgmt_direct_join_rsp,
  mgmt_permit_join_rsp, end_device_annce_ind, match_desc_rsp_sent, status_error_rsp, src_rtg_ind,
  beacon_notify_ind, join_cnf, nwk_discovery_cnf, leave_ind, msg_cb_incoming,
}
use znp_host_framework.Af
use znp_host_framework.Sapi
use znp_host_framework.Sys
use znp_host_framework.Zdo
use znp_host_framework.Af.Decoding.{af_process-event}
use znp_host_framework.Sapi.Decoding.{sapi_process-event}
use znp_host_framework.Sys.Decoding.{sys_process-event}
use znp_host_framework.Zdo.Decoding.{zdo_process-event}
use znp_host_framework.Mt.Host.{
  MtEvent, af_event, sapi_event, sys_event, zdo_event, MtCallbacks, Host, Env,
}
use znp_host_framework.Mt.Parser.{mt_process}
use znp_host_framework.Mt.Client.{process_message, timed_message, rpc_wait_mq_client_msg}
use znp_host_framework.Client.Messages.{frame_of, IsValid, kept, called}

af_subsystem : (e : AfEvent) → bit_and (Af.Decoding.cmd0_of e) 0x1f ≡ 4
af_subsystem (data_confirm e) = refl
af_subsystem (incoming_msg e) = refl
af_subsystem (incoming_msg_ext e) = refl
af_subsystem (data_retrieve_srsp e) = refl
af_subsystem (reflect_error e) = refl

sapi_subsystem : (e : SapiEvent) → bit_and (Sapi.Decoding.cmd0_of e) 0x1f ≡ 6
sapi_subsystem (read_configuration_srsp e) = refl
sapi_subsystem (get_device_info_srsp e) = refl
sapi_subsystem (find_device_cnf e) = refl
sapi_subsystem (send_data_cnf e) = refl
sapi_subsystem (receive_data_ind e) = refl
sapi_subsystem (allow_bind_cnf e) = refl
sapi_subsystem (bind_cnf e) = refl
sapi_subsystem (start_cnf e) = refl

sys_subsystem : (e : SysEvent) → bit_and (Sys.Decoding.cmd0_of e) 0x1f ≡ 1
sys_subsystem (ping_srsp e) = refl
sys_subsystem (get_ext_addr_srsp e) = refl
sys_subsystem (ram_read_srsp e) = refl
sys_subsystem (reset_ind e) = refl
sys_subsystem (version_srsp e) = refl
sys_subsystem (osal_nv_read_srsp e) = refl
sys_subsystem (osal_nv_length_srsp e) = refl
sys_subsystem (osal_timer_expired e) = refl
sys_subsystem (stack_tune_srsp e) = refl
sys_subsystem (adc_read_srsp e) = refl
sys_subsystem (gpio_srsp e) = refl
sys_subsystem (random_srsp e) = refl
sys_subsystem (get_time_srsp e) = refl
sys_subsystem (set_tx_power_srsp e) = refl

zdo_subsystem : (e : ZdoEvent) → bit_and (Zdo.Messages.cmd0_of e) 0x1f ≡ 5
zdo_subsystem (state_change_ind e) = refl
zdo_subsystem (get_link_key_srsp e) = refl
zdo_subsystem (nwk_addr_rsp e) = refl
zdo_subsystem (ieee_addr_rsp e) = refl
zdo_subsystem (node_desc_rsp e) = refl
zdo_subsystem (power_desc_rsp e) = refl
zdo_subsystem (simple_desc_rsp e) = refl
zdo_subsystem (active_ep_rsp e) = refl
zdo_subsystem (match_desc_rsp e) = refl
zdo_subsystem (complex_desc_rsp e) = refl
zdo_subsystem (user_desc_rsp e) = refl
zdo_subsystem (user_desc_conf e) = refl
zdo_subsystem (server_disc_rsp e) = refl
zdo_subsystem (end_device_bind_rsp e) = refl
zdo_subsystem (bind_rsp e) = refl
zdo_subsystem (unbind_rsp e) = refl
zdo_subsystem (mgmt_nwk_disc_rsp e) = refl
zdo_subsystem (mgmt_lqi_rsp e) = refl
zdo_subsystem (mgmt_rtg_rsp e) = refl
zdo_subsystem (mgmt_bind_rsp e) = refl
zdo_subsystem (mgmt_leave_rsp e) = refl
zdo_subsystem (mgmt_direct_join_rsp e) = refl
zdo_subsystem (mgmt_permit_join_rsp e) = refl
zdo_subsystem (end_device_annce_ind e) = refl
zdo_subsystem (match_desc_rsp_sent e) = refl
zdo_subsystem (status_error_rsp e) = refl
zdo_subsystem (src_rtg_ind e) = refl
zdo_subsystem (beacon_notify_ind e) = refl
zdo_subsystem (join_cnf e) = refl
zdo_subsystem (nwk_discovery_cnf e) = refl
zdo_subsystem (leave_ind e) = refl
zdo_subsystem (msg_cb_incoming e) = refl

map_if :
    {E : Type 0} (f : E → MtEvent) (b : Bool) (e : E)
    → map f (if b then e ∷ [] else []) ≡ (if b then f e ∷ [] else [])
map_if f true e = refl
map_if f false e = refl

-- A message of any subsystem, in a buffer that may hold anything behind it, makes `mtProcess` call
-- the callback of its subsystem and command, if that is registered, with exactly what the message
-- says, and no other; a response is also kept in `srspRpcBuff`. The fields are to be valid for the
-- subsystem and the payload to have at most 252 bytes; `srspRpcBuff` has 256 bytes.
pub mt_process-event :
    (cbs : MtCallbacks) (table : List BindingTableListItemFormat) (e : MtEvent) (fcs : ℕ)
    (back srsp : List ℕ)
    → IsValid table e
    → length (frame_of e).payload ≤ 252
    → length srsp ≡ 256
    → mt_process cbs table
        (message (frame_of e) fcs ++ back)
        (length (message (frame_of e) fcs))
        srsp
      ≡ done (called cbs e, kept e fcs srsp)
unfolding mt_process
mt_process-event cbs table (af_event e) fcs back srsp ok short size =
    rw
      (
        af_subsystem e,
        af_process-event cbs.af e fcs back srsp ok size,
        map_if af_event (Af.Decoding.is_registered cbs.af e) e,
      )
      refl
mt_process-event cbs table (sapi_event e) fcs back srsp ok short size =
    rw
      (
        sapi_subsystem e,
        sapi_process-event cbs.sapi e fcs back srsp ok size,
        map_if sapi_event (Sapi.Decoding.is_registered cbs.sapi e) e,
      )
      refl
mt_process-event cbs table (sys_event e) fcs back srsp ok short size =
    rw
      (
        sys_subsystem e,
        sys_process-event cbs.sys e fcs back srsp ok short size,
        map_if sys_event (Sys.Decoding.is_registered cbs.sys e) e,
      )
      refl
mt_process-event cbs table (zdo_event e) fcs back srsp ok short size =
    rw
      (
        zdo_subsystem e,
        zdo_process-event cbs.zdo table e fcs back srsp ok short size,
        map_if zdo_event (Zdo.Messages.is_registered cbs.zdo e) e,
      )
      refl

-- A message at the front of the queue is taken off and handed to `mtProcess` in the buffer.
pub rpc_wait_mq_client_msg-message :
    (env : Env) (h : Host) (r : Rpc) (g : Frame) (fcs : ℕ) (q : List (List ℕ))
    (events : List MtEvent) (srsp : List ℕ)
    → env.arriving h.rpc ≡ done r
    → r.queue ≡ message g fcs ∷ q
    → length env.frame_junk ≡ 257
    → length g.payload ≤ 252
    → mt_process env.callbacks env.table_junk
        (message g fcs ++ drop (length (message g fcs)) env.frame_junk)
        (length (message g fcs))
        h.srsp_rpc_buff
      ≡ done (events, srsp)
    → rpc_wait_mq_client_msg env h
      ≡ done (
        true,
        record h { rpc = record r { queue = q }; srsp_rpc_buff = srsp; calls = h.calls ++ events },
      )
unfolding rpc_wait_mq_client_msg timed_message process_message
rpc_wait_mq_client_msg-message env h r g fcs q events srsp arrives front room short handled =
    let msg = message g fcs in
    let long : length msg ≡ 3 + length g.payload =
      omega (arith, length-append g.payload (fcs ∷ [])) in
    let byte : length msg % 256 ≡ length msg = omega (arith, long, short) in
    rw
      (
        arrives,
        front,
        overwrite-append [] env.frame_junk msg (omega (arith, long, short, room)),
        byte,
        handled,
      )
      refl

-- A message at the front of the queue when the wait of `rpcWaitMqClientMsg` ends is taken off, the
-- callback for it is called, if it is registered, with exactly what the message says, and a response
-- is kept. The fields are to be valid for the subsystem and the payload to have at most 252 bytes;
-- the buffers have 257 and 256 bytes.
pub rpc_wait_mq_client_msg-event :
    (env : Env) (h : Host) (r : Rpc) (e : MtEvent) (fcs : ℕ) (q : List (List ℕ))
    → env.arriving h.rpc ≡ done r
    → r.queue ≡ message (frame_of e) fcs ∷ q
    → length env.frame_junk ≡ 257
    → IsValid env.table_junk e
    → length (frame_of e).payload ≤ 252
    → length h.srsp_rpc_buff ≡ 256
    → rpc_wait_mq_client_msg env h
      ≡ done (
        true,
        record h {
          rpc = record r { queue = q };
          srsp_rpc_buff = kept e fcs h.srsp_rpc_buff;
          calls = h.calls ++ called env.callbacks e;
        },
      )
rpc_wait_mq_client_msg-event env h r e fcs q arrives front room ok short size =
    let msg = message (frame_of e) fcs in
    rpc_wait_mq_client_msg-message env h r (frame_of e) fcs q (called env.callbacks e)
      (kept e fcs h.srsp_rpc_buff) arrives front room short
      (mt_process-event env.callbacks env.table_junk e fcs (drop (length msg) env.frame_junk)
        h.srsp_rpc_buff ok short size)

-- ===== src/Mt/Sample.antt =====
-- Surroundings for the tests of the subsystems: memory is always there, the response comes in time,
-- and nothing else happens.
use znp_host_framework.Base.{ℕ, true, ◌+◌, ◌≡◌, Option, some, List, [], replicate, length-replicate}
use znp_host_framework.Rpc.{Rpc, done}
use znp_host_framework.Mt.Host.{Host, Env, MtCallbacks}
use znp_host_framework.Mt.Call.{IsAllocator}

abbrev pub memory_of : ℕ → Option (List ℕ)
memory_of n = some (replicate n 0xcd)

some_inj : (xs ys : List ℕ) → some xs ≡ some ys → xs ≡ ys
some_inj xs ys e = cc

pub memory_of-IsAllocator : IsAllocator memory_of
memory_of-IsAllocator n block e =
    rw (← some_inj (replicate n 0xcd) block e) (length-replicate n 0xcd)

-- Every callback is registered.
abbrev pub everything : MtCallbacks
everything = record {
  af = record {
    pfn_data_confirm = true;
    pfn_incoming_msg = true;
    pfn_incoming_msg_ext = true;
    pfn_data_retrieve_srsp = true;
    pfn_reflect_error = true;
  };
  sapi = record {
    pfn_read_configuration_srsp = true;
    pfn_get_device_info_srsp = true;
    pfn_find_device_cnf = true;
    pfn_send_data_cnf = true;
    pfn_receive_data_ind = true;
    pfn_allow_bind_cnf = true;
    pfn_bind_cnf = true;
    pfn_start_cnf = true;
  };
  sys = record {
    pfn_sys_ping_srsp = true;
    pfn_sys_get_ext_addr_srsp = true;
    pfn_sys_ram_read_srsp = true;
    pfn_sys_reset_ind = true;
    pfn_sys_version_srsp = true;
    pfn_sys_osal_nv_read_srsp = true;
    pfn_sys_osal_nv_length_srsp = true;
    pfn_sys_osal_timer_expired = true;
    pfn_sys_stack_tune_srsp = true;
    pfn_sys_adc_read_srsp = true;
    pfn_sys_gpio_srsp = true;
    pfn_sys_random_srsp = true;
    pfn_sys_get_time_srsp = true;
    pfn_sys_set_tx_power_srsp = true;
  };
  zdo = record {
    pfn_zdo_nwk_addr_rsp = true;
    pfn_zdo_ieee_addr_rsp = true;
    pfn_zdo_node_desc_rsp = true;
    pfn_zdo_power_desc_rsp = true;
    pfn_zdo_simple_desc_rsp = true;
    pfn_zdo_active_ep_rsp = true;
    pfn_zdo_match_desc_rsp = true;
    pfn_zdo_complex_desc_rsp = true;
    pfn_zdo_user_desc_rsp = true;
    pfn_zdo_user_desc_conf = true;
    pfn_zdo_server_disc_rsp = true;
    pfn_zdo_end_device_bind_rsp = true;
    pfn_zdo_bind_rsp = true;
    pfn_zdo_unbind_rsp = true;
    pfn_zdo_mgmt_nwk_disc_rsp = true;
    pfn_zdo_mgmt_lqi_rsp = true;
    pfn_zdo_mgmt_rtg_rsp = true;
    pfn_zdo_mgmt_bind_rsp = true;
    pfn_zdo_mgmt_leave_rsp = true;
    pfn_zdo_mgmt_direct_join_rsp = true;
    pfn_zdo_mgmt_permit_join_rsp = true;
    pfnmt_zdo_state_change_ind = true;
    pfn_zdo_end_device_annce_ind = true;
    pfn_zdo_src_rtg_ind = true;
    pfn_zdo_beacon_notify_ind = true;
    pfn_zdo_join_cnf = true;
    pfn_zdo_nwk_discovery_cnf = true;
    pfn_zdo_concentrator_ind = true;
    pfn_zdo_leave_ind = true;
    pfn_zdo_status_error_rsp = true;
    pfn_zdo_match_desc_rsp_sent = true;
    pfn_zdo_msg_cb_incoming = true;
    pfn_zdo_get_link_key = true;
  };
}

abbrev pub quiet : Env
quiet = record {
  junk = replicate 256 0xaa;
  waiting = λ r. done (record r { srsp_sem = r.srsp_sem + 1 });
  leaving = λ r. done r;
  malloc = memory_of;
  arriving = λ r. done r;
  frame_junk = replicate 257 0xbb;
  table_junk = [];
  callbacks = everything;
}

abbrev pub idle_rpc : Rpc
idle_rpc = record {
  rpc_sem = 1;
  srsp_sem = 0;
  expected = 0xff;
  queue = [];
  port = record { input = []; schedule = []; output = [] };
}

abbrev pub idle : Host
idle = record { rpc = idle_rpc; srsp_rpc_buff = replicate 256 0; calls = [] }

-- ===== src/Af/Requests.antt =====
-- The request functions of framework/mt/Af/mtAf.c, each with its length and the statements that
-- fill the command buffer.
use znp_host_framework.Base.{ℕ, ◌+◌, ◌*◌, [], ◌∷◌}
use znp_host_framework.Base.Bytes.{lo_byte, hi_byte}
use znp_host_framework.Rpc.{Outcome, ◌>>=◌, mt_rpc_cmd_sreq, mt_rpc_sys_af}
use znp_host_framework.Mt.Writer.{puts, put_array, put_words, put_copy}
use znp_host_framework.Mt.Host.{Host, Env}
use znp_host_framework.Mt.Call.{mt_finish, mt_request}
use znp_host_framework.Af.Formats.{
  RegisterFormat, DataRequestFormat, DataRequestExtFormat, DataRequestSrcRtgFormat,
  InterPanCtlFormat, DataStoreFormat, DataRetrieveFormat, ApsfConfigSetFormat,
}

-- `MT_RPC_CMD_SREQ | MT_RPC_SYS_AF`; the two have no bit in common
abbrev pub af_sreq : ℕ
af_sreq = mt_rpc_cmd_sreq + mt_rpc_sys_af

unfoldable pub af_register : Env → RegisterFormat → Host → Outcome (ℕ × Host)
af_register env req r =
    mt_request env (mt_finish env) af_sreq 0x00
      (9 + req.app_num_in_clusters * 2 + req.app_num_out_clusters * 2)
      (λ c.
        puts
          (req.end_point
            ∷ lo_byte req.app_prof_id
            ∷ hi_byte req.app_prof_id
            ∷ lo_byte req.app_device_id
            ∷ hi_byte req.app_device_id
            ∷ req.app_dev_ver
            ∷ req.latency_req
            ∷ req.app_num_in_clusters
            ∷ [])
          c
        >>= λ c. put_words req.app_num_in_clusters 0 req.app_in_cluster_list c >>= λ c.
            puts (req.app_num_out_clusters ∷ []) c >>= λ c.
            put_words req.app_num_out_clusters 0 req.app_out_cluster_list c)
      r

unfoldable pub af_data_request : Env → DataRequestFormat → Host → Outcome (ℕ × Host)
af_data_request env req r =
    mt_request env (mt_finish env) af_sreq 0x01 (10 + req.len)
      (λ c.
        puts
          (lo_byte req.dst_addr
            ∷ hi_byte req.dst_addr
            ∷ req.dst_endpoint
            ∷ req.src_endpoint
            ∷ lo_byte req.cluster_id
            ∷ hi_byte req.cluster_id
            ∷ req.trans_id
            ∷ req.options
            ∷ req.radius
            ∷ req.len
            ∷ [])
          c
        >>= λ c. put_array req.len 0 req.bytes c)
      r

unfoldable pub af_data_request_ext : Env → DataRequestExtFormat → Host → Outcome (ℕ × Host)
af_data_request_ext env req r =
    mt_request env (mt_finish env) af_sreq 0x02 (20 + req.len)
      (λ c. puts (req.dst_addr_mode ∷ []) c >>= λ c. put_copy 8 req.dst_addr c >>= λ c.
        puts
          (req.dst_endpoint
            ∷ lo_byte req.dst_pan_id
            ∷ hi_byte req.dst_pan_id
            ∷ req.src_endpoint
            ∷ lo_byte req.cluster_id
            ∷ hi_byte req.cluster_id
            ∷ req.trans_id
            ∷ req.options
            ∷ req.radius
            ∷ lo_byte req.len
            ∷ hi_byte req.len
            ∷ [])
          c
        >>= λ c. put_array req.len 0 req.bytes c)
      r

unfoldable pub af_data_request_src_rtg : Env → DataRequestSrcRtgFormat → Host → Outcome (ℕ × Host)
af_data_request_src_rtg env req r =
    mt_request env (mt_finish env) af_sreq 0x03 (11 + req.relay_count * 2 + req.len)
      (λ c.
        puts
          (lo_byte req.dst_addr
            ∷ hi_byte req.dst_addr
            ∷ req.dst_endpoint
            ∷ req.src_endpoint
            ∷ lo_byte req.cluster_id
            ∷ hi_byte req.cluster_id
            ∷ req.trans_id
            ∷ req.options
            ∷ req.radius
            ∷ req.relay_count
            ∷ [])
          c
        >>= λ c. put_words req.relay_count 0 req.relay_list c >>= λ c.
            puts (req.len ∷ []) c >>= λ c. put_array req.len 0 req.bytes c)
      r

-- The number of bytes is the field `Command`, as in the source.
unfoldable pub af_inter_pan_ctl : Env → InterPanCtlFormat → Host → Outcome (ℕ × Host)
af_inter_pan_ctl env req r =
    mt_request env (mt_finish env) af_sreq 0x10 (1 + req.command)
      (λ c. puts (req.command ∷ []) c >>= λ c. put_array req.command 0 req.bytes c) r

unfoldable pub af_data_store : Env → DataStoreFormat → Host → Outcome (ℕ × Host)
af_data_store env req r =
    mt_request env (mt_finish env) af_sreq 0x11 (3 + req.len)
      (λ c. puts (lo_byte req.index ∷ hi_byte req.index ∷ req.len ∷ []) c >>= λ c.
        put_array req.len 0 req.bytes c)
      r

unfoldable pub af_data_retrieve : Env → DataRetrieveFormat → Host → Outcome (ℕ × Host)
af_data_retrieve env req r =
    mt_request env (mt_finish env) af_sreq 0x12 7
      (λ c. put_copy 4 req.time_stamp c >>= λ c.
        puts (lo_byte req.index ∷ hi_byte req.index ∷ req.len ∷ []) c)
      r

unfoldable pub af_apsf_config_set : Env → ApsfConfigSetFormat → Host → Outcome (ℕ × Host)
af_apsf_config_set env req r =
    mt_request env (mt_finish env) af_sreq 0x13 3
      (λ c. puts (req.endpoint ∷ req.frame_delay ∷ req.window_size ∷ []) c) r

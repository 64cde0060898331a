-- ===== src/Zdo/Management/Requests.antt =====
-- The request functions of framework/mt/Zdo/mtZdo.c about the management of a network, each with its
-- length and the statements that fill the command buffer.
use znp_host_framework.Base.{ℕ, [], ◌∷◌}
use znp_host_framework.Base.Bytes.{lo_byte, hi_byte}
use znp_host_framework.Rpc.{Outcome, ◌>>=◌}
use znp_host_framework.Mt.Writer.{puts, put_copy}
use znp_host_framework.Mt.Host.{Host, Env}
use znp_host_framework.Mt.Call.{mt_request, zdo_finish}
use znp_host_framework.Zdo.Management.Formats.{
  MgmtNwkDiscReqFormat, MgmtLqiReqFormat, MgmtRtgReqFormat, MgmtBindReqFormat, MgmtLeaveReqFormat,
  MgmtDirectJoinReqFormat, MgmtPermitJoinReqFormat, MgmtNwkUpdateReqFormat,
}
use znp_host_framework.Zdo.Requests.{zdo_sreq}

unfoldable pub zdo_mgmt_nwk_disc_req : Env → MgmtNwkDiscReqFormat → Host → Outcome (ℕ × Host)
zdo_mgmt_nwk_disc_req env req h =
    mt_request env (zdo_finish env) zdo_sreq 0x30 (8)
      (λ c. puts (lo_byte req.dst_addr ∷ hi_byte req.dst_addr ∷ []) c >>= λ c.
        put_copy 4 req.scan_channels c >>= λ c. puts (req.scan_duration ∷ req.start_index ∷ []) c)
      h

unfoldable pub zdo_mgmt_lqi_req : Env → MgmtLqiReqFormat → Host → Outcome (ℕ × Host)
zdo_mgmt_lqi_req env req h =
    mt_request env (zdo_finish env) zdo_sreq 0x31 (3)
      (λ c. puts (lo_byte req.dst_addr ∷ hi_byte req.dst_addr ∷ req.start_index ∷ []) c) h

unfoldable pub zdo_mgmt_rtg_req : Env → MgmtRtgReqFormat → Host → Outcome (ℕ × Host)
zdo_mgmt_rtg_req env req h =
    mt_request env (zdo_finish env) zdo_sreq 0x32 (3)
      (λ c. puts (lo_byte req.dst_addr ∷ hi_byte req.dst_addr ∷ req.start_index ∷ []) c) h

unfoldable pub zdo_mgmt_bind_req : Env → MgmtBindReqFormat → Host → Outcome (ℕ × Host)
zdo_mgmt_bind_req env req h =
    mt_request env (zdo_finish env) zdo_sreq 0x33 (3)
      (λ c. puts (lo_byte req.dst_addr ∷ hi_byte req.dst_addr ∷ req.start_index ∷ []) c) h

unfoldable pub zdo_mgmt_leave_req : Env → MgmtLeaveReqFormat → Host → Outcome (ℕ × Host)
zdo_mgmt_leave_req env req h =
    mt_request env (zdo_finish env) zdo_sreq 0x34 (11)
      (λ c. puts (lo_byte req.dst_addr ∷ hi_byte req.dst_addr ∷ []) c >>= λ c.
        put_copy 8 req.device_addr c >>= λ c. puts (req.remove_childre_rejoin ∷ []) c)
      h

unfoldable pub zdo_mgmt_direct_join_req : Env → MgmtDirectJoinReqFormat → Host → Outcome (ℕ × Host)
zdo_mgmt_direct_join_req env req h =
    mt_request env (zdo_finish env) zdo_sreq 0x35 (11)
      (λ c. puts (lo_byte req.dst_addr ∷ hi_byte req.dst_addr ∷ []) c >>= λ c.
        put_copy 8 req.device_addr c >>= λ c. puts (req.cap_info ∷ []) c)
      h

unfoldable pub zdo_mgmt_permit_join_req : Env → MgmtPermitJoinReqFormat → Host → Outcome (ℕ × Host)
zdo_mgmt_permit_join_req env req h =
    mt_request env (zdo_finish env) zdo_sreq 0x36 (5)
      (λ c.
        puts
          (req.addr_mode
            ∷ lo_byte req.dst_addr
            ∷ hi_byte req.dst_addr
            ∷ req.duration
            ∷ req.tc_significance
            ∷ [])
          c)
      h

unfoldable pub zdo_mgmt_nwk_update_req : Env → MgmtNwkUpdateReqFormat → Host → Outcome (ℕ × Host)
zdo_mgmt_nwk_update_req env req h =
    mt_request env (zdo_finish env) zdo_sreq 0x37 (11)
      (λ c. puts (lo_byte req.dst_addr ∷ hi_byte req.dst_addr ∷ req.dst_addr_mode ∷ []) c >>= λ c.
        put_copy 4 req.channel_mask c >>= λ c.
        puts
          (req.scan_duration
            ∷ req.scan_count
            ∷ lo_byte req.nwk_manager_addr
            ∷ hi_byte req.nwk_manager_addr
            ∷ [])
          c)
      h

-- ===== src/Zdo/Management/Payloads.antt =====
-- What the request functions of framework/mt/Zdo/mtZdo.c about the management of a network send: the
-- payload by the format, and that the function for it sends exactly this.
use znp_host_framework.Base.{ℕ, ◌≡◌, List, [], ◌∷◌, ◌++◌, length, arith}
use znp_host_framework.Base.Bytes.{lo_byte, hi_byte}
use znp_host_framework.Mt.Host.{Host, Env}
use znp_host_framework.Mt.Call.{IsAllocator, transmit, zdo_finish}
use znp_host_framework.Mt.Fills.{puts-Fills, then-Fills, put_copy-Fills, request-Fills}
use znp_host_framework.Zdo.Management.Formats.{
  MgmtNwkDiscReqFormat, MgmtLqiReqFormat, MgmtRtgReqFormat, MgmtBindReqFormat, MgmtLeaveReqFormat,
  MgmtDirectJoinReqFormat, MgmtPermitJoinReqFormat, MgmtNwkUpdateReqFormat,
}
use znp_host_framework.Zdo.Requests.{zdo_sreq}
use znp_host_framework.Zdo.Management.Requests.{
  zdo_mgmt_nwk_disc_req, zdo_mgmt_lqi_req, zdo_mgmt_rtg_req, zdo_mgmt_bind_req, zdo_mgmt_leave_req,
  zdo_mgmt_direct_join_req, zdo_mgmt_permit_join_req, zdo_mgmt_nwk_update_req,
}

abbrev pub mgmt_nwk_disc_req_bytes : MgmtNwkDiscReqFormat → List ℕ
mgmt_nwk_disc_req_bytes req =
    lo_byte req.dst_addr
    ∷ hi_byte req.dst_addr
    ∷ (req.scan_channels ++ (req.scan_duration ∷ req.start_index ∷ []))

abbrev pub IsMgmtNwkDiscReq : MgmtNwkDiscReqFormat → Type 0
IsMgmtNwkDiscReq req = length req.scan_channels ≡ 4

pub zdo_mgmt_nwk_disc_req-transmit :
    (env : Env) (req : MgmtNwkDiscReqFormat) (h : Host)
    → IsAllocator env.malloc
    → IsMgmtNwkDiscReq req
    → zdo_mgmt_nwk_disc_req env req h
      ≡ transmit env
          (zdo_finish env)
          zdo_sreq
          0x30
          (mgmt_nwk_disc_req_bytes req)
          h
          (env.malloc (length (mgmt_nwk_disc_req_bytes req)))
unfolding zdo_mgmt_nwk_disc_req
zdo_mgmt_nwk_disc_req-transmit env req h allocates h_scan_channels =
    request-Fills env (zdo_finish env) zdo_sreq 0x30 (8) _ (mgmt_nwk_disc_req_bytes req) _ h
      allocates
      (then-Fills _ _ _ _ _ _ (puts-Fills _) (
        then-Fills _ _ _ _ _ _ (put_copy-Fills 4 req.scan_channels h_scan_channels (omega arith))
          (puts-Fills _)))
      (omega arith) (omega arith)

abbrev pub mgmt_lqi_req_bytes : MgmtLqiReqFormat → List ℕ
mgmt_lqi_req_bytes req = lo_byte req.dst_addr ∷ hi_byte req.dst_addr ∷ req.start_index ∷ []

abbrev pub IsMgmtLqiReq : MgmtLqiReqFormat → Type 0
IsMgmtLqiReq req = Unit {0}

pub zdo_mgmt_lqi_req-transmit :
    (env : Env) (req : MgmtLqiReqFormat) (h : Host)
    → IsAllocator env.malloc
    → IsMgmtLqiReq req
    → zdo_mgmt_lqi_req env req h
      ≡ transmit env
          (zdo_finish env)
          zdo_sreq
          0x31
          (mgmt_lqi_req_bytes req)
          h
          (env.malloc (length (mgmt_lqi_req_bytes req)))
unfolding zdo_mgmt_lqi_req
zdo_mgmt_lqi_req-transmit env req h allocates ok =
    request-Fills env (zdo_finish env) zdo_sreq 0x31 (3) _ (mgmt_lqi_req_bytes req) _ h allocates
      (puts-Fills _) (omega arith) (omega arith)

abbrev pub mgmt_rtg_req_bytes : MgmtRtgReqFormat → List ℕ
mgmt_rtg_req_bytes req = lo_byte req.dst_addr ∷ hi_byte req.dst_addr ∷ req.start_index ∷ []

abbrev pub IsMgmtRtgReq : MgmtRtgReqFormat → Type 0
IsMgmtRtgReq req = Unit {0}

pub zdo_mgmt_rtg_req-transmit :
    (env : Env) (req : MgmtRtgReqFormat) (h : Host)
    → IsAllocator env.malloc
    → IsMgmtRtgReq req
    → zdo_mgmt_rtg_req env req h
      ≡ transmit env
          (zdo_finish env)
          zdo_sreq
          0x32
          (mgmt_rtg_req_bytes req)
          h
          (env.malloc (length (mgmt_rtg_req_bytes req)))
unfolding zdo_mgmt_rtg_req
zdo_mgmt_rtg_req-transmit env req h allocates ok =
    request-Fills env (zdo_finish env) zdo_sreq 0x32 (3) _ (mgmt_rtg_req_bytes req) _ h allocates
      (puts-Fills _) (omega arith) (omega arith)

abbrev pub mgmt_bind_req_bytes : MgmtBindReqFormat → List ℕ
mgmt_bind_req_bytes req = lo_byte req.dst_addr ∷ hi_byte req.dst_addr ∷ req.start_index ∷ []

abbrev pub IsMgmtBindReq : MgmtBindReqFormat → Type 0
IsMgmtBindReq req = Unit {0}

pub zdo_mgmt_bind_req-transmit :
    (env : Env) (req : MgmtBindReqFormat) (h : Host)
    → IsAllocator env.malloc
    → IsMgmtBindReq req
    → zdo_mgmt_bind_req env req h
      ≡ transmit env
          (zdo_finish env)
          zdo_sreq
          0x33
          (mgmt_bind_req_bytes req)
          h
          (env.malloc (length (mgmt_bind_req_bytes req)))
unfolding zdo_mgmt_bind_req
zdo_mgmt_bind_req-transmit env req h allocates ok =
    request-Fills env (zdo_finish env) zdo_sreq 0x33 (3) _ (mgmt_bind_req_bytes req) _ h allocates
      (puts-Fills _) (omega arith) (omega arith)

abbrev pub mgmt_leave_req_bytes : MgmtLeaveReqFormat → List ℕ
mgmt_leave_req_bytes req =
    lo_byte req.dst_addr
    ∷ hi_byte req.dst_addr
    ∷ (req.device_addr ++ (req.remove_childre_rejoin ∷ []))

abbrev pub IsMgmtLeaveReq : MgmtLeaveReqFormat → Type 0
IsMgmtLeaveReq req = length req.device_addr ≡ 8

pub zdo_mgmt_leave_req-transmit :
    (env : Env) (req : MgmtLeaveReqFormat) (h : Host)
    → IsAllocator env.malloc
    → IsMgmtLeaveReq req
    → zdo_mgmt_leave_req env req h
      ≡ transmit env
          (zdo_finish env)
          zdo_sreq
          0x34
          (mgmt_leave_req_bytes req)
          h
          (env.malloc (length (mgmt_leave_req_bytes req)))
unfolding zdo_mgmt_leave_req
zdo_mgmt_leave_req-transmit env req h allocates h_device_addr =
    request-Fills env (zdo_finish env) zdo_sreq 0x34 (11) _ (mgmt_leave_req_bytes req) _ h allocates
      (then-Fills _ _ _ _ _ _ (puts-Fills _) (
        then-Fills _ _ _ _ _ _ (put_copy-Fills 8 req.device_addr h_device_addr (omega arith))
          (puts-Fills _)))
      (omega arith) (omega arith)

abbrev pub mgmt_direct_join_req_bytes : MgmtDirectJoinReqFormat → List ℕ
mgmt_direct_join_req_bytes req =
    lo_byte req.dst_addr ∷ hi_byte req.dst_addr ∷ (req.device_addr ++ (req.cap_info ∷ []))

abbrev pub IsMgmtDirectJoinReq : MgmtDirectJoinReqFormat → Type 0
IsMgmtDirectJoinReq req = length req.device_addr ≡ 8

pub zdo_mgmt_direct_join_req-transmit :
    (env : Env) (req : MgmtDirectJoinReqFormat) (h : Host)
    → IsAllocator env.malloc
    → IsMgmtDirectJoinReq req
    → zdo_mgmt_direct_join_req env req h
      ≡ transmit env
          (zdo_finish env)
          zdo_sreq
          0x35
          (mgmt_direct_join_req_bytes req)
          h
          (env.malloc (length (mgmt_direct_join_req_bytes req)))
unfolding zdo_mgmt_direct_join_req
zdo_mgmt_direct_join_req-transmit env req h allocates h_device_addr =
    request-Fills env (zdo_finish env) zdo_sreq 0x35 (11) _ (mgmt_direct_join_req_bytes req) _ h
      allocates
      (then-Fills _ _ _ _ _ _ (puts-Fills _) (
        then-Fills _ _ _ _ _ _ (put_copy-Fills 8 req.device_addr h_device_addr (omega arith))
          (puts-Fills _)))
      (omega arith) (omega arith)

abbrev pub mgmt_permit_join_req_bytes : MgmtPermitJoinReqFormat → List ℕ
mgmt_permit_join_req_bytes req =
    req.addr_mode
    ∷ lo_byte req.dst_addr
    ∷ hi_byte req.dst_addr
    ∷ req.duration
    ∷ req.tc_significance
    ∷ []

abbrev pub IsMgmtPermitJoinReq : MgmtPermitJoinReqFormat → Type 0
IsMgmtPermitJoinReq req = Unit {0}

pub zdo_mgmt_permit_join_req-transmit :
    (env : Env) (req : MgmtPermitJoinReqFormat) (h : Host)
    → IsAllocator env.malloc
    → IsMgmtPermitJoinReq req
    → zdo_mgmt_permit_join_req env req h
      ≡ transmit env
          (zdo_finish env)
          zdo_sreq
          0x36
          (mgmt_permit_join_req_bytes req)
          h
          (env.malloc (length (mgmt_permit_join_req_bytes req)))
unfolding zdo_mgmt_permit_join_req
zdo_mgmt_permit_join_req-transmit env req h allocates ok =
    request-Fills env (zdo_finish env) zdo_sreq 0x36 (5) _ (mgmt_permit_join_req_bytes req) _ h
      allocates (puts-Fills _) (omega arith) (omega arith)

abbrev pub mgmt_nwk_update_req_bytes : MgmtNwkUpdateReqFormat → List ℕ
mgmt_nwk_update_req_bytes req =
    lo_byte req.dst_addr
    ∷ hi_byte req.dst_addr
    ∷ req.dst_addr_mode
    ∷ (req.channel_mask
        ++ (req.scan_duration
            ∷ req.scan_count
            ∷ lo_byte req.nwk_manager_addr
            ∷ hi_byte req.nwk_manager_addr
            ∷ []))

abbrev pub IsMgmtNwkUpdateReq : MgmtNwkUpdateReqFormat → Type 0
IsMgmtNwkUpdateReq req = length req.channel_mask ≡ 4

pub zdo_mgmt_nwk_update_req-transmit :
    (env : Env) (req : MgmtNwkUpdateReqFormat) (h : Host)
    → IsAllocator env.malloc
    → IsMgmtNwkUpdateReq req
    → zdo_mgmt_nwk_update_req env req h
      ≡ transmit env
          (zdo_finish env)
          zdo_sreq
          0x37
          (mgmt_nwk_update_req_bytes req)
          h
          (env.malloc (length (mgmt_nwk_update_req_bytes req)))
unfolding zdo_mgmt_nwk_update_req
zdo_mgmt_nwk_update_req-transmit env req h allocates h_channel_mask =
    request-Fills env (zdo_finish env) zdo_sreq 0x37 (11) _ (mgmt_nwk_update_req_bytes req) _ h
      allocates
      (then-Fills _ _ _ _ _ _ (puts-Fills _) (
        then-Fills _ _ _ _ _ _ (put_copy-Fills 4 req.channel_mask h_channel_mask (omega arith))
          (puts-Fills _)))
      (omega arith) (omega arith)

-- ===== src/Zdo/Address/Payloads.antt =====
-- What the request functions of framework/mt/Zdo/mtZdo.c about the addresses and endpoints of devices send: the
-- payload by the format, and that the function for it sends exactly this.
use znp_host_framework.Base.{ℕ, ◌≡◌, List, [], ◌∷◌, ◌++◌, length, arith}
use znp_host_framework.Base.Bytes.{lo_byte, hi_byte}
use znp_host_framework.Mt.Host.{Host, Env}
use znp_host_framework.Mt.Call.{IsAllocator, transmit, zdo_finish}
use znp_host_framework.Mt.Fills.{puts-Fills, then-Fills, put_copy-Fills, request-Fills}
use znp_host_framework.Zdo.Address.Formats.{
  NwkAddrReqFormat, IeeeAddrReqFormat, ActiveEpReqFormat, ServerDiscReqFormat, DeviceAnnceFormat,
}
use znp_host_framework.Zdo.Requests.{zdo_sreq}
use znp_host_framework.Zdo.Address.Requests.{
  zdo_nwk_addr_req, zdo_ieee_addr_req, zdo_active_ep_req, zdo_server_disc_req, zdo_device_annce,
}

abbrev pub nwk_addr_req_bytes : NwkAddrReqFormat → List ℕ
nwk_addr_req_bytes req = (req.ieee_address ++ (req.req_type ∷ req.start_index ∷ []))

abbrev pub IsNwkAddrReq : NwkAddrReqFormat → Type 0
IsNwkAddrReq req = length req.ieee_address ≡ 8

pub zdo_nwk_addr_req-transmit :
    (env : Env) (req : NwkAddrReqFormat) (h : Host)
    → IsAllocator env.malloc
    → IsNwkAddrReq req
    → zdo_nwk_addr_req env req h
      ≡ transmit env
          (zdo_finish env)
          zdo_sreq
          0x00
          (nwk_addr_req_bytes req)
          h
          (env.malloc (length (nwk_addr_req_bytes req)))
unfolding zdo_nwk_addr_req
zdo_nwk_addr_req-transmit env req h allocates h_ieee_address =
    request-Fills env (zdo_finish env) zdo_sreq 0x00 (10) _ (nwk_addr_req_bytes req) _ h allocates
      (then-Fills _ _ _ _ _ _ (put_copy-Fills 8 req.ieee_address h_ieee_address (omega arith))
        (puts-Fills _))
      (omega arith) (omega arith)

abbrev pub ieee_addr_req_bytes : IeeeAddrReqFormat → List ℕ
ieee_addr_req_bytes req =
    lo_byte req.short_addr ∷ hi_byte req.short_addr ∷ req.req_type ∷ req.start_index ∷ []

abbrev pub IsIeeeAddrReq : IeeeAddrReqFormat → Type 0
IsIeeeAddrReq req = Unit {0}

pub zdo_ieee_addr_req-transmit :
    (env : Env) (req : IeeeAddrReqFormat) (h : Host)
    → IsAllocator env.malloc
    → IsIeeeAddrReq req
    → zdo_ieee_addr_req env req h
      ≡ transmit env
          (zdo_finish env)
          zdo_sreq
          0x01
          (ieee_addr_req_bytes req)
          h
          (env.malloc (length (ieee_addr_req_bytes req)))
unfolding zdo_ieee_addr_req
zdo_ieee_addr_req-transmit env req h allocates ok =
    request-Fills env (zdo_finish env) zdo_sreq 0x01 (4) _ (ieee_addr_req_bytes req) _ h allocates
      (puts-Fills _) (omega arith) (omega arith)

abbrev pub active_ep_req_bytes : ActiveEpReqFormat → List ℕ
active_ep_req_bytes req =
    lo_byte req.dst_addr
    ∷ hi_byte req.dst_addr
    ∷ lo_byte req.nwk_addr_of_interest
    ∷ hi_byte req.nwk_addr_of_interest
    ∷ []

abbrev pub IsActiveEpReq : ActiveEpReqFormat → Type 0
IsActiveEpReq req = Unit {0}

pub zdo_active_ep_req-transmit :
    (env : Env) (req : ActiveEpReqFormat) (h : Host)
    → IsAllocator env.malloc
    → IsActiveEpReq req
    → zdo_active_ep_req env req h
      ≡ transmit env
          (zdo_finish env)
          zdo_sreq
          0x05
          (active_ep_req_bytes req)
          h
          (env.malloc (length (active_ep_req_bytes req)))
unfolding zdo_active_ep_req
zdo_active_ep_req-transmit env req h allocates ok =
    request-Fills env (zdo_finish env) zdo_sreq 0x05 (4) _ (active_ep_req_bytes req) _ h allocates
      (puts-Fills _) (omega arith) (omega arith)

abbrev pub server_disc_req_bytes : ServerDiscReqFormat → List ℕ
server_disc_req_bytes req = lo_byte req.server_mask ∷ hi_byte req.server_mask ∷ []

abbrev pub IsServerDiscReq : ServerDiscReqFormat → Type 0
IsServerDiscReq req = Unit {0}

pub zdo_server_disc_req-transmit :
    (env : Env) (req : ServerDiscReqFormat) (h : Host)
    → IsAllocator env.malloc
    → IsServerDiscReq req
    → zdo_server_disc_req env req h
      ≡ transmit env
          (zdo_finish env)
          zdo_sreq
          0x0c
          (server_disc_req_bytes req)
          h
          (env.malloc (length (server_disc_req_bytes req)))
unfolding zdo_server_disc_req
zdo_server_disc_req-transmit env req h allocates ok =
    request-Fills env (zdo_finish env) zdo_sreq 0x0c (2) _ (server_disc_req_bytes req) _ h allocates
      (puts-Fills _) (omega arith) (omega arith)

abbrev pub device_annce_bytes : DeviceAnnceFormat → List ℕ
device_annce_bytes req =
    lo_byte req.nwk_addr ∷ hi_byte req.nwk_addr ∷ (req.ieee_addr ++ (req.capabilities ∷ []))

abbrev pub IsDeviceAnnce : DeviceAnnceFormat → Type 0
IsDeviceAnnce req = length req.ieee_addr ≡ 8

pub zdo_device_annce-transmit :
    (env : Env) (req : DeviceAnnceFormat) (h : Host)
    → IsAllocator env.malloc
    → IsDeviceAnnce req
    → zdo_device_annce env req h
      ≡ transmit env
          (zdo_finish env)
          zdo_sreq
          0x0a
          (device_annce_bytes req)
          h
          (env.malloc (length (device_annce_bytes req)))
unfolding zdo_device_annce
zdo_device_annce-transmit env req h allocates h_ieee_addr =
    request-Fills env (zdo_finish env) zdo_sreq 0x0a (11) _ (device_annce_bytes req) _ h allocates
      (then-Fills _ _ _ _ _ _ (puts-Fills _) (
        then-Fills _ _ _ _ _ _ (put_copy-Fills 8 req.ieee_addr h_ieee_addr (omega arith))
          (puts-Fills _)))
      (omega arith) (omega arith)

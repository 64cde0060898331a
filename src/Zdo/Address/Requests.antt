-- ===== src/Zdo/Address/Requests.antt =====
-- The request functions of framework/mt/Zdo/mtZdo.c about the addresses and endpoints of devices, each with its
-- length and the statements that fill the command buffer.
use znp_host_framework.Base.{ℕ, [], ◌∷◌}
use znp_host_framework.Base.Bytes.{lo_byte, hi_byte}
use znp_host_framework.Rpc.{Outcome, ◌>>=◌}
use znp_host_framework.Mt.Writer.{puts, put_copy}
use znp_host_framework.Mt.Host.{Host, Env}
use znp_host_framework.Mt.Call.{mt_request, zdo_finish}
use znp_host_framework.Zdo.Address.Formats.{
  NwkAddrReqFormat, IeeeAddrReqFormat, ActiveEpReqFormat, ServerDiscReqFormat, DeviceAnnceFormat,
}
use znp_host_framework.Zdo.Requests.{zdo_sreq}

unfoldable pub zdo_nwk_addr_req : Env → NwkAddrReqFormat → Host → Outcome (ℕ × Host)
zdo_nwk_addr_req env req h =
    mt_request env (zdo_finish env) zdo_sreq 0x00 (10)
      (λ c. put_copy 8 req.ieee_address c >>= λ c. puts (req.req_type ∷ req.start_index ∷ []) c) h

unfoldable pub zdo_ieee_addr_req : Env → IeeeAddrReqFormat → Host → Outcome (ℕ × Host)
zdo_ieee_addr_req env req h =
    mt_request env (zdo_finish env) zdo_sreq 0x01 (4)
      (λ c.
        puts (lo_byte req.short_addr ∷ hi_byte req.short_addr ∷ req.req_type ∷ req.start_index ∷ [])
          c)
      h

unfoldable pub zdo_active_ep_req : Env → ActiveEpReqFormat → Host → Outcome (ℕ × Host)
zdo_active_ep_req env req h =
    mt_request env (zdo_finish env) zdo_sreq 0x05 (4)
      (λ c.
        puts
          (lo_byte req.dst_addr
            ∷ hi_byte req.dst_addr
            ∷ lo_byte req.nwk_addr_of_interest
            ∷ hi_byte req.nwk_addr_of_interest
            ∷ [])
          c)
      h

unfoldable pub zdo_server_disc_req : Env → ServerDiscReqFormat → Host → Outcome (ℕ × Host)
zdo_server_disc_req env req h =
    mt_request env (zdo_finish env) zdo_sreq 0x0c (2)
      (λ c. puts (lo_byte req.server_mask ∷ hi_byte req.server_mask ∷ []) c) h

unfoldable pub zdo_device_annce : Env → DeviceAnnceFormat → Host → Outcome (ℕ × Host)
zdo_device_annce env req h =
    mt_request env (zdo_finish env) zdo_sreq 0x0a (11)
      (λ c. puts (lo_byte req.nwk_addr ∷ hi_byte req.nwk_addr ∷ []) c >>= λ c.
        put_copy 8 req.ieee_addr c >>= λ c. puts (req.capabilities ∷ []) c)
      h

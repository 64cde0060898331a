-- ===== src/Zdo/Binding/Requests.antt =====
-- The request functions of framework/mt/Zdo/mtZdo.c about bindings and link keys, each with its
-- length and the statements that fill the command buffer.
use znp_host_framework.Base.{ℕ, ◌+◌, ◌*◌, [], ◌∷◌, if◌then◌else◌, ◌==◌}
use znp_host_framework.Base.Bytes.{lo_byte, hi_byte}
use znp_host_framework.Rpc.{Outcome, done, ◌>>=◌}
use znp_host_framework.Mt.Writer.{Cmd, puts, put_words, put_copy}
use znp_host_framework.Mt.Host.{Host, Env}
use znp_host_framework.Mt.Call.{mt_request, zdo_finish}
use znp_host_framework.Zdo.Binding.Formats.{
  EndDeviceBindReqFormat, BindReqFormat, UnbindReqFormat, SetLinkKeyFormat, RemoveLinkKeyFormat,
  GetLinkKeyFormat,
}
use znp_host_framework.Zdo.Requests.{zdo_sreq}

-- The number of bytes of the destination's address, `addrmd`, and of its endpoint, `endP`.
abbrev pub addrmd : (dst_addr_mode : ℕ) → ℕ
addrmd dst_addr_mode = if dst_addr_mode == 3 then 8 else 2

abbrev pub end_p : (dst_addr_mode : ℕ) → ℕ
end_p dst_addr_mode = if dst_addr_mode == 3 then 1 else 0

-- `if (endP) cmd[cmInd++] = req->DstEndpoint;`
unfoldable pub put_endpoint : (end_p dst_endpoint : ℕ) → Cmd → Outcome Cmd
put_endpoint end_p dst_endpoint c = if end_p == 0 then done c else puts (dst_endpoint ∷ []) c

unfoldable pub zdo_end_device_bind_req : Env → EndDeviceBindReqFormat → Host → Outcome (ℕ × Host)
zdo_end_device_bind_req env req h =
    mt_request env (zdo_finish env) zdo_sreq 0x20
      (17 + req.num_in_clusters * 2 + req.num_out_clusters * 2)
      (λ c.
        puts
          (lo_byte req.dst_addr
            ∷ hi_byte req.dst_addr
            ∷ lo_byte req.local_coordinator
            ∷ hi_byte req.local_coordinator
            ∷ [])
          c
        >>= λ c. put_copy 8 req.coordinator_ieee c >>= λ c.
            puts
              (req.end_point
                ∷ lo_byte req.profile_id
                ∷ hi_byte req.profile_id
                ∷ req.num_in_clusters
                ∷ [])
              c
            >>= λ c. put_words req.num_in_clusters 0 req.in_cluster_list c >>= λ c.
                puts (req.num_out_clusters ∷ []) c >>= λ c.
                put_words req.num_out_clusters 0 req.out_cluster_list c)
      h

unfoldable pub zdo_bind_req : Env → BindReqFormat → Host → Outcome (ℕ × Host)
zdo_bind_req env req h =
    mt_request env (zdo_finish env) zdo_sreq 0x21
      (14 + addrmd req.dst_addr_mode + end_p req.dst_addr_mode)
      (λ c. puts (lo_byte req.dst_addr ∷ hi_byte req.dst_addr ∷ []) c >>= λ c.
        put_copy 8 req.src_address c >>= λ c.
        puts
          (req.src_endpoint
            ∷ lo_byte req.cluster_id
            ∷ hi_byte req.cluster_id
            ∷ req.dst_addr_mode
            ∷ [])
          c
        >>= λ c. put_copy (addrmd req.dst_addr_mode) req.dst_address c >>= λ c.
            put_endpoint (end_p req.dst_addr_mode) req.dst_endpoint c)
      h

-- The length is that of a short address, whatever the mode.
unfoldable pub zdo_unbind_req : Env → UnbindReqFormat → Host → Outcome (ℕ × Host)
zdo_unbind_req env req h =
    mt_request env (zdo_finish env) zdo_sreq 0x22 (16)
      (λ c. puts (lo_byte req.dst_addr ∷ hi_byte req.dst_addr ∷ []) c >>= λ c.
        put_copy 8 req.src_address c >>= λ c.
        puts
          (req.src_endpoint
            ∷ lo_byte req.cluster_id
            ∷ hi_byte req.cluster_id
            ∷ req.dst_addr_mode
            ∷ [])
          c
        >>= λ c. put_copy (addrmd req.dst_addr_mode) req.dst_address c >>= λ c.
            put_endpoint (end_p req.dst_addr_mode) req.dst_endpoint c)
      h

unfoldable pub zdo_set_link_key : Env → SetLinkKeyFormat → Host → Outcome (ℕ × Host)
zdo_set_link_key env req h =
    mt_request env (zdo_finish env) zdo_sreq 0x23 (26)
      (λ c. puts (lo_byte req.short_addr ∷ hi_byte req.short_addr ∷ []) c >>= λ c.
        put_copy 8 req.ieee_addr c >>= λ c. put_copy 16 req.link_key_data c)
      h

unfoldable pub zdo_remove_link_key : Env → RemoveLinkKeyFormat → Host → Outcome (ℕ × Host)
zdo_remove_link_key env req h =
    mt_request env (zdo_finish env) zdo_sreq 0x24 (8) (λ c. put_copy 8 req.ieee_addr c) h

unfoldable pub zdo_get_link_key : Env → GetLinkKeyFormat → Host → Outcome (ℕ × Host)
zdo_get_link_key env req h =
    mt_request env (zdo_finish env) zdo_sreq 0x25 (8) (λ c. put_copy 8 req.ieee_addr c) h

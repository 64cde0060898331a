-- ===== src/Zdo/Descriptor/Requests.antt =====
-- The request functions of framework/mt/Zdo/mtZdo.c about the descriptors of devices, each with its
-- length and the statements that fill the command buffer.
use znp_host_framework.Base.{ℕ, ◌+◌, ◌*◌, [], ◌∷◌}
use znp_host_framework.Base.Bytes.{lo_byte, hi_byte}
use znp_host_framework.Rpc.{Outcome, ◌>>=◌}
use znp_host_framework.Mt.Writer.{puts, put_array, put_words}
use znp_host_framework.Mt.Host.{Host, Env}
use znp_host_framework.Mt.Call.{mt_request, zdo_finish}
use znp_host_framework.Zdo.Descriptor.Formats.{
  NodeDescReqFormat, PowerDescReqFormat, SimpleDescReqFormat, MatchDescReqFormat,
  ComplexDescReqFormat, UserDescReqFormat, UserDescSetFormat,
}
use znp_host_framework.Zdo.Requests.{zdo_sreq}

unfoldable pub zdo_node_desc_req : Env → NodeDescReqFormat → Host → Outcome (ℕ × Host)
zdo_node_desc_req env req h =
    mt_request env (zdo_finish env) zdo_sreq 0x02 (4)
      (λ c.
        puts
          (lo_byte req.dst_addr
            ∷ hi_byte req.dst_addr
            ∷ lo_byte req.nwk_addr_of_interest
            ∷ hi_byte req.nwk_addr_of_interest
            ∷ [])
          c)
      h

unfoldable pub zdo_power_desc_req : Env → PowerDescReqFormat → Host → Outcome (ℕ × Host)
zdo_power_desc_req env req h =
    mt_request env (zdo_finish env) zdo_sreq 0x03 (4)
      (λ c.
        puts
          (lo_byte req.dst_addr
            ∷ hi_byte req.dst_addr
            ∷ lo_byte req.nwk_addr_of_interest
            ∷ hi_byte req.nwk_addr_of_interest
            ∷ [])
          c)
      h

unfoldable pub zdo_simple_desc_req : Env → SimpleDescReqFormat → Host → Outcome (ℕ × Host)
zdo_simple_desc_req env req h =
    mt_request env (zdo_finish env) zdo_sreq 0x04 (5)
      (λ c.
        puts
          (lo_byte req.dst_addr
            ∷ hi_byte req.dst_addr
            ∷ lo_byte req.nwk_addr_of_interest
            ∷ hi_byte req.nwk_addr_of_interest
            ∷ req.endpoint
            ∷ [])
          c)
      h

unfoldable pub zdo_match_desc_req : Env → MatchDescReqFormat → Host → Outcome (ℕ × Host)
zdo_match_desc_req env req h =
    mt_request env (zdo_finish env) zdo_sreq 0x06
      (8 + req.num_in_clusters * 2 + req.num_out_clusters * 2)
      (λ c.
        puts
          (lo_byte req.dst_addr
            ∷ hi_byte req.dst_addr
            ∷ lo_byte req.nwk_addr_of_interest
            ∷ hi_byte req.nwk_addr_of_interest
            ∷ lo_byte req.profile_id
            ∷ hi_byte req.profile_id
            ∷ req.num_in_clusters
            ∷ [])
          c
        >>= λ c. put_words req.num_in_clusters 0 req.in_cluster_list c >>= λ c.
            puts (req.num_out_clusters ∷ []) c >>= λ c.
            put_words req.num_out_clusters 0 req.out_cluster_list c)
      h

unfoldable pub zdo_complex_desc_req : Env → ComplexDescReqFormat → Host → Outcome (ℕ × Host)
zdo_complex_desc_req env req h =
    mt_request env (zdo_finish env) zdo_sreq 0x07 (4)
      (λ c.
        puts
          (lo_byte req.dst_addr
            ∷ hi_byte req.dst_addr
            ∷ lo_byte req.nwk_addr_of_interest
            ∷ hi_byte req.nwk_addr_of_interest
            ∷ [])
          c)
      h

unfoldable pub zdo_user_desc_req : Env → UserDescReqFormat → Host → Outcome (ℕ × Host)
zdo_user_desc_req env req h =
    mt_request env (zdo_finish env) zdo_sreq 0x08 (4)
      (λ c.
        puts
          (lo_byte req.dst_addr
            ∷ hi_byte req.dst_addr
            ∷ lo_byte req.nwk_addr_of_interest
            ∷ hi_byte req.nwk_addr_of_interest
            ∷ [])
          c)
      h

unfoldable pub zdo_user_desc_set : Env → UserDescSetFormat → Host → Outcome (ℕ × Host)
zdo_user_desc_set env req h =
    mt_request env (zdo_finish env) zdo_sreq 0x0b (5 + req.len)
      (λ c.
        puts
          (lo_byte req.dst_addr
            ∷ hi_byte req.dst_addr
            ∷ lo_byte req.nwk_addr_of_interest
            ∷ hi_byte req.nwk_addr_of_interest
            ∷ req.len
            ∷ [])
          c
        >>= λ c. put_array req.len 0 req.user_descriptor c)
      h

-- ===== src/Zdo/Binding/Payloads.antt =====
-- What the request functions of framework/mt/Zdo/mtZdo.c about bindings and link keys send: the
-- payload by the format, and that the function for it sends exactly this.
use znp_host_framework.Base.{ℕ, ◌+◌, ◌*◌, ◌≤◌, ◌≡◌, List, ◌∷◌, ◌++◌, length, take, arith}
use znp_host_framework.Base.Bytes.{lo_byte, hi_byte}
use znp_host_framework.Mt.Writer.{word_bytes}
use znp_host_framework.Mt.Host.{Host, Env}
use znp_host_framework.Mt.Call.{IsAllocator, transmit, zdo_finish}
use znp_host_framework.Mt.Fills.{
  puts-Fills, then-Fills, put_words-Fills, put_copy-Fills, request-Fills,
}
use znp_host_framework.Zdo.Binding.Formats.{
  EndDeviceBindReqFormat, SetLinkKeyFormat, RemoveLinkKeyFormat, GetLinkKeyFormat,
}
use znp_host_framework.Zdo.Requests.{zdo_sreq}
use znp_host_framework.Zdo.Binding.Requests.{
  zdo_end_device_bind_req, zdo_set_link_key, zdo_remove_link_key, zdo_get_link_key,
}

abbrev pub end_device_bind_req_bytes : EndDeviceBindReqFormat → List ℕ
end_device_bind_req_bytes req =
    lo_byte req.dst_addr
    ∷ hi_byte req.dst_addr
    ∷ lo_byte req.local_coordinator
    ∷ hi_byte req.local_coordinator
    ∷ (req.coordinator_ieee
        ++ (req.end_point
            ∷ lo_byte req.profile_id
            ∷ hi_byte req.profile_id
            ∷ req.num_in_clusters
            ∷ (word_bytes (take req.num_in_clusters req.in_cluster_list)
                ++ (req.num_out_clusters
                    ∷ word_bytes (take req.num_out_clusters req.out_cluster_list)))))

abbrev pub IsEndDeviceBindReq : EndDeviceBindReqFormat → Type 0
IsEndDeviceBindReq req =
    (length req.coordinator_ieee ≡ 8)
    × (req.num_in_clusters ≤ length req.in_cluster_list)
    × (req.num_out_clusters ≤ length req.out_cluster_list)
    × (17 + req.num_in_clusters * 2 + req.num_out_clusters * 2 ≤ 256)

pub zdo_end_device_bind_req-transmit :
    (env : Env) (req : EndDeviceBindReqFormat) (h : Host)
    → IsAllocator env.malloc
    → IsEndDeviceBindReq req
    → zdo_end_device_bind_req env req h
      ≡ transmit env
          (zdo_finish env)
          zdo_sreq
          0x20
          (end_device_bind_req_bytes req)
          h
          (env.malloc (length (end_device_bind_req_bytes req)))
unfolding zdo_end_device_bind_req
zdo_end_device_bind_req-transmit env req h allocates
      (h_coordinator_ieee, h_in_cluster_list, h_out_cluster_list, short) =
    request-Fills env (zdo_finish env) zdo_sreq 0x20
      (17 + req.num_in_clusters * 2 + req.num_out_clusters * 2) _ (end_device_bind_req_bytes req) _
      h allocates
      (then-Fills _ _ _ _ _ _ (puts-Fills _) (
        then-Fills _ _ _ _ _ _
          (put_copy-Fills 8 req.coordinator_ieee h_coordinator_ieee (omega arith))
          (then-Fills _ _ _ _ _ _ (puts-Fills _) (
            then-Fills _ _ _ _ _ _
              (put_words-Fills req.num_in_clusters req.in_cluster_list h_in_cluster_list)
              (then-Fills _ _ _ _ _ _ (puts-Fills _)
                (put_words-Fills req.num_out_clusters req.out_cluster_list h_out_cluster_list))))))
      (omega arith) short

abbrev pub set_link_key_bytes : SetLinkKeyFormat → List ℕ
set_link_key_bytes req =
    lo_byte req.short_addr ∷ hi_byte req.short_addr ∷ (req.ieee_addr ++ (req.link_key_data))

abbrev pub IsSetLinkKey : SetLinkKeyFormat → Type 0
IsSetLinkKey req = (length req.ieee_addr ≡ 8) × (length req.link_key_data ≡ 16)

pub zdo_set_link_key-transmit :
    (env : Env) (req : SetLinkKeyFormat) (h : Host)
    → IsAllocator env.malloc
    → IsSetLinkKey req
    → zdo_set_link_key env req h
      ≡ transmit env
          (zdo_finish env)
          zdo_sreq
          0x23
          (set_link_key_bytes req)
          h
          (env.malloc (length (set_link_key_bytes req)))
unfolding zdo_set_link_key
zdo_set_link_key-transmit env req h allocates (h_ieee_addr, h_link_key_data) =
    request-Fills env (zdo_finish env) zdo_sreq 0x23 (26) _ (set_link_key_bytes req) _ h allocates
      (then-Fills _ _ _ _ _ _ (puts-Fills _) (
        then-Fills _ _ _ _ _ _ (put_copy-Fills 8 req.ieee_addr h_ieee_addr (omega arith))
          (put_copy-Fills 16 req.link_key_data h_link_key_data (omega arith))))
      (omega arith) (omega arith)

abbrev pub remove_link_key_bytes : RemoveLinkKeyFormat → List ℕ
remove_link_key_bytes req = req.ieee_addr

abbrev pub IsRemoveLinkKey : RemoveLinkKeyFormat → Type 0
IsRemoveLinkKey req = length req.ieee_addr ≡ 8

pub zdo_remove_link_key-transmit :
    (env : Env) (req : RemoveLinkKeyFormat) (h : Host)
    → IsAllocator env.malloc
    → IsRemoveLinkKey req
    → zdo_remove_link_key env req h
      ≡ transmit env
          (zdo_finish env)
          zdo_sreq
          0x24
          (remove_link_key_bytes req)
          h
          (env.malloc (length (remove_link_key_bytes req)))
unfolding zdo_remove_link_key
zdo_remove_link_key-transmit env req h allocates h_ieee_addr =
    request-Fills env (zdo_finish env) zdo_sreq 0x24 (8) _ (remove_link_key_bytes req) _ h allocates
      (put_copy-Fills 8 req.ieee_addr h_ieee_addr (omega arith)) (omega arith) (omega arith)

abbrev pub get_link_key_bytes : GetLinkKeyFormat → List ℕ
get_link_key_bytes req = req.ieee_addr

abbrev pub IsGetLinkKey : GetLinkKeyFormat → Type 0
IsGetLinkKey req = length req.ieee_addr ≡ 8

pub zdo_get_link_key-transmit :
    (env : Env) (req : GetLinkKeyFormat) (h : Host)
    → IsAllocator env.malloc
    → IsGetLinkKey req
    → zdo_get_link_key env req h
      ≡ transmit env
          (zdo_finish env)
          zdo_sreq
          0x25
          (get_link_key_bytes req)
          h
          (env.malloc (length (get_link_key_bytes req)))
unfolding zdo_get_link_key
zdo_get_link_key-transmit env req h allocates h_ieee_addr =
    request-Fills env (zdo_finish env) zdo_sreq 0x25 (8) _ (get_link_key_bytes req) _ h allocates
      (put_copy-Fills 8 req.ieee_addr h_ieee_addr (omega arith)) (omega arith) (omega arith)

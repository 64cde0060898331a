-- ===== src/Zdo/Descriptor/Payloads.antt =====
-- What the request functions of framework/mt/Zdo/mtZdo.c about the descriptors of devices send: the
-- payload by the format, and that the function for it sends exactly this.
use znp_host_framework.Base.{ℕ, ◌+◌, ◌*◌, ◌≤◌, ◌≡◌, List, [], ◌∷◌, ◌++◌, length, take, arith}
use znp_host_framework.Base.Bytes.{lo_byte, hi_byte}
use znp_host_framework.Mt.Writer.{word_bytes}
use znp_host_framework.Mt.Host.{Host, Env}
use znp_host_framework.Mt.Call.{IsAllocator, transmit, zdo_finish}
use znp_host_framework.Mt.Fills.{
  puts-Fills, then-Fills, put_array-Fills, put_words-Fills, request-Fills,
}
use znp_host_framework.Zdo.Descriptor.Formats.{
  NodeDescReqFormat, PowerDescReqFormat, SimpleDescReqFormat, MatchDescReqFormat,
  ComplexDescReqFormat, UserDescReqFormat, UserDescSetFormat,
}
use znp_host_framework.Zdo.Requests.{zdo_sreq}
use znp_host_framework.Zdo.Descriptor.Requests.{
  zdo_node_desc_req, zdo_power_desc_req, zdo_simple_desc_req, zdo_match_desc_req,
  zdo_complex_desc_req, zdo_user_desc_req, zdo_user_desc_set,
}

abbrev pub node_desc_req_bytes : NodeDescReqFormat → List ℕ
node_desc_req_bytes req =
    lo_byte req.dst_addr
    ∷ hi_byte req.dst_addr
    ∷ lo_byte req.nwk_addr_of_interest
    ∷ hi_byte req.nwk_addr_of_interest
    ∷ []

abbrev pub IsNodeDescReq : NodeDescReqFormat → Type 0
IsNodeDescReq req = Unit {0}

pub zdo_node_desc_req-transmit :
    (env : Env) (req : NodeDescReqFormat) (h : Host)
    → IsAllocator env.malloc
    → IsNodeDescReq req
    → zdo_node_desc_req env req h
      ≡ transmit env
          (zdo_finish env)
          zdo_sreq
          0x02
          (node_desc_req_bytes req)
          h
          (env.malloc (length (node_desc_req_bytes req)))
unfolding zdo_node_desc_req
zdo_node_desc_req-transmit env req h allocates ok =
    request-Fills env (zdo_finish env) zdo_sreq 0x02 (4) _ (node_desc_req_bytes req) _ h allocates
      (puts-Fills _) (omega arith) (omega arith)

abbrev pub power_desc_req_bytes : PowerDescReqFormat → List ℕ
power_desc_req_bytes req =
    lo_byte req.dst_addr
    ∷ hi_byte req.dst_addr
    ∷ lo_byte req.nwk_addr_of_interest
    ∷ hi_byte req.nwk_addr_of_interest
    ∷ []

abbrev pub IsPowerDescReq : PowerDescReqFormat → Type 0
IsPowerDescReq req = Unit {0}

pub zdo_power_desc_req-transmit :
    (env : Env) (req : PowerDescReqFormat) (h : Host)
    → IsAllocator env.malloc
    → IsPowerDescReq req
    → zdo_power_desc_req env req h
      ≡ transmit env
          (zdo_finish env)
          zdo_sreq
          0x03
          (power_desc_req_bytes req)
          h
          (env.malloc (length (power_desc_req_bytes req)))
unfolding zdo_power_desc_req
zdo_power_desc_req-transmit env req h allocates ok =
    request-Fills env (zdo_finish env) zdo_sreq 0x03 (4) _ (power_desc_req_bytes req) _ h allocates
      (puts-Fills _) (omega arith) (omega arith)

abbrev pub simple_desc_req_bytes : SimpleDescReqFormat → List ℕ
simple_desc_req_bytes req =
    lo_byte req.dst_addr
    ∷ hi_byte req.dst_addr
    ∷ lo_byte req.nwk_addr_of_interest
    ∷ hi_byte req.nwk_addr_of_interest
    ∷ req.endpoint
    ∷ []

abbrev pub IsSimpleDescReq : SimpleDescReqFormat → Type 0
IsSimpleDescReq req = Unit {0}

pub zdo_simple_desc_req-transmit :
    (env : Env) (req : SimpleDescReqFormat) (h : Host)
    → IsAllocator env.malloc
    → IsSimpleDescReq req
    → zdo_simple_desc_req env req h
      ≡ transmit env
          (zdo_finish env)
          zdo_sreq
          0x04
          (simple_desc_req_bytes req)
          h
          (env.malloc (length (simple_desc_req_bytes req)))
unfolding zdo_simple_desc_req
zdo_simple_desc_req-transmit env req h allocates ok =
    request-Fills env (zdo_finish env) zdo_sreq 0x04 (5) _ (simple_desc_req_bytes req) _ h allocates
      (puts-Fills _) (omega arith) (omega arith)

abbrev pub match_desc_req_bytes : MatchDescReqFormat → List ℕ
match_desc_req_bytes req =
    lo_byte req.dst_addr
    ∷ hi_byte req.dst_addr
    ∷ lo_byte req.nwk_addr_of_interest
    ∷ hi_byte req.nwk_addr_of_interest
    ∷ lo_byte req.profile_id
    ∷ hi_byte req.profile_id
    ∷ req.num_in_clusters
    ∷ (word_bytes (take req.num_in_clusters req.in_cluster_list)
        ++ (req.num_out_clusters ∷ word_bytes (take req.num_out_clusters req.out_cluster_list)))

abbrev pub IsMatchDescReq : MatchDescReqFormat → Type 0
IsMatchDescReq req =
    (req.num_in_clusters ≤ length req.in_cluster_list)
    × (req.num_out_clusters ≤ length req.out_cluster_list)
    × (8 + req.num_in_clusters * 2 + req.num_out_clusters * 2 ≤ 256)

pub zdo_match_desc_req-transmit :
    (env : Env) (req : MatchDescReqFormat) (h : Host)
    → IsAllocator env.malloc
    → IsMatchDescReq req
    → zdo_match_desc_req env req h
      ≡ transmit env
          (zdo_finish env)
          zdo_sreq
          0x06
          (match_desc_req_bytes req)
          h
          (env.malloc (length (match_desc_req_bytes req)))
unfolding zdo_match_desc_req
zdo_match_desc_req-transmit env req h allocates (h_in_cluster_list, h_out_cluster_list, short) =
    request-Fills env (zdo_finish env) zdo_sreq 0x06
      (8 + req.num_in_clusters * 2 + req.num_out_clusters * 2) _ (match_desc_req_bytes req) _ h
      allocates
      (then-Fills _ _ _ _ _ _ (puts-Fills _) (
        then-Fills _ _ _ _ _ _
          (put_words-Fills req.num_in_clusters req.in_cluster_list h_in_cluster_list)
          (then-Fills _ _ _ _ _ _ (puts-Fills _)
            (put_words-Fills req.num_out_clusters req.out_cluster_list h_out_cluster_list))))
      (omega arith) short

abbrev pub complex_desc_req_bytes : ComplexDescReqFormat → List ℕ
complex_desc_req_bytes req =
    lo_byte req.dst_addr
    ∷ hi_byte req.dst_addr
    ∷ lo_byte req.nwk_addr_of_interest
    ∷ hi_byte req.nwk_addr_of_interest
    ∷ []

abbrev pub IsComplexDescReq : ComplexDescReqFormat → Type 0
IsComplexDescReq req = Unit {0}

pub zdo_complex_desc_req-transmit :
    (env : Env) (req : ComplexDescReqFormat) (h : Host)
    → IsAllocator env.malloc
    → IsComplexDescReq req
    → zdo_complex_desc_req env req h
      ≡ transmit env
          (zdo_finish env)
          zdo_sreq
          0x07
          (complex_desc_req_bytes req)
          h
          (env.malloc (length (complex_desc_req_bytes req)))
unfolding zdo_complex_desc_req
zdo_complex_desc_req-transmit env req h allocates ok =
    request-Fills env (zdo_finish env) zdo_sreq 0x07 (4) _ (complex_desc_req_bytes req) _ h
      allocates (puts-Fills _) (omega arith) (omega arith)

abbrev pub user_desc_req_bytes : UserDescReqFormat → List ℕ
user_desc_req_bytes req =
    lo_byte req.dst_addr
    ∷ hi_byte req.dst_addr
    ∷ lo_byte req.nwk_addr_of_interest
    ∷ hi_byte req.nwk_addr_of_interest
    ∷ []

abbrev pub IsUserDescReq : UserDescReqFormat → Type 0
IsUserDescReq req = Unit {0}

pub zdo_user_desc_req-transmit :
    (env : Env) (req : UserDescReqFormat) (h : Host)
    → IsAllocator env.malloc
    → IsUserDescReq req
    → zdo_user_desc_req env req h
      ≡ transmit env
          (zdo_finish env)
          zdo_sreq
          0x08
          (user_desc_req_bytes req)
          h
          (env.malloc (length (user_desc_req_bytes req)))
unfolding zdo_user_desc_req
zdo_user_desc_req-transmit env req h allocates ok =
    request-Fills env (zdo_finish env) zdo_sreq 0x08 (4) _ (user_desc_req_bytes req) _ h allocates
      (puts-Fills _) (omega arith) (omega arith)

abbrev pub user_desc_set_bytes : UserDescSetFormat → List ℕ
user_desc_set_bytes req =
    lo_byte req.dst_addr
    ∷ hi_byte req.dst_addr
    ∷ lo_byte req.nwk_addr_of_interest
    ∷ hi_byte req.nwk_addr_of_interest
    ∷ req.len
    ∷ take req.len req.user_descriptor

abbrev pub IsUserDescSet : UserDescSetFormat → Type 0
IsUserDescSet req = (req.len ≤ length req.user_descriptor) × (5 + req.len ≤ 256)

pub zdo_user_desc_set-transmit :
    (env : Env) (req : UserDescSetFormat) (h : Host)
    → IsAllocator env.malloc
    → IsUserDescSet req
    → zdo_user_desc_set env req h
      ≡ transmit env
          (zdo_finish env)
          zdo_sreq
          0x0b
          (user_desc_set_bytes req)
          h
          (env.malloc (length (user_desc_set_bytes req)))
unfolding zdo_user_desc_set
zdo_user_desc_set-transmit env req h allocates (h_user_descriptor, short) =
    request-Fills env (zdo_finish env) zdo_sreq 0x0b (5 + req.len) _ (user_desc_set_bytes req) _ h
      allocates
      (then-Fills _ _ _ _ _ _ (puts-Fills _)
        (put_array-Fills req.len req.user_descriptor h_user_descriptor))
      (omega arith) short

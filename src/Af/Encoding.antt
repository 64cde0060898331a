-- ===== src/Af/Encoding.antt =====
-- What the request functions of framework/mt/Af/mtAf.c send: each request of the interface as a
-- message, its command number and its payload by the format, and that the function for it calls
-- `rpcSendFrame` with exactly this.
use znp_host_framework.Base.{
  ℕ, ◌+◌, ◌*◌, ◌≤◌, ◌≡◌, refl, List, [], ◌∷◌, ◌++◌, length, take, arith, length-append,
}
use znp_host_framework.Base.Bytes.{lo_byte, hi_byte}
use znp_host_framework.Rpc.{Outcome}
use znp_host_framework.Mt.Writer.{
  Cmd, Writes, word_bytes, puts-Writes, then-Writes, put_array-Writes, put_words-Writes,
  put_copy-Writes, length-words, length-taken,
}
use znp_host_framework.Mt.Host.{Host, Env}
use znp_host_framework.Mt.Call.{mt_finish, IsAllocator, transmit, mt_request, mt_request-Writes}
use znp_host_framework.Af.Formats.{
  RegisterFormat, DataRequestFormat, DataRequestExtFormat, DataRequestSrcRtgFormat,
  InterPanCtlFormat, DataStoreFormat, DataRetrieveFormat, ApsfConfigSetFormat,
}
use znp_host_framework.Af.Requests.{
  af_sreq, af_register, af_data_request, af_data_request_ext, af_data_request_src_rtg,
  af_inter_pan_ctl, af_data_store, af_data_retrieve, af_apsf_config_set,
}

-- A call of the interface.
pub data AfRequest : Type 0 where
  register : RegisterFormat → AfRequest
  data_request : DataRequestFormat → AfRequest
  data_request_ext : DataRequestExtFormat → AfRequest
  data_request_src_rtg : DataRequestSrcRtgFormat → AfRequest
  inter_pan_ctl : InterPanCtlFormat → AfRequest
  data_store : DataStoreFormat → AfRequest
  data_retrieve : DataRetrieveFormat → AfRequest
  apsf_config_set : ApsfConfigSetFormat → AfRequest

-- The function that is called.
unfoldable pub af_request : Env → AfRequest → Host → Outcome (ℕ × Host)
af_request env (register req) r = af_register env req r
af_request env (data_request req) r = af_data_request env req r
af_request env (data_request_ext req) r = af_data_request_ext env req r
af_request env (data_request_src_rtg req) r = af_data_request_src_rtg env req r
af_request env (inter_pan_ctl req) r = af_inter_pan_ctl env req r
af_request env (data_store req) r = af_data_store env req r
af_request env (data_retrieve req) r = af_data_retrieve env req r
af_request env (apsf_config_set req) r = af_apsf_config_set env req r

-- The command numbers, `MT_AF_REGISTER` to `MT_AF_APSF_CONFIG_SET`.
abbrev pub command : AfRequest → ℕ
command (register req) = 0x00
command (data_request req) = 0x01
command (data_request_ext req) = 0x02
command (data_request_src_rtg req) = 0x03
command (inter_pan_ctl req) = 0x10
command (data_store req) = 0x11
command (data_retrieve req) = 0x12
command (apsf_config_set req) = 0x13

-- The payload of each command.
abbrev pub encode : AfRequest → List ℕ
encode (register req) =
    req.end_point
    ∷ lo_byte req.app_prof_id
    ∷ hi_byte req.app_prof_id
    ∷ lo_byte req.app_device_id
    ∷ hi_byte req.app_device_id
    ∷ req.app_dev_ver
    ∷ req.latency_req
    ∷ req.app_num_in_clusters
    ∷ (word_bytes (take req.app_num_in_clusters req.app_in_cluster_list)
        ++ req.app_num_out_clusters
          ∷ word_bytes (take req.app_num_out_clusters req.app_out_cluster_list))
encode (data_request req) =
    lo_byte req.dst_addr
    ∷ hi_byte req.dst_addr
    ∷ req.dst_endpoint
    ∷ req.src_endpoint
    ∷ lo_byte req.cluster_id
    ∷ hi_byte req.cluster_id
    ∷ req.trans_id
    ∷ req.options
    ∷ req.radius
    ∷ req.len
    ∷ take req.len req.bytes
encode (data_request_ext req) =
    req.dst_addr_mode
    ∷ (req.dst_addr
        ++ req.dst_endpoint
          ∷ lo_byte req.dst_pan_id
          ∷ hi_byte req.dst_pan_id
          ∷ req.src_endpoint
          ∷ lo_byte req.cluster_id
          ∷ hi_byte req.cluster_id
          ∷ req.trans_id
          ∷ req.options
          ∷ req.radius
          ∷ lo_byte req.len
          ∷ hi_byte req.len
          ∷ take req.len req.bytes)
encode (data_request_src_rtg req) =
    lo_byte req.dst_addr
    ∷ hi_byte req.dst_addr
    ∷ req.dst_endpoint
    ∷ req.src_endpoint
    ∷ lo_byte req.cluster_id
    ∷ hi_byte req.cluster_id
    ∷ req.trans_id
    ∷ req.options
    ∷ req.radius
    ∷ req.relay_count
    ∷ (word_bytes (take req.relay_count req.relay_list) ++ req.len ∷ take req.len req.bytes)
encode (inter_pan_ctl req) = req.command ∷ take req.command req.bytes
encode (data_store req) = lo_byte req.index ∷ hi_byte req.index ∷ req.len ∷ take req.len req.bytes
encode (data_retrieve req) = req.time_stamp ++ lo_byte req.index ∷ hi_byte req.index ∷ req.len ∷ []
encode (apsf_config_set req) = req.endpoint ∷ req.frame_delay ∷ req.window_size ∷ []

-- The counts of a request are within its arrays, which have the sizes of the header where these
-- are fixed, and the payload is at most 256 bytes.
abbrev pub IsValid : AfRequest → Type 0
IsValid (register req) =
    (req.app_num_in_clusters ≤ length req.app_in_cluster_list)
    × (req.app_num_out_clusters ≤ length req.app_out_cluster_list)
    × (9 + req.app_num_in_clusters * 2 + req.app_num_out_clusters * 2 ≤ 256)
IsValid (data_request req) = (req.len ≤ length req.bytes) × (10 + req.len ≤ 256)
IsValid (data_request_ext req) =
    (length req.dst_addr ≡ 8) × (req.len ≤ length req.bytes) × (20 + req.len ≤ 256)
IsValid (data_request_src_rtg req) =
    (req.relay_count ≤ length req.relay_list)
    × (req.len ≤ length req.bytes)
    × (11 + req.relay_count * 2 + req.len ≤ 256)
IsValid (inter_pan_ctl req) = (req.command ≤ length req.bytes) × (1 + req.command ≤ 256)
IsValid (data_store req) = (req.len ≤ length req.bytes) × (3 + req.len ≤ 256)
IsValid (data_retrieve req) = length req.time_stamp ≡ 4
IsValid (apsf_config_set req) = Unit {0}

-- The size of the payload.
unfoldable size : AfRequest → ℕ
size (register req) = 9 + req.app_num_in_clusters * 2 + req.app_num_out_clusters * 2
size (data_request req) = 10 + req.len
size (data_request_ext req) = 20 + req.len
size (data_request_src_rtg req) = 11 + req.relay_count * 2 + req.len
size (inter_pan_ctl req) = 1 + req.command
size (data_store req) = 3 + req.len
size (data_retrieve req) = 7
size (apsf_config_set req) = 3

encode-size : (q : AfRequest) → IsValid q → size q ≡ length (encode q)
unfolding size
encode-size (register req) (ins, outs, short) =
    let sum = length-append (word_bytes (take req.app_num_in_clusters req.app_in_cluster_list)) (
      req.app_num_out_clusters
      ∷ word_bytes (take req.app_num_out_clusters req.app_out_cluster_list)) in
    omega (
      arith,
      sum,
      length-words req.app_num_in_clusters req.app_in_cluster_list ins,
      length-words req.app_num_out_clusters req.app_out_cluster_list outs,
    )
encode-size (data_request req) (within, short) =
    omega (arith, length-taken req.len req.bytes within)
encode-size (data_request_ext req) (eight, within, short) =
    let sum = length-append req.dst_addr (
      req.dst_endpoint
      ∷ lo_byte req.dst_pan_id
      ∷ hi_byte req.dst_pan_id
      ∷ req.src_endpoint
      ∷ lo_byte req.cluster_id
      ∷ hi_byte req.cluster_id
      ∷ req.trans_id
      ∷ req.options
      ∷ req.radius
      ∷ lo_byte req.len
      ∷ hi_byte req.len
      ∷ take req.len req.bytes) in
    omega (arith, sum, eight, length-taken req.len req.bytes within)
encode-size (data_request_src_rtg req) (relays, within, short) =
    let sum =
      length-append (word_bytes (take req.relay_count req.relay_list))
        (req.len ∷ take req.len req.bytes) in
    omega (
      arith,
      sum,
      length-words req.relay_count req.relay_list relays,
      length-taken req.len req.bytes within,
    )
encode-size (inter_pan_ctl req) (within, short) =
    omega (arith, length-taken req.command req.bytes within)
encode-size (data_store req) (within, short) = omega (arith, length-taken req.len req.bytes within)
encode-size (data_retrieve req) four = omega (
  arith,
  four,
  length-append req.time_stamp (lo_byte req.index ∷ hi_byte req.index ∷ req.len ∷ []),
)
encode-size (apsf_config_set req) ok = refl

short-size : (q : AfRequest) → IsValid q → size q ≤ 256
unfolding size
short-size (register req) (ins, outs, short) = short
short-size (data_request req) (within, short) = short
short-size (data_request_ext req) (eight, within, short) = short
short-size (data_request_src_rtg req) (relays, within, short) = short
short-size (inter_pan_ctl req) (within, short) = short
short-size (data_store req) (within, short) = short
short-size (data_retrieve req) four = omega arith
short-size (apsf_config_set req) ok = omega arith

-- The bytes written are those of the format.
sends :
    (env : Env) (cmd1 : ℕ) (fill : Cmd → Outcome Cmd) (q : AfRequest) (r : Host)
    → IsAllocator env.malloc
    → IsValid q
    → Writes fill (encode q)
    → mt_request env (mt_finish env) af_sreq cmd1 (size q) fill r
      ≡ transmit env (mt_finish env) af_sreq cmd1 (encode q) r (env.malloc (length (encode q)))
sends env cmd1 fill q r allocates valid w =
    mt_request-Writes env (mt_finish env) af_sreq cmd1 (size q) fill (encode q) r allocates w
      (encode-size q valid) (omega (arith, encode-size q valid, short-size q valid))

-- What each request function comes to, `rpcSendFrame` left as it is: status 1 without memory, and
-- otherwise a call with the interface's `cmd0`, the command number and the payload of the format,
-- and the wait for the answer. The counts are to be within the arrays of the struct and the payload
-- within 256 bytes, and `malloc` is to return blocks of the size asked for.
pub af_request-transmit :
    (env : Env) (q : AfRequest) (r : Host)
    → IsAllocator env.malloc
    → IsValid q
    → af_request env q r
      ≡ transmit env
          (mt_finish env)
          af_sreq
          (command q)
          (encode q)
          r
          (env.malloc (length (encode q)))
unfolding af_request af_register af_data_request af_data_request_ext af_data_request_src_rtg
    af_inter_pan_ctl af_data_store af_data_retrieve af_apsf_config_set size
af_request-transmit env (register req) r allocates (ins, outs, short) =
    sends env 0x00 _ (register req) r allocates (ins, outs, short)
      (then-Writes _ _ _ _ (puts-Writes _) (
        then-Writes _ _ _ _ (put_words-Writes req.app_num_in_clusters req.app_in_cluster_list ins) (
          then-Writes _ _ _ _ (puts-Writes (req.app_num_out_clusters ∷ []))
            (put_words-Writes req.app_num_out_clusters req.app_out_cluster_list outs))))
af_request-transmit env (data_request req) r allocates (within, short) =
    sends env 0x01 _ (data_request req) r allocates (within, short)
      (then-Writes _ _ _ _ (puts-Writes _) (put_array-Writes req.len req.bytes within))
af_request-transmit env (data_request_ext req) r allocates (eight, within, short) =
    sends env 0x02 _ (data_request_ext req) r allocates (eight, within, short)
      (then-Writes _ _ _ _ (puts-Writes (req.dst_addr_mode ∷ [])) (
        then-Writes _ _ _ _ (put_copy-Writes 8 req.dst_addr eight (omega arith))
          (then-Writes _ _ _ _ (puts-Writes _) (put_array-Writes req.len req.bytes within))))
af_request-transmit env (data_request_src_rtg req) r allocates (relays, within, short) =
    sends env 0x03 _ (data_request_src_rtg req) r allocates (relays, within, short)
      (then-Writes _ _ _ _ (puts-Writes _) (
        then-Writes _ _ _ _ (put_words-Writes req.relay_count req.relay_list relays) (
          then-Writes _ _ _ _ (puts-Writes (req.len ∷ []))
            (put_array-Writes req.len req.bytes within))))
af_request-transmit env (inter_pan_ctl req) r allocates (within, short) =
    sends env 0x10 _ (inter_pan_ctl req) r allocates (within, short)
      (then-Writes _ _ _ _ (puts-Writes (req.command ∷ []))
        (put_array-Writes req.command req.bytes within))
af_request-transmit env (data_store req) r allocates (within, short) =
    sends env 0x11 _ (data_store req) r allocates (within, short)
      (then-Writes _ _ _ _ (puts-Writes _) (put_array-Writes req.len req.bytes within))
af_request-transmit env (data_retrieve req) r allocates four =
    sends env 0x12 _ (data_retrieve req) r allocates four
      (then-Writes _ _ _ _ (put_copy-Writes 4 req.time_stamp four (omega arith)) (puts-Writes _))
af_request-transmit env (apsf_config_set req) r allocates ok =
    sends env 0x13 _ (apsf_config_set req) r allocates ok (puts-Writes _)

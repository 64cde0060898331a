-- ===== src/Af/Process.antt =====
-- `afProcess` of framework/mt/Af/mtAf.c and its handlers. A handler that finds the message too short
-- prints that and goes on, so the test has no effect on what it reads.
use znp_host_framework.Base.{
  ℕ, zero, suc, ◌+◌, ◌*◌, ◌%◌, ◌^◌, List, [], bit_and, bit_or, ltb, ◌==◌, Bool, ◌&&◌, ◌||◌,
  if◌then◌else◌, get_elem?,
}
use znp_host_framework.Rpc.{Outcome, done, ◌>>=◌, checked, mt_rpc_cmd_type_mask, mt_rpc_cmd_srsp}
use znp_host_framework.Mt.Reader.{
  Reader, give, read_then, take_byte, take_word, take_wide, take_bytes, take_data,
}
use znp_host_framework.Mt.Dispatch.{deliver, copy_srsp}
use znp_host_framework.Af.Events.{
  AfEvent, data_confirm, incoming_msg, incoming_msg_ext, data_retrieve_srsp, reflect_error,
  AfCallbacks,
}

-- `afRegisterCallbacks`
abbrev pub af_register_callbacks : (cbs mt_af_cbs : AfCallbacks) → AfCallbacks
af_register_callbacks cbs mt_af_cbs = cbs

unfoldable pub process_data_confirm : Reader AfEvent
process_data_confirm = read_then take_byte λ status. read_then take_byte λ endpoint.
    read_then take_byte λ trans_id.
      give (data_confirm (record { status = status; endpoint = endpoint; trans_id = trans_id }))

unfoldable pub process_incoming_msg : ℕ → Reader AfEvent
process_incoming_msg rpc_len = read_then take_word λ group_id. read_then take_word λ cluster_id.
    read_then take_word λ src_addr. read_then take_byte λ src_endpoint.
      read_then take_byte λ dst_endpoint. read_then take_byte λ was_vroadcast.
        read_then take_byte λ link_quality. read_then take_byte λ security_use.
          read_then (take_wide 4 0 0) λ time_stamp. read_then take_byte λ trans_seq_num.
            read_then take_byte λ len. read_then (take_data rpc_len 17 len 99) λ bytes. give (
              incoming_msg (record {
                group_id = group_id;
                cluster_id = cluster_id;
                src_addr = src_addr;
                src_endpoint = src_endpoint;
                dst_endpoint = dst_endpoint;
                was_vroadcast = was_vroadcast;
                link_quality = link_quality;
                security_use = security_use;
                time_stamp = time_stamp;
                trans_seq_num = trans_seq_num;
                len = len;
                bytes = bytes;
              }))

-- `(rsp.SrcAddrMode == 2 && i < 2) || rsp.SrcAddrMode == 3`
abbrev pub in_src_addr : (mode i : ℕ) → Bool
in_src_addr mode i = (mode == 2) && ltb i 2 || (mode == 3)

-- The loop over the eight bytes of the source address, with `n` rounds left: a byte that is not
-- part of the address is passed over.
unfoldable pub take_src_addr : (mode n i acc : ℕ) → Reader ℕ
take_src_addr mode zero i acc = give acc
take_src_addr mode (suc n) i acc =
    if in_src_addr mode i
    then read_then take_byte (λ x. take_src_addr mode n (i + 1) (bit_or acc (x * 2 ^ (i * 8))))
    else λ buf j. take_src_addr mode n (i + 1) acc buf ((j + 1) % 256)

unfoldable pub process_incoming_msg_ext : Reader AfEvent
process_incoming_msg_ext = read_then take_word λ group_id. read_then take_word λ cluster_id.
    read_then take_byte λ src_addr_mode. read_then (take_src_addr src_addr_mode 8 0 0) λ src_addr.
      read_then take_byte λ src_endpoint. read_then take_word λ src_pan_id.
        read_then take_byte λ dst_endpoint. read_then take_byte λ was_vroadcast.
          read_then take_byte λ link_quality. read_then take_byte λ security_use.
            read_then (take_wide 4 0 0) λ time_stamp. read_then take_byte λ trans_seq_num.
              read_then take_byte λ len. read_then (take_bytes len 99) λ bytes. give (
                incoming_msg_ext (record {
                  group_id = group_id;
                  cluster_id = cluster_id;
                  src_addr_mode = src_addr_mode;
                  src_addr = src_addr;
                  src_endpoint = src_endpoint;
                  src_pan_id = src_pan_id;
                  dst_endpoint = dst_endpoint;
                  was_vroadcast = was_vroadcast;
                  link_quality = link_quality;
                  security_use = security_use;
                  time_stamp = time_stamp;
                  trans_seq_num = trans_seq_num;
                  len = len;
                  bytes = bytes;
                }))

unfoldable pub process_data_retrieve_srsp : ℕ → Reader AfEvent
process_data_retrieve_srsp rpc_len = read_then take_byte λ status. read_then take_byte λ len.
    read_then (take_data rpc_len 2 len 248)
      λ bytes. give (data_retrieve_srsp (record { status = status; len = len; bytes = bytes }))

unfoldable pub process_reflect_error : Reader AfEvent
process_reflect_error = read_then take_byte λ status. read_then take_byte λ endpoint.
    read_then take_byte λ trans_id. read_then take_byte λ dst_addr_mode.
      read_then take_word λ dst_addr. give (
        reflect_error (record {
          status = status;
          endpoint = endpoint;
          trans_id = trans_id;
          dst_addr_mode = dst_addr_mode;
          dst_addr = dst_addr;
        }))

-- `processSrsp`: the message is kept, and the handler for it called. The result has the callbacks
-- called and `srspRpcBuff`.
unfoldable pub af_process_srsp :
    AfCallbacks
    → (cmd1 : ℕ) (rpc_buff : List ℕ) (rpc_len : ℕ) (srsp_rpc_buff : List ℕ)
    → Outcome (List AfEvent × List ℕ)
af_process_srsp cbs cmd1 rpc_buff rpc_len srsp_rpc_buff =
    copy_srsp srsp_rpc_buff rpc_buff rpc_len >>= λ kept.
    (if cmd1 == 0x12
      then deliver cbs.pfn_data_retrieve_srsp (process_data_retrieve_srsp rpc_len) rpc_buff
      else done [])
    >>= λ events. done (events, kept)

-- The `switch` of `afProcess`.
unfoldable pub af_process_areq :
    AfCallbacks → (cmd1 : ℕ) (rpc_buff : List ℕ) (rpc_len : ℕ) → Outcome (List AfEvent)
af_process_areq cbs cmd1 rpc_buff rpc_len =
    if cmd1 == 0x80
    then deliver cbs.pfn_data_confirm process_data_confirm rpc_buff
    else if cmd1 == 0x81
    then deliver cbs.pfn_incoming_msg (process_incoming_msg rpc_len) rpc_buff
    else if cmd1 == 0x82
    then deliver cbs.pfn_incoming_msg_ext process_incoming_msg_ext rpc_buff
    else if cmd1 == 0x83
    then deliver cbs.pfn_reflect_error process_reflect_error rpc_buff
    else done []

unfoldable pub af_process :
    AfCallbacks
    → (rpc_buff : List ℕ) (rpc_len : ℕ) (srsp_rpc_buff : List ℕ) → Outcome (List AfEvent × List ℕ)
af_process cbs rpc_buff rpc_len srsp_rpc_buff = do
  cmd0 ← checked (get_elem? rpc_buff 0)
  cmd1 ← checked (get_elem? rpc_buff 1)
  if bit_and cmd0 mt_rpc_cmd_type_mask == mt_rpc_cmd_srsp
      then af_process_srsp cbs cmd1 rpc_buff rpc_len srsp_rpc_buff
      else (af_process_areq cbs cmd1 rpc_buff rpc_len >>= λ events. done (events, srsp_rpc_buff))

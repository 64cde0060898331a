-- ===== src/Af/Decoding.antt =====
-- What the messages to the host look like, and that `afProcess` calls the callback with what a
-- message says.
use znp_host_framework.Base.{
  ℕ, ◌+◌, ◌^◌, ◌<◌, ◌≤◌, ◌≡◌, refl, List, [], ◌∷◌, ◌++◌, length, drop, Bool, if◌then◌else◌, arith,
  length-append,
}
use znp_host_framework.Base.Bytes.{lo_byte, hi_byte}
use znp_host_framework.Rpc.{done}
use znp_host_framework.Mt.Reader.{
  Reads, take_bytes, wide_bytes, chain, give-Reads, take_byte-Reads, take_word-Reads,
  take_wide-Reads, take_bytes_of, take_data, take_data-Reads, last-Reads,
}
use znp_host_framework.Mt.Dispatch.{deliver-Reads, copy_srsp_lem, behind_fcs}
use znp_host_framework.Af.Events.{
  DataConfirmFormat, IncomingMsgFormat, IncomingMsgExtFormat, DataRetrieveSrspFormat,
  ReflectErrorFormat, AfEvent, data_confirm, incoming_msg, incoming_msg_ext, data_retrieve_srsp,
  reflect_error, AfCallbacks,
}
use znp_host_framework.Af.Address.{IsAddress, take_src_addr-Reads}
use znp_host_framework.Af.Process.{
  process_data_confirm, process_incoming_msg, process_incoming_msg_ext, process_data_retrieve_srsp,
  process_reflect_error, af_process_srsp, af_process_areq, af_process,
}

-- The first two bytes of a message: `MT_RPC_CMD_AREQ | MT_RPC_SYS_AF` or
-- `MT_RPC_CMD_SRSP | MT_RPC_SYS_AF`, and the command number.
abbrev pub cmd0_of : AfEvent → ℕ
cmd0_of (data_retrieve_srsp e) = 0x64
cmd0_of e = 0x44

abbrev pub cmd1_of : AfEvent → ℕ
cmd1_of (data_confirm e) = 0x80
cmd1_of (incoming_msg e) = 0x81
cmd1_of (incoming_msg_ext e) = 0x82
cmd1_of (data_retrieve_srsp e) = 0x12
cmd1_of (reflect_error e) = 0x83

-- The payload of a message.
abbrev pub payload_of : AfEvent → List ℕ
payload_of (data_confirm e) = e.status ∷ e.endpoint ∷ e.trans_id ∷ []
payload_of (incoming_msg e) =
    lo_byte e.group_id
    ∷ hi_byte e.group_id
    ∷ lo_byte e.cluster_id
    ∷ hi_byte e.cluster_id
    ∷ lo_byte e.src_addr
    ∷ hi_byte e.src_addr
    ∷ e.src_endpoint
    ∷ e.dst_endpoint
    ∷ e.was_vroadcast
    ∷ e.link_quality
    ∷ e.security_use
    ∷ (wide_bytes 4 e.time_stamp ++ (e.trans_seq_num ∷ e.len ∷ e.bytes))
payload_of (incoming_msg_ext e) =
    lo_byte e.group_id
    ∷ hi_byte e.group_id
    ∷ lo_byte e.cluster_id
    ∷ hi_byte e.cluster_id
    ∷ e.src_addr_mode
    ∷ (wide_bytes 8 e.src_addr
        ++ (e.src_endpoint
            ∷ lo_byte e.src_pan_id
            ∷ hi_byte e.src_pan_id
            ∷ e.dst_endpoint
            ∷ e.was_vroadcast
            ∷ e.link_quality
            ∷ e.security_use
            ∷ (wide_bytes 4 e.time_stamp ++ (e.trans_seq_num ∷ e.len ∷ e.bytes))))
payload_of (data_retrieve_srsp e) = e.status ∷ e.len ∷ e.bytes
payload_of (reflect_error e) =
    e.status
    ∷ e.endpoint
    ∷ e.trans_id
    ∷ e.dst_addr_mode
    ∷ lo_byte e.dst_addr
    ∷ hi_byte e.dst_addr
    ∷ []

-- The words fit their types, the length is that of the data, and the data has room in the struct.
abbrev pub IsValid : AfEvent → Type 0
IsValid (data_confirm e) = Unit {0}
IsValid (incoming_msg e) =
    (e.group_id < 65536)
    × (e.cluster_id < 65536)
    × (e.src_addr < 65536)
    × (e.time_stamp < 2 ^ 32)
    × (e.len ≡ length e.bytes)
    × (e.len ≤ 99)
IsValid (incoming_msg_ext e) =
    (e.group_id < 65536)
    × (e.cluster_id < 65536)
    × (e.src_pan_id < 65536)
    × (e.time_stamp < 2 ^ 32)
    × (e.len ≡ length e.bytes)
    × (e.len ≤ 99)
    × IsAddress e.src_addr_mode e.src_addr
IsValid (data_retrieve_srsp e) = (e.len ≡ length e.bytes) × (e.len ≤ 248)
IsValid (reflect_error e) = e.dst_addr < 65536

-- Whether the callback of the event is registered.
abbrev pub is_registered : AfCallbacks → AfEvent → Bool
is_registered cbs (data_confirm e) = cbs.pfn_data_confirm
is_registered cbs (incoming_msg e) = cbs.pfn_incoming_msg
is_registered cbs (incoming_msg_ext e) = cbs.pfn_incoming_msg_ext
is_registered cbs (data_retrieve_srsp e) = cbs.pfn_data_retrieve_srsp
is_registered cbs (reflect_error e) = cbs.pfn_reflect_error

process_data_confirm-Reads :
    (e : DataConfirmFormat)
    → Reads process_data_confirm (payload_of (data_confirm e)) (data_confirm e)
unfolding process_data_confirm
process_data_confirm-Reads e =
    chain _ (take_byte-Reads e.status)
      (chain _ (take_byte-Reads e.endpoint) (chain _ (take_byte-Reads e.trans_id) (give-Reads _)))

process_reflect_error-Reads :
    (e : ReflectErrorFormat)
    → e.dst_addr < 65536
    → Reads process_reflect_error (payload_of (reflect_error e)) (reflect_error e)
unfolding process_reflect_error
process_reflect_error-Reads e h = chain _ (take_byte-Reads e.status) (
    chain _ (take_byte-Reads e.endpoint) (
      chain _ (take_byte-Reads e.trans_id) (
        chain _ (take_byte-Reads e.dst_addr_mode)
          (chain _ (take_word-Reads e.dst_addr h) (give-Reads _)))))

process_data_retrieve_srsp-Reads :
    (e : DataRetrieveSrspFormat) (n : ℕ)
    → 2 < n
    → IsValid (data_retrieve_srsp e)
    → Reads
        (process_data_retrieve_srsp n)
        (payload_of (data_retrieve_srsp e))
        (data_retrieve_srsp e)
unfolding process_data_retrieve_srsp
process_data_retrieve_srsp-Reads e n more (size, room) = chain _ (take_byte-Reads e.status) (
    chain _ (take_byte-Reads e.len) (
      last-Reads (take_data n 2 e.len 248) _ e.bytes
        (take_data-Reads n 2 e.len e.bytes 248 more size room)))

process_incoming_msg-Reads :
    (e : IncomingMsgFormat) (n : ℕ)
    → 17 < n
    → IsValid (incoming_msg e)
    → Reads (process_incoming_msg n) (payload_of (incoming_msg e)) (incoming_msg e)
unfolding process_incoming_msg
process_incoming_msg-Reads e n more (group, cluster, src, time, size, room) =
    chain _ (take_word-Reads e.group_id group) (
      chain _ (take_word-Reads e.cluster_id cluster) (
        chain _ (take_word-Reads e.src_addr src) (
          chain _ (take_byte-Reads e.src_endpoint) (
            chain _ (take_byte-Reads e.dst_endpoint) (
              chain _ (take_byte-Reads e.was_vroadcast) (
                chain _ (take_byte-Reads e.link_quality) (
                  chain _ (take_byte-Reads e.security_use) (
                    chain _ (take_wide-Reads 4 e.time_stamp time) (
                      chain _ (take_byte-Reads e.trans_seq_num) (
                        chain _ (take_byte-Reads e.len) (
                          last-Reads (take_data n 17 e.len 99) _ e.bytes
                            (take_data-Reads n 17 e.len e.bytes 99 more size room))))))))))))

process_incoming_msg_ext-Reads :
    (e : IncomingMsgExtFormat)
    → IsValid (incoming_msg_ext e)
    → Reads process_incoming_msg_ext (payload_of (incoming_msg_ext e)) (incoming_msg_ext e)
unfolding process_incoming_msg_ext
process_incoming_msg_ext-Reads e (group, cluster, pan, time, size, room, address) =
    chain _ (take_word-Reads e.group_id group) (
      chain _ (take_word-Reads e.cluster_id cluster) (
        chain _ (take_byte-Reads e.src_addr_mode) (
          chain _ (take_src_addr-Reads e.src_addr_mode e.src_addr address) (
            chain _ (take_byte-Reads e.src_endpoint) (
              chain _ (take_word-Reads e.src_pan_id pan) (
                chain _ (take_byte-Reads e.dst_endpoint) (
                  chain _ (take_byte-Reads e.was_vroadcast) (
                    chain _ (take_byte-Reads e.link_quality) (
                      chain _ (take_byte-Reads e.security_use) (
                        chain _ (take_wide-Reads 4 e.time_stamp time) (
                          chain _ (take_byte-Reads e.trans_seq_num) (
                            chain _ (take_byte-Reads e.len) (
                              last-Reads (take_bytes e.len 99) _ e.bytes
                                (take_bytes_of e.len e.bytes 99 size room))))))))))))))

-- The message as it stands in `rpcBuff`: command, payload and check byte.
abbrev pub message_of : AfEvent → ℕ → List ℕ
message_of e fcs = cmd0_of e ∷ cmd1_of e ∷ (payload_of e ++ fcs ∷ [])

-- What `srspRpcBuff` holds afterwards: a response is kept.
abbrev pub kept : AfEvent → (fcs : ℕ) (srsp : List ℕ) → List ℕ
kept (data_retrieve_srsp e) fcs srsp =
    message_of (data_retrieve_srsp e) fcs
    ++ drop (length (message_of (data_retrieve_srsp e) fcs)) srsp
kept e fcs srsp = srsp

size_of : (e : AfEvent) (fcs : ℕ) → length (message_of e fcs) ≡ 3 + length (payload_of e)
size_of e fcs = omega (arith, length-append (payload_of e) (fcs ∷ []))

-- A message to the host, in a buffer that may hold anything behind it, makes `afProcess` call the
-- callback of its command, if that is registered, with exactly what the message says, and no other;
-- a response is also kept in `srspRpcBuff`, which a message of another kind leaves as it is. The
-- words are to fit their types, an extended source address its mode, the length that of the data, and
-- the data its array; `srspRpcBuff` has 256 bytes.
pub af_process-event :
    (cbs : AfCallbacks) (e : AfEvent) (fcs : ℕ) (back srsp : List ℕ)
    → IsValid e
    → length srsp ≡ 256
    → af_process cbs (message_of e fcs ++ back) (length (message_of e fcs)) srsp
      ≡ done (if is_registered cbs e then e ∷ [] else [], kept e fcs srsp)
unfolding af_process af_process_areq af_process_srsp
af_process-event cbs (data_confirm e) fcs back srsp ok size =
    rw
      (deliver-Reads cbs.pfn_data_confirm process_data_confirm 0x44 0x80
        (payload_of (data_confirm e)) (fcs ∷ back) (data_confirm e) (process_data_confirm-Reads e)
        (omega arith))
      refl
af_process-event cbs (incoming_msg e) fcs back srsp (group, cluster, src, time, size', room) size =
    let n = length (message_of (incoming_msg e) fcs) in
    let long = size_of (incoming_msg e) fcs in
    rw (behind_fcs (payload_of (incoming_msg e)) fcs back) (
      rw
        (deliver-Reads cbs.pfn_incoming_msg (process_incoming_msg n) 0x44 0x81
          (payload_of (incoming_msg e)) (fcs ∷ back) (incoming_msg e)
          (process_incoming_msg-Reads e n (omega (arith, long))
            (group, cluster, src, time, size', room))
          (omega (arith, room, size')))
        refl)
af_process-event cbs (incoming_msg_ext e) fcs back srsp
      (group, cluster, pan, time, size', room, address) size =
    rw (behind_fcs (payload_of (incoming_msg_ext e)) fcs back) (
      rw
        (deliver-Reads cbs.pfn_incoming_msg_ext process_incoming_msg_ext 0x44 0x82
          (payload_of (incoming_msg_ext e)) (fcs ∷ back) (incoming_msg_ext e)
          (process_incoming_msg_ext-Reads e (group, cluster, pan, time, size', room, address))
          (omega (arith, room, size')))
        refl)
af_process-event cbs (data_retrieve_srsp e) fcs back srsp (size', room) size =
    let msg = message_of (data_retrieve_srsp e) fcs in
    let long = size_of (data_retrieve_srsp e) fcs in
    rw
      (
        copy_srsp_lem srsp msg back (length msg) refl (omega (arith, long, room, size', size)),
        behind_fcs (payload_of (data_retrieve_srsp e)) fcs back,
      )
      (rw
        (deliver-Reads cbs.pfn_data_retrieve_srsp (process_data_retrieve_srsp (length msg)) 0x64
          0x12 (payload_of (data_retrieve_srsp e)) (fcs ∷ back) (data_retrieve_srsp e)
          (process_data_retrieve_srsp-Reads e (length msg) (omega (arith, long)) (size', room))
          (omega (arith, room, size')))
        refl)
af_process-event cbs (reflect_error e) fcs back srsp bound size =
    rw
      (deliver-Reads cbs.pfn_reflect_error process_reflect_error 0x44 0x83
        (payload_of (reflect_error e)) (fcs ∷ back) (reflect_error e)
        (process_reflect_error-Reads e bound) (omega arith))
      refl

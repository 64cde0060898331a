-- ===== src/Zdo/Indication/Reading.antt =====
-- The payload of each message of framework/mt/Zdo/mtZdo.h to the host about what happens in the network,
-- and that its handler reads it.
use znp_host_framework.Base.{ℕ, ◌^◌, ◌<◌, ◌≤◌, ◌≡◌, List, [], ◌∷◌, ◌++◌, length}
use znp_host_framework.Base.Bytes.{lo_byte, hi_byte}
use znp_host_framework.Mt.Reader.{
  Reads, wide_bytes, chain, give-Reads, take_byte-Reads, take_word-Reads, take_wide-Reads,
}
use znp_host_framework.Mt.Lists.{
  list_bytes, word_pair, Each, IsWord, made-Reads, take_words-Reads, take_word_low-Reads,
}
use znp_host_framework.Zdo.Indication.Responses.{
  MatchDescRspSentFormat, StatusErrorRspFormat, SrcRtgIndFormat, MsgCbIncomingFormat,
}
use znp_host_framework.Zdo.Indication.Handlers.{
  process_match_desc_rsp_sent, process_status_error_rsp, process_src_rtg_ind,
  process_msg_cb_incoming,
}

abbrev pub match_desc_rsp_sent_bytes : MatchDescRspSentFormat → List ℕ
match_desc_rsp_sent_bytes e =
    lo_byte e.nwk_addr
    ∷ hi_byte e.nwk_addr
    ∷ e.num_in_clusters
    ∷ (list_bytes word_pair e.in_cluster_list
        ++ (e.num_out_clusters ∷ list_bytes word_pair e.out_cluster_list))

abbrev pub IsMatchDescRspSent : MatchDescRspSentFormat → Type 0
IsMatchDescRspSent e =
    (e.nwk_addr < 65536)
    × (e.num_in_clusters ≡ length e.in_cluster_list)
    × (e.num_in_clusters ≤ 16)
    × Each IsWord e.in_cluster_list
    × (e.num_out_clusters ≡ length e.out_cluster_list)
    × (e.num_out_clusters ≤ 16)
    × Each IsWord e.out_cluster_list

pub process_match_desc_rsp_sent-Reads :
    (e : MatchDescRspSentFormat)
    → IsMatchDescRspSent e
    → Reads process_match_desc_rsp_sent (match_desc_rsp_sent_bytes e) e
unfolding process_match_desc_rsp_sent
process_match_desc_rsp_sent-Reads e
      (
        h_nwk_addr, size_in_cluster_list, room_in_cluster_list, all_in_cluster_list,
        size_out_cluster_list, room_out_cluster_list, all_out_cluster_list,
      ) =
    chain _ (take_word-Reads e.nwk_addr h_nwk_addr) (
      chain _ (take_byte-Reads e.num_in_clusters) (
        chain _
          (take_words-Reads e.num_in_clusters e.in_cluster_list 16 size_in_cluster_list
            room_in_cluster_list all_in_cluster_list)
          (chain _ (take_byte-Reads e.num_out_clusters) (
            made-Reads _ _ _ e.out_cluster_list (
              take_words-Reads e.num_out_clusters e.out_cluster_list 16 size_out_cluster_list
                room_out_cluster_list all_out_cluster_list)))))

abbrev pub status_error_rsp_bytes : StatusErrorRspFormat → List ℕ
status_error_rsp_bytes e = lo_byte e.src_addr ∷ hi_byte e.src_addr ∷ e.status ∷ []

abbrev pub IsStatusErrorRsp : StatusErrorRspFormat → Type 0
IsStatusErrorRsp e = e.src_addr < 65536

pub process_status_error_rsp-Reads :
    (e : StatusErrorRspFormat)
    → IsStatusErrorRsp e
    → Reads process_status_error_rsp (status_error_rsp_bytes e) e
unfolding process_status_error_rsp
process_status_error_rsp-Reads e h_src_addr =
    chain _ (take_word-Reads e.src_addr h_src_addr)
      (chain _ (take_byte-Reads e.status) (give-Reads _))

abbrev pub src_rtg_ind_bytes : SrcRtgIndFormat → List ℕ
src_rtg_ind_bytes e =
    lo_byte e.dst_addr ∷ hi_byte e.dst_addr ∷ e.relay_count ∷ list_bytes word_pair e.relay_list

abbrev pub IsSrcRtgInd : SrcRtgIndFormat → Type 0
IsSrcRtgInd e =
    (e.dst_addr < 65536)
    × (e.relay_count ≡ length e.relay_list)
    × (e.relay_count ≤ 255)
    × Each IsWord e.relay_list

pub process_src_rtg_ind-Reads :
    (e : SrcRtgIndFormat) → IsSrcRtgInd e → Reads process_src_rtg_ind (src_rtg_ind_bytes e) e
unfolding process_src_rtg_ind
process_src_rtg_ind-Reads e (h_dst_addr, size_relay_list, room_relay_list, all_relay_list) =
    chain _ (take_word-Reads e.dst_addr h_dst_addr) (
      chain _ (take_byte-Reads e.relay_count) (
        made-Reads _ _ _ e.relay_list (
          take_words-Reads e.relay_count e.relay_list 255 size_relay_list room_relay_list
            all_relay_list)))

-- The members up to `NwkAddr`.
abbrev pub msg_cb_incoming_front : MsgCbIncomingFormat → List ℕ
msg_cb_incoming_front e =
    lo_byte e.src_addr
    ∷ hi_byte e.src_addr
    ∷ e.was_broadcast
    ∷ lo_byte e.cluster_id
    ∷ hi_byte e.cluster_id
    ∷ e.security_use
    ∷ e.seq_num
    ∷ lo_byte e.mac_dst_addr
    ∷ hi_byte e.mac_dst_addr
    ∷ e.status
    ∷ (wide_bytes 8 e.ext_addr ++ (lo_byte e.nwk_addr ∷ hi_byte e.nwk_addr ∷ []))

-- All members, in the order of the struct.
abbrev pub msg_cb_incoming_bytes : MsgCbIncomingFormat → List ℕ
msg_cb_incoming_bytes e = msg_cb_incoming_front e ++ e.not_used ∷ []

-- The handler takes the low byte of `NwkAddr` for `NotUsed`: it reads such messages right in which both
-- are the same.
abbrev pub IsMsgCbIncoming : MsgCbIncomingFormat → Type 0
IsMsgCbIncoming e =
    (e.src_addr < 65536)
    × (e.cluster_id < 65536)
    × (e.mac_dst_addr < 65536)
    × (e.ext_addr < 2 ^ 64)
    × (e.nwk_addr < 65536)
    × (e.not_used ≡ lo_byte e.nwk_addr)

pub process_msg_cb_incoming-Reads :
    (e : MsgCbIncomingFormat)
    → IsMsgCbIncoming e
    → Reads process_msg_cb_incoming (msg_cb_incoming_front e) e
unfolding process_msg_cb_incoming
process_msg_cb_incoming-Reads e
      (h_src_addr, h_cluster_id, h_mac_dst_addr, h_ext_addr, h_nwk_addr, h_not_used) =
    chain _ (take_word-Reads e.src_addr h_src_addr) (
      chain _ (take_byte-Reads e.was_broadcast) (
        chain _ (take_word-Reads e.cluster_id h_cluster_id) (
          chain _ (take_byte-Reads e.security_use) (
            chain _ (take_byte-Reads e.seq_num) (
              chain _ (take_word-Reads e.mac_dst_addr h_mac_dst_addr) (
                chain _ (take_byte-Reads e.status) (
                  chain _ (take_wide-Reads 8 e.ext_addr h_ext_addr) (
                    chain _ (take_word_low-Reads e.nwk_addr e.not_used h_nwk_addr h_not_used)
                      (give-Reads _)))))))))

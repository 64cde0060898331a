-- ===== src/Zdo/Indication/Handlers.antt =====
-- The handlers of framework/mt/Zdo/mtZdo.c for messages about what happens in the network:
-- what each makes of a message from `msgIdx = 2` on.
use znp_host_framework.Mt.Reader.{Reader, give, read_then, take_byte, take_word, take_wide}
use znp_host_framework.Mt.Lists.{take_list, take_word_low}
use znp_host_framework.Zdo.Indication.Responses.{
  MatchDescRspSentFormat, StatusErrorRspFormat, SrcRtgIndFormat, MsgCbIncomingFormat,
}

unfoldable pub process_match_desc_rsp_sent : Reader MatchDescRspSentFormat
process_match_desc_rsp_sent = read_then take_word λ nwk_addr. read_then take_byte λ num_in_clusters.
    read_then (take_list take_word num_in_clusters 16) λ in_cluster_list.
      read_then take_byte λ num_out_clusters.
        read_then (take_list take_word num_out_clusters 16) λ out_cluster_list. give (record {
          nwk_addr = nwk_addr;
          num_in_clusters = num_in_clusters;
          in_cluster_list = in_cluster_list;
          num_out_clusters = num_out_clusters;
          out_cluster_list = out_cluster_list;
        })

unfoldable pub process_status_error_rsp : Reader StatusErrorRspFormat
process_status_error_rsp =
    read_then take_word λ src_addr.
      read_then take_byte λ status. give (record { src_addr = src_addr; status = status })

unfoldable pub process_src_rtg_ind : Reader SrcRtgIndFormat
process_src_rtg_ind = read_then take_word λ dst_addr. read_then take_byte λ relay_count.
    read_then (take_list take_word relay_count 255) λ relay_list.
      give (record { dst_addr = dst_addr; relay_count = relay_count; relay_list = relay_list })

unfoldable pub process_msg_cb_incoming : Reader MsgCbIncomingFormat
process_msg_cb_incoming = read_then take_word λ src_addr. read_then take_byte λ was_broadcast.
    read_then take_word λ cluster_id. read_then take_byte λ security_use.
      read_then take_byte λ seq_num. read_then take_word λ mac_dst_addr.
        read_then take_byte λ status. read_then (take_wide 8 0 0) λ ext_addr.
          read_then take_word_low λ both. give (record {
            src_addr = src_addr;
            was_broadcast = was_broadcast;
            cluster_id = cluster_id;
            security_use = security_use;
            seq_num = seq_num;
            mac_dst_addr = mac_dst_addr;
            status = status;
            ext_addr = ext_addr;
            nwk_addr = both.0;
            not_used = both.1;
          })

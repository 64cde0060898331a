-- ===== src/Zdo/Descriptor/Handlers.antt =====
-- The handlers of framework/mt/Zdo/mtZdo.c for messages about the descriptors of devices:
-- what each makes of a message from `msgIdx = 2` on.
use znp_host_framework.Base.{ℕ}
use znp_host_framework.Mt.Reader.{Reader, give, read_then, take_byte, take_word, take_bytes}
use znp_host_framework.Mt.Lists.{take_list, take_if, take_option}
use znp_host_framework.Zdo.Descriptor.Responses.{
  NodeDescRspFormat, PowerDescRspFormat, SimpleDescRspFormat, MatchDescRspFormat,
  ComplexDescRspFormat, UserDescRspFormat, UserDescConfFormat, SimpleDesc,
}

unfoldable pub take_simple_desc : Reader SimpleDesc
take_simple_desc = read_then take_byte λ endpoint. read_then take_word λ profile_id.
    read_then take_word λ device_id. read_then take_byte λ device_version.
      read_then take_byte λ num_in_clusters.
        read_then (take_list take_word num_in_clusters 16) λ in_cluster_list.
          read_then take_byte λ num_out_clusters.
            read_then (take_list take_word num_out_clusters 16) λ out_cluster_list. give (record {
              endpoint = endpoint;
              profile_id = profile_id;
              device_id = device_id;
              device_version = device_version;
              num_in_clusters = num_in_clusters;
              in_cluster_list = in_cluster_list;
              num_out_clusters = num_out_clusters;
              out_cluster_list = out_cluster_list;
            })

unfoldable pub process_node_desc_rsp : Reader NodeDescRspFormat
process_node_desc_rsp = read_then take_word λ src_addr. read_then take_byte λ status.
    read_then take_word λ nwk_addr. read_then take_byte λ lo_ty_com_desc_av_usr_des_av.
      read_then take_byte λ aps_flg_frq_bnd. read_then take_byte λ mac_cap_flg.
        read_then take_word λ manufacturer_code. read_then take_byte λ max_buffer_size.
          read_then take_word λ max_transfer_size. read_then take_word λ server_mask.
            read_then take_word λ max_out_transfer_size.
              read_then take_byte λ descriptor_capabilities. give (record {
                src_addr = src_addr;
                status = status;
                nwk_addr = nwk_addr;
                lo_ty_com_desc_av_usr_des_av = lo_ty_com_desc_av_usr_des_av;
                aps_flg_frq_bnd = aps_flg_frq_bnd;
                mac_cap_flg = mac_cap_flg;
                manufacturer_code = manufacturer_code;
                max_buffer_size = max_buffer_size;
                max_transfer_size = max_transfer_size;
                server_mask = server_mask;
                max_out_transfer_size = max_out_transfer_size;
                descriptor_capabilities = descriptor_capabilities;
              })

unfoldable pub process_power_desc_rsp : Reader PowerDescRspFormat
process_power_desc_rsp = read_then take_word λ src_addr. read_then take_byte λ status.
    read_then take_word λ nwk_addr. read_then take_byte λ currnt_pwr_mode_aval_pwr_srcs.
      read_then take_byte λ currnt_pwr_src_currnt_pwr_src_lvl. give (record {
        src_addr = src_addr;
        status = status;
        nwk_addr = nwk_addr;
        currnt_pwr_mode_aval_pwr_srcs = currnt_pwr_mode_aval_pwr_srcs;
        currnt_pwr_src_currnt_pwr_src_lvl = currnt_pwr_src_currnt_pwr_src_lvl;
      })

unfoldable pub process_simple_desc_rsp : ℕ → Reader SimpleDescRspFormat
process_simple_desc_rsp rpc_len = read_then take_word λ src_addr. read_then take_byte λ status.
    read_then take_word λ nwk_addr. read_then take_byte λ len.
      read_then (take_option rpc_len 6 take_simple_desc) λ desc. give (record {
        src_addr = src_addr;
        status = status;
        nwk_addr = nwk_addr;
        len = len;
        desc = desc;
      })

unfoldable pub process_match_desc_rsp : ℕ → Reader MatchDescRspFormat
process_match_desc_rsp rpc_len = read_then take_word λ src_addr. read_then take_byte λ status.
    read_then take_word λ nwk_addr. read_then take_byte λ match_length.
      read_then (take_if rpc_len 6 (take_bytes match_length 77)) λ match_list. give (record {
        src_addr = src_addr;
        status = status;
        nwk_addr = nwk_addr;
        match_length = match_length;
        match_list = match_list;
      })

unfoldable pub process_complex_desc_rsp : ℕ → Reader ComplexDescRspFormat
process_complex_desc_rsp rpc_len = read_then take_word λ src_addr. read_then take_byte λ status.
    read_then take_word λ nwk_addr. read_then take_byte λ complex_length.
      read_then (take_if rpc_len 6 (take_bytes complex_length 77)) λ complex_list. give (record {
        src_addr = src_addr;
        status = status;
        nwk_addr = nwk_addr;
        complex_length = complex_length;
        complex_list = complex_list;
      })

unfoldable pub process_user_desc_rsp : ℕ → Reader UserDescRspFormat
process_user_desc_rsp rpc_len = read_then take_word λ src_addr. read_then take_byte λ status.
    read_then take_word λ nwk_addr. read_then take_byte λ len.
      read_then (take_if rpc_len 6 (take_bytes len 77)) λ c_user_descriptor. give (record {
        src_addr = src_addr;
        status = status;
        nwk_addr = nwk_addr;
        len = len;
        c_user_descriptor = c_user_descriptor;
      })

unfoldable pub process_user_desc_conf : Reader UserDescConfFormat
process_user_desc_conf = read_then take_word λ src_addr. read_then take_byte λ status.
    read_then take_word
      λ nwk_addr. give (record { src_addr = src_addr; status = status; nwk_addr = nwk_addr })

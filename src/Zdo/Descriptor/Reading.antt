-- ===== src/Zdo/Descriptor/Reading.antt =====
-- The payload of each message of framework/mt/Zdo/mtZdo.h to the host about the descriptors of devices,
-- and that its handler reads it.
use znp_host_framework.Base.{ℕ, ◌<◌, ◌≤◌, ◌≡◌, List, [], ◌∷◌, ◌++◌, length, Option, none, some}
use znp_host_framework.Base.Bytes.{lo_byte, hi_byte}
use znp_host_framework.Mt.Reader.{
  Reads, chain, give-Reads, take_byte-Reads, take_word-Reads, take_bytes_of,
}
use znp_host_framework.Mt.Lists.{
  take_option, list_bytes, word_pair, Each, IsWord, made-Reads, take_words-Reads, take_if-Reads,
  take_option-Reads,
}
use znp_host_framework.Zdo.Descriptor.Responses.{
  NodeDescRspFormat, PowerDescRspFormat, SimpleDescRspFormat, MatchDescRspFormat,
  ComplexDescRspFormat, UserDescRspFormat, UserDescConfFormat, SimpleDesc,
}
use znp_host_framework.Zdo.Descriptor.Handlers.{
  process_node_desc_rsp, process_power_desc_rsp, process_simple_desc_rsp, process_match_desc_rsp,
  process_complex_desc_rsp, process_user_desc_rsp, process_user_desc_conf, take_simple_desc,
}

abbrev pub simple_desc_bytes : SimpleDesc → List ℕ
simple_desc_bytes e =
    e.endpoint
    ∷ lo_byte e.profile_id
    ∷ hi_byte e.profile_id
    ∷ lo_byte e.device_id
    ∷ hi_byte e.device_id
    ∷ e.device_version
    ∷ e.num_in_clusters
    ∷ (list_bytes word_pair e.in_cluster_list
        ++ (e.num_out_clusters ∷ list_bytes word_pair e.out_cluster_list))

abbrev pub IsSimpleDesc : SimpleDesc → Type 0
IsSimpleDesc e =
    (e.profile_id < 65536)
    × (e.device_id < 65536)
    × (e.num_in_clusters ≡ length e.in_cluster_list)
    × (e.num_in_clusters ≤ 16)
    × Each IsWord e.in_cluster_list
    × (e.num_out_clusters ≡ length e.out_cluster_list)
    × (e.num_out_clusters ≤ 16)
    × Each IsWord e.out_cluster_list

take_simple_desc-Reads :
    (e : SimpleDesc) → IsSimpleDesc e → Reads take_simple_desc (simple_desc_bytes e) e
unfolding take_simple_desc
take_simple_desc-Reads e
      (
        h_profile_id, h_device_id, size_in_cluster_list, room_in_cluster_list, all_in_cluster_list,
        size_out_cluster_list, room_out_cluster_list, all_out_cluster_list,
      ) =
    chain _ (take_byte-Reads e.endpoint) (
      chain _ (take_word-Reads e.profile_id h_profile_id) (
        chain _ (take_word-Reads e.device_id h_device_id) (
          chain _ (take_byte-Reads e.device_version) (
            chain _ (take_byte-Reads e.num_in_clusters) (
              chain _
                (take_words-Reads e.num_in_clusters e.in_cluster_list 16 size_in_cluster_list
                  room_in_cluster_list all_in_cluster_list)
                (chain _ (take_byte-Reads e.num_out_clusters) (
                  made-Reads _ _ _ e.out_cluster_list (
                    take_words-Reads e.num_out_clusters e.out_cluster_list 16 size_out_cluster_list
                      room_out_cluster_list all_out_cluster_list))))))))

-- The second part of a descriptor is there.
abbrev pub desc_bytes : Option SimpleDesc → List ℕ
desc_bytes none = []
desc_bytes (some d) = simple_desc_bytes d

abbrev pub IsDesc : Option SimpleDesc → Type 0
IsDesc none = ⊥
IsDesc (some d) = IsSimpleDesc d

take_desc-Reads :
    (n : ℕ) (o : Option SimpleDesc)
    → 6 < n
    → IsDesc o
    → Reads (take_option n 6 take_simple_desc) (desc_bytes o) o
take_desc-Reads n none more ok = absurd ok
take_desc-Reads n (some d) more ok =
    take_option-Reads n 6 take_simple_desc _ d more (take_simple_desc-Reads d ok)

abbrev pub node_desc_rsp_bytes : NodeDescRspFormat → List ℕ
node_desc_rsp_bytes e =
    lo_byte e.src_addr
    ∷ hi_byte e.src_addr
    ∷ e.status
    ∷ lo_byte e.nwk_addr
    ∷ hi_byte e.nwk_addr
    ∷ e.lo_ty_com_desc_av_usr_des_av
    ∷ e.aps_flg_frq_bnd
    ∷ e.mac_cap_flg
    ∷ lo_byte e.manufacturer_code
    ∷ hi_byte e.manufacturer_code
    ∷ e.max_buffer_size
    ∷ lo_byte e.max_transfer_size
    ∷ hi_byte e.max_transfer_size
    ∷ lo_byte e.server_mask
    ∷ hi_byte e.server_mask
    ∷ lo_byte e.max_out_transfer_size
    ∷ hi_byte e.max_out_transfer_size
    ∷ e.descriptor_capabilities
    ∷ []

abbrev pub IsNodeDescRsp : NodeDescRspFormat → Type 0
IsNodeDescRsp e =
    (e.src_addr < 65536)
    × (e.nwk_addr < 65536)
    × (e.manufacturer_code < 65536)
    × (e.max_transfer_size < 65536)
    × (e.server_mask < 65536)
    × (e.max_out_transfer_size < 65536)

pub process_node_desc_rsp-Reads :
    (e : NodeDescRspFormat)
    → IsNodeDescRsp e
    → Reads process_node_desc_rsp (node_desc_rsp_bytes e) e
unfolding process_node_desc_rsp
process_node_desc_rsp-Reads e
      (
        h_src_addr, h_nwk_addr, h_manufacturer_code, h_max_transfer_size, h_server_mask,
        h_max_out_transfer_size,
      ) =
    chain _ (take_word-Reads e.src_addr h_src_addr) (
      chain _ (take_byte-Reads e.status) (
        chain _ (take_word-Reads e.nwk_addr h_nwk_addr) (
          chain _ (take_byte-Reads e.lo_ty_com_desc_av_usr_des_av) (
            chain _ (take_byte-Reads e.aps_flg_frq_bnd) (
              chain _ (take_byte-Reads e.mac_cap_flg) (
                chain _ (take_word-Reads e.manufacturer_code h_manufacturer_code) (
                  chain _ (take_byte-Reads e.max_buffer_size) (
                    chain _ (take_word-Reads e.max_transfer_size h_max_transfer_size) (
                      chain _ (take_word-Reads e.server_mask h_server_mask) (
                        chain _ (take_word-Reads e.max_out_transfer_size h_max_out_transfer_size) (
                          chain _ (take_byte-Reads e.descriptor_capabilities)
                            (give-Reads _))))))))))))

abbrev pub power_desc_rsp_bytes : PowerDescRspFormat → List ℕ
power_desc_rsp_bytes e =
    lo_byte e.src_addr
    ∷ hi_byte e.src_addr
    ∷ e.status
    ∷ lo_byte e.nwk_addr
    ∷ hi_byte e.nwk_addr
    ∷ e.currnt_pwr_mode_aval_pwr_srcs
    ∷ e.currnt_pwr_src_currnt_pwr_src_lvl
    ∷ []

abbrev pub IsPowerDescRsp : PowerDescRspFormat → Type 0
IsPowerDescRsp e = (e.src_addr < 65536) × (e.nwk_addr < 65536)

pub process_power_desc_rsp-Reads :
    (e : PowerDescRspFormat)
    → IsPowerDescRsp e
    → Reads process_power_desc_rsp (power_desc_rsp_bytes e) e
unfolding process_power_desc_rsp
process_power_desc_rsp-Reads e (h_src_addr, h_nwk_addr) =
    chain _ (take_word-Reads e.src_addr h_src_addr) (
      chain _ (take_byte-Reads e.status) (
        chain _ (take_word-Reads e.nwk_addr h_nwk_addr) (
          chain _ (take_byte-Reads e.currnt_pwr_mode_aval_pwr_srcs)
            (chain _ (take_byte-Reads e.currnt_pwr_src_currnt_pwr_src_lvl) (give-Reads _)))))

abbrev pub simple_desc_rsp_bytes : SimpleDescRspFormat → List ℕ
simple_desc_rsp_bytes e =
    lo_byte e.src_addr
    ∷ hi_byte e.src_addr
    ∷ e.status
    ∷ lo_byte e.nwk_addr
    ∷ hi_byte e.nwk_addr
    ∷ e.len
    ∷ desc_bytes e.desc

abbrev pub IsSimpleDescRsp : SimpleDescRspFormat → Type 0
IsSimpleDescRsp e = (e.src_addr < 65536) × (e.nwk_addr < 65536) × IsDesc e.desc

pub process_simple_desc_rsp-Reads :
    (e : SimpleDescRspFormat) (n : ℕ)
    → 6 < n
    → IsSimpleDescRsp e
    → Reads (process_simple_desc_rsp n) (simple_desc_rsp_bytes e) e
unfolding process_simple_desc_rsp
process_simple_desc_rsp-Reads e n more (h_src_addr, h_nwk_addr, h_desc) =
    chain _ (take_word-Reads e.src_addr h_src_addr) (
      chain _ (take_byte-Reads e.status) (
        chain _ (take_word-Reads e.nwk_addr h_nwk_addr) (
          chain _ (take_byte-Reads e.len)
            (made-Reads _ _ _ e.desc (take_desc-Reads n e.desc more h_desc)))))

abbrev pub match_desc_rsp_bytes : MatchDescRspFormat → List ℕ
match_desc_rsp_bytes e =
    lo_byte e.src_addr
    ∷ hi_byte e.src_addr
    ∷ e.status
    ∷ lo_byte e.nwk_addr
    ∷ hi_byte e.nwk_addr
    ∷ e.match_length
    ∷ e.match_list

abbrev pub IsMatchDescRsp : MatchDescRspFormat → Type 0
IsMatchDescRsp e =
    (e.src_addr < 65536)
    × (e.nwk_addr < 65536)
    × (e.match_length ≡ length e.match_list)
    × (e.match_length ≤ 77)

pub process_match_desc_rsp-Reads :
    (e : MatchDescRspFormat) (n : ℕ)
    → 6 < n
    → IsMatchDescRsp e
    → Reads (process_match_desc_rsp n) (match_desc_rsp_bytes e) e
unfolding process_match_desc_rsp
process_match_desc_rsp-Reads e n more (h_src_addr, h_nwk_addr, size_match_list, room_match_list) =
    chain _ (take_word-Reads e.src_addr h_src_addr) (
      chain _ (take_byte-Reads e.status) (
        chain _ (take_word-Reads e.nwk_addr h_nwk_addr) (
          chain _ (take_byte-Reads e.match_length) (
            made-Reads _ _ _ e.match_list (
              take_if-Reads n 6 _ _ e.match_list more
                (take_bytes_of e.match_length e.match_list 77 size_match_list room_match_list))))))

abbrev pub complex_desc_rsp_bytes : ComplexDescRspFormat → List ℕ
complex_desc_rsp_bytes e =
    lo_byte e.src_addr
    ∷ hi_byte e.src_addr
    ∷ e.status
    ∷ lo_byte e.nwk_addr
    ∷ hi_byte e.nwk_addr
    ∷ e.complex_length
    ∷ e.complex_list

abbrev pub IsComplexDescRsp : ComplexDescRspFormat → Type 0
IsComplexDescRsp e =
    (e.src_addr < 65536)
    × (e.nwk_addr < 65536)
    × (e.complex_length ≡ length e.complex_list)
    × (e.complex_length ≤ 77)

pub process_complex_desc_rsp-Reads :
    (e : ComplexDescRspFormat) (n : ℕ)
    → 6 < n
    → IsComplexDescRsp e
    → Reads (process_complex_desc_rsp n) (complex_desc_rsp_bytes e) e
unfolding process_complex_desc_rsp
process_complex_desc_rsp-Reads e n more
      (h_src_addr, h_nwk_addr, size_complex_list, room_complex_list) =
    chain _ (take_word-Reads e.src_addr h_src_addr) (
      chain _ (take_byte-Reads e.status) (
        chain _ (take_word-Reads e.nwk_addr h_nwk_addr) (
          chain _ (take_byte-Reads e.complex_length) (
            made-Reads _ _ _ e.complex_list (
              take_if-Reads n 6 _ _ e.complex_list more (
                take_bytes_of e.complex_length e.complex_list 77 size_complex_list
                  room_complex_list))))))

abbrev pub user_desc_rsp_bytes : UserDescRspFormat → List ℕ
user_desc_rsp_bytes e =
    lo_byte e.src_addr
    ∷ hi_byte e.src_addr
    ∷ e.status
    ∷ lo_byte e.nwk_addr
    ∷ hi_byte e.nwk_addr
    ∷ e.len
    ∷ e.c_user_descriptor

abbrev pub IsUserDescRsp : UserDescRspFormat → Type 0
IsUserDescRsp e =
    (e.src_addr < 65536)
    × (e.nwk_addr < 65536)
    × (e.len ≡ length e.c_user_descriptor)
    × (e.len ≤ 77)

pub process_user_desc_rsp-Reads :
    (e : UserDescRspFormat) (n : ℕ)
    → 6 < n
    → IsUserDescRsp e
    → Reads (process_user_desc_rsp n) (user_desc_rsp_bytes e) e
unfolding process_user_desc_rsp
process_user_desc_rsp-Reads e n more
      (h_src_addr, h_nwk_addr, size_c_user_descriptor, room_c_user_descriptor) =
    chain _ (take_word-Reads e.src_addr h_src_addr) (
      chain _ (take_byte-Reads e.status) (
        chain _ (take_word-Reads e.nwk_addr h_nwk_addr) (
          chain _ (take_byte-Reads e.len) (
            made-Reads _ _ _ e.c_user_descriptor (
              take_if-Reads n 6 _ _ e.c_user_descriptor more (
                take_bytes_of e.len e.c_user_descriptor 77 size_c_user_descriptor
                  room_c_user_descriptor))))))

abbrev pub user_desc_conf_bytes : UserDescConfFormat → List ℕ
user_desc_conf_bytes e =
    lo_byte e.src_addr
    ∷ hi_byte e.src_addr
    ∷ e.status
    ∷ lo_byte e.nwk_addr
    ∷ hi_byte e.nwk_addr
    ∷ []

abbrev pub IsUserDescConf : UserDescConfFormat → Type 0
IsUserDescConf e = (e.src_addr < 65536) × (e.nwk_addr < 65536)

pub process_user_desc_conf-Reads :
    (e : UserDescConfFormat)
    → IsUserDescConf e
    → Reads process_user_desc_conf (user_desc_conf_bytes e) e
unfolding process_user_desc_conf
process_user_desc_conf-Reads e (h_src_addr, h_nwk_addr) =
    chain _ (take_word-Reads e.src_addr h_src_addr) (
      chain _ (take_byte-Reads e.status)
        (chain _ (take_word-Reads e.nwk_addr h_nwk_addr) (give-Reads _)))

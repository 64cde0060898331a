-- ===== src/Zdo/Descriptor/Responses.antt =====
-- The messages of framework/mt/Zdo/mtZdo.h to the host about the descriptors of devices.
-- `SimpleDesc` has the members of `SimpleDescRspFormat_t` that a short message leaves unset.
use znp_host_framework.Base.{ℕ, List, Option}

pub record SimpleDesc : Type 0 where
  pub endpoint : ℕ
  pub profile_id : ℕ
  pub device_id : ℕ
  pub device_version : ℕ
  pub num_in_clusters : ℕ
  pub in_cluster_list : List ℕ
  pub num_out_clusters : ℕ
  pub out_cluster_list : List ℕ

pub record NodeDescRspFormat : Type 0 where
  pub src_addr : ℕ
  pub status : ℕ
  pub nwk_addr : ℕ
  pub lo_ty_com_desc_av_usr_des_av : ℕ
  pub aps_flg_frq_bnd : ℕ
  pub mac_cap_flg : ℕ
  pub manufacturer_code : ℕ
  pub max_buffer_size : ℕ
  pub max_transfer_size : ℕ
  pub server_mask : ℕ
  pub max_out_transfer_size : ℕ
  pub descriptor_capabilities : ℕ

pub record PowerDescRspFormat : Type 0 where
  pub src_addr : ℕ
  pub status : ℕ
  pub nwk_addr : ℕ
  pub currnt_pwr_mode_aval_pwr_srcs : ℕ
  pub currnt_pwr_src_currnt_pwr_src_lvl : ℕ

pub record SimpleDescRspFormat : Type 0 where
  pub src_addr : ℕ
  pub status : ℕ
  pub nwk_addr : ℕ
  pub len : ℕ
  pub desc : Option SimpleDesc

pub record MatchDescRspFormat : Type 0 where
  pub src_addr : ℕ
  pub status : ℕ
  pub nwk_addr : ℕ
  pub match_length : ℕ
  pub match_list : List ℕ

pub record ComplexDescRspFormat : Type 0 where
  pub src_addr : ℕ
  pub status : ℕ
  pub nwk_addr : ℕ
  pub complex_length : ℕ
  pub complex_list : List ℕ

pub record UserDescRspFormat : Type 0 where
  pub src_addr : ℕ
  pub status : ℕ
  pub nwk_addr : ℕ
  pub len : ℕ
  pub c_user_descriptor : List ℕ

pub record UserDescConfFormat : Type 0 where
  pub src_addr : ℕ
  pub status : ℕ
  pub nwk_addr : ℕ

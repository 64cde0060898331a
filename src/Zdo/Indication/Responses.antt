-- ===== src/Zdo/Indication/Responses.antt =====
-- The messages of framework/mt/Zdo/mtZdo.h to the host about what happens in the network.
use znp_host_framework.Base.{ℕ, List}

pub record MatchDescRspSentFormat : Type 0 where
  pub nwk_addr : ℕ
  pub num_in_clusters : ℕ
  pub in_cluster_list : List ℕ
  pub num_out_clusters : ℕ
  pub out_cluster_list : List ℕ

pub record StatusErrorRspFormat : Type 0 where
  pub src_addr : ℕ
  pub status : ℕ

pub record SrcRtgIndFormat : Type 0 where
  pub dst_addr : ℕ
  pub relay_count : ℕ
  pub relay_list : List ℕ

pub record MsgCbIncomingFormat : Type 0 where
  pub src_addr : ℕ
  pub was_broadcast : ℕ
  pub cluster_id : ℕ
  pub security_use : ℕ
  pub seq_num : ℕ
  pub mac_dst_addr : ℕ
  pub status : ℕ
  pub ext_addr : ℕ
  pub nwk_addr : ℕ
  pub not_used : ℕ

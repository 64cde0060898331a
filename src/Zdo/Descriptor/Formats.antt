-- ===== src/Zdo/Descriptor/Formats.antt =====
-- The structs of framework/mt/Zdo/mtZdo.h for the requests about the descriptors of devices.
use znp_host_framework.Base.{ℕ, List}

pub record NodeDescReqFormat : Type 0 where
  pub dst_addr : ℕ
  pub nwk_addr_of_interest : ℕ

pub record PowerDescReqFormat : Type 0 where
  pub dst_addr : ℕ
  pub nwk_addr_of_interest : ℕ

pub record SimpleDescReqFormat : Type 0 where
  pub dst_addr : ℕ
  pub nwk_addr_of_interest : ℕ
  pub endpoint : ℕ

pub record MatchDescReqFormat : Type 0 where
  pub dst_addr : ℕ
  pub nwk_addr_of_interest : ℕ
  pub profile_id : ℕ
  pub num_in_clusters : ℕ
  pub in_cluster_list : List ℕ
  pub num_out_clusters : ℕ
  pub out_cluster_list : List ℕ

pub record ComplexDescReqFormat : Type 0 where
  pub dst_addr : ℕ
  pub nwk_addr_of_interest : ℕ

pub record UserDescReqFormat : Type 0 where
  pub dst_addr : ℕ
  pub nwk_addr_of_interest : ℕ

pub record UserDescSetFormat : Type 0 where
  pub dst_addr : ℕ
  pub nwk_addr_of_interest : ℕ
  pub len : ℕ
  pub user_descriptor : List ℕ

-- ===== src/Zdo/Binding/Formats.antt =====
-- The structs of framework/mt/Zdo/mtZdo.h for the requests about bindings and link keys.
use znp_host_framework.Base.{ℕ, List}

pub record EndDeviceBindReqFormat : Type 0 where
  pub dst_addr : ℕ
  pub local_coordinator : ℕ
  pub coordinator_ieee : List ℕ
  pub end_point : ℕ
  pub profile_id : ℕ
  pub num_in_clusters : ℕ
  pub in_cluster_list : List ℕ
  pub num_out_clusters : ℕ
  pub out_cluster_list : List ℕ

pub record BindReqFormat : Type 0 where
  pub dst_addr : ℕ
  pub src_address : List ℕ
  pub src_endpoint : ℕ
  pub cluster_id : ℕ
  pub dst_addr_mode : ℕ
  pub dst_address : List ℕ
  pub dst_endpoint : ℕ

pub record UnbindReqFormat : Type 0 where
  pub dst_addr : ℕ
  pub src_address : List ℕ
  pub src_endpoint : ℕ
  pub cluster_id : ℕ
  pub dst_addr_mode : ℕ
  pub dst_address : List ℕ
  pub dst_endpoint : ℕ

pub record SetLinkKeyFormat : Type 0 where
  pub short_addr : ℕ
  pub ieee_addr : List ℕ
  pub link_key_data : List ℕ

pub record RemoveLinkKeyFormat : Type 0 where
  pub ieee_addr : List ℕ

pub record GetLinkKeyFormat : Type 0 where
  pub ieee_addr : List ℕ

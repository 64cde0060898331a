-- ===== src/Zdo/Network/Responses.antt =====
-- The messages of framework/mt/Zdo/mtZdo.h to the host about starting, joining and leaving a network.
use znp_host_framework.Base.{ℕ, List}

pub record BeaconListItemFormat : Type 0 where
  pub src_addr : ℕ
  pub pan_id : ℕ
  pub logical_channel : ℕ
  pub permit_joining : ℕ
  pub router_cap : ℕ
  pub dev_cap : ℕ
  pub protocol_ver : ℕ
  pub stack_prof : ℕ
  pub lqi : ℕ
  pub depth : ℕ
  pub update_id : ℕ
  pub extended_pan_id : ℕ

pub record EndDeviceAnnceIndFormat : Type 0 where
  pub src_addr : ℕ
  pub nwk_addr : ℕ
  pub ieee_addr : ℕ
  pub capabilities : ℕ

pub record BeaconNotifyIndFormat : Type 0 where
  pub beacon_count : ℕ
  pub beacon_list : List BeaconListItemFormat

pub record JoinCnfFormat : Type 0 where
  pub status : ℕ
  pub dev_addr : ℕ
  pub parent_addr : ℕ

pub record NwkDiscoveryCnfFormat : Type 0 where
  pub status : ℕ

pub record LeaveIndFormat : Type 0 where
  pub src_addr : ℕ
  pub ext_addr : ℕ
  pub request : ℕ
  pub remove : ℕ
  pub rejoin : ℕ

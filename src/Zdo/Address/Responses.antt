-- ===== src/Zdo/Address/Responses.antt =====
-- The messages of framework/mt/Zdo/mtZdo.h to the host about the addresses and endpoints of devices.
use znp_host_framework.Base.{ℕ, List}

pub record NwkAddrRspFormat : Type 0 where
  pub status : ℕ
  pub ieee_addr : ℕ
  pub nwk_addr : ℕ
  pub start_index : ℕ
  pub num_assoc_dev : ℕ
  pub assoc_dev_list : List ℕ

pub record IeeeAddrRspFormat : Type 0 where
  pub status : ℕ
  pub ieee_addr : ℕ
  pub nwk_addr : ℕ
  pub start_index : ℕ
  pub num_assoc_dev : ℕ
  pub assoc_dev_list : List ℕ

pub record ActiveEpRspFormat : Type 0 where
  pub src_addr : ℕ
  pub status : ℕ
  pub nwk_addr : ℕ
  pub active_ep_count : ℕ
  pub active_ep_list : List ℕ

pub record ServerDiscRspFormat : Type 0 where
  pub src_addr : ℕ
  pub status : ℕ
  pub server_mask : ℕ

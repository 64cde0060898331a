-- ===== src/Zdo/Management/Formats.antt =====
-- The structs of framework/mt/Zdo/mtZdo.h for the requests about the management of a network.
use znp_host_framework.Base.{ℕ, List}

pub record MgmtNwkDiscReqFormat : Type 0 where
  pub dst_addr : ℕ
  pub scan_channels : List ℕ
  pub scan_duration : ℕ
  pub start_index : ℕ

pub record MgmtLqiReqFormat : Type 0 where
  pub dst_addr : ℕ
  pub start_index : ℕ

pub record MgmtRtgReqFormat : Type 0 where
  pub dst_addr : ℕ
  pub start_index : ℕ

pub record MgmtBindReqFormat : Type 0 where
  pub dst_addr : ℕ
  pub start_index : ℕ

pub record MgmtLeaveReqFormat : Type 0 where
  pub dst_addr : ℕ
  pub device_addr : List ℕ
  pub remove_childre_rejoin : ℕ

pub record MgmtDirectJoinReqFormat : Type 0 where
  pub dst_addr : ℕ
  pub device_addr : List ℕ
  pub cap_info : ℕ

pub record MgmtPermitJoinReqFormat : Type 0 where
  pub addr_mode : ℕ
  pub dst_addr : ℕ
  pub duration : ℕ
  pub tc_significance : ℕ

pub record MgmtNwkUpdateReqFormat : Type 0 where
  pub dst_addr : ℕ
  pub dst_addr_mode : ℕ
  pub channel_mask : List ℕ
  pub scan_duration : ℕ
  pub scan_count : ℕ
  pub nwk_manager_addr : ℕ

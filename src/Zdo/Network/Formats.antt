-- ===== src/Zdo/Network/Formats.antt =====
-- The structs of framework/mt/Zdo/mtZdo.h for the requests about starting, joining and leaving a network.
use znp_host_framework.Base.{ℕ, List}

pub record StartupFromAppFormat : Type 0 where
  pub start_delay : ℕ

pub record AutoFindDestinationFormat : Type 0 where
  pub endpoint : ℕ

pub record NwkDiscoveryReqFormat : Type 0 where
  pub scan_channels : List ℕ
  pub scan_duration : ℕ

pub record JoinReqFormat : Type 0 where
  pub logical_channel : ℕ
  pub pan_id : ℕ
  pub extended_pan_id : List ℕ
  pub chosen_parent : ℕ
  pub parent_depth : ℕ
  pub stack_profile : ℕ

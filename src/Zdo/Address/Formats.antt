-- ===== src/Zdo/Address/Formats.antt =====
-- The structs of framework/mt/Zdo/mtZdo.h for the requests about the addresses and endpoints of devices.
use znp_host_framework.Base.{ℕ, List}

pub record NwkAddrReqFormat : Type 0 where
  pub ieee_address : List ℕ
  pub req_type : ℕ
  pub start_index : ℕ

pub record IeeeAddrReqFormat : Type 0 where
  pub short_addr : ℕ
  pub req_type : ℕ
  pub start_index : ℕ

pub record ActiveEpReqFormat : Type 0 where
  pub dst_addr : ℕ
  pub nwk_addr_of_interest : ℕ

pub record ServerDiscReqFormat : Type 0 where
  pub server_mask : ℕ

pub record DeviceAnnceFormat : Type 0 where
  pub nwk_addr : ℕ
  pub ieee_addr : List ℕ
  pub capabilities : ℕ

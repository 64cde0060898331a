-- ===== src/Zdo/Binding/Responses.antt =====
-- The messages of framework/mt/Zdo/mtZdo.h to the host about bindings and link keys.
use znp_host_framework.Base.{ℕ, List}

pub record EndDeviceBindRspFormat : Type 0 where
  pub src_addr : ℕ
  pub status : ℕ

pub record BindRspFormat : Type 0 where
  pub src_addr : ℕ
  pub status : ℕ

pub record UnbindRspFormat : Type 0 where
  pub src_addr : ℕ
  pub status : ℕ

pub record GetLinkKeySrspFormat : Type 0 where
  pub status : ℕ
  pub ieee_addr : ℕ
  pub link_key_data : List ℕ

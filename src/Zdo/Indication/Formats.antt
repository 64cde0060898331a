-- ===== src/Zdo/Indication/Formats.antt =====
-- The structs of framework/mt/Zdo/mtZdo.h for the requests about messages passed on.
use znp_host_framework.Base.{ℕ}

pub record MsgCbRegisterFormat : Type 0 where
  pub cluster_id : ℕ

pub record MsgCbRemoveFormat : Type 0 where
  pub cluster_id : ℕ

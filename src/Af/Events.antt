-- ===== src/Af/Events.antt =====
-- The structs of framework/mt/Af/mtAf.h that the callbacks get, and the callbacks.
use znp_host_framework.Base.{ℕ, List, Bool}

pub record DataConfirmFormat : Type 0 where
  pub status : ℕ
  pub endpoint : ℕ
  pub trans_id : ℕ

-- `bytes` is the part of the array `Data` that is filled.
pub record IncomingMsgFormat : Type 0 where
  pub group_id : ℕ
  pub cluster_id : ℕ
  pub src_addr : ℕ
  pub src_endpoint : ℕ
  pub dst_endpoint : ℕ
  pub was_vroadcast : ℕ
  pub link_quality : ℕ
  pub security_use : ℕ
  pub time_stamp : ℕ
  pub trans_seq_num : ℕ
  pub len : ℕ
  pub bytes : List ℕ

pub record IncomingMsgExtFormat : Type 0 where
  pub group_id : ℕ
  pub cluster_id : ℕ
  pub src_addr_mode : ℕ
  pub src_addr : ℕ
  pub src_endpoint : ℕ
  pub src_pan_id : ℕ
  pub dst_endpoint : ℕ
  pub was_vroadcast : ℕ
  pub link_quality : ℕ
  pub security_use : ℕ
  pub time_stamp : ℕ
  pub trans_seq_num : ℕ
  pub len : ℕ
  pub bytes : List ℕ

pub record DataRetrieveSrspFormat : Type 0 where
  pub status : ℕ
  pub len : ℕ
  pub bytes : List ℕ

pub record ReflectErrorFormat : Type 0 where
  pub status : ℕ
  pub endpoint : ℕ
  pub trans_id : ℕ
  pub dst_addr_mode : ℕ
  pub dst_addr : ℕ

-- A call of a callback, with the struct that it gets.
pub data AfEvent : Type 0 where
  data_confirm : DataConfirmFormat → AfEvent
  incoming_msg : IncomingMsgFormat → AfEvent
  incoming_msg_ext : IncomingMsgExtFormat → AfEvent
  data_retrieve_srsp : DataRetrieveSrspFormat → AfEvent
  reflect_error : ReflectErrorFormat → AfEvent

-- `mtAfCbs`: which of the pointers are not null.
pub record AfCallbacks : Type 0 where
  pub pfn_data_confirm : Bool
  pub pfn_incoming_msg : Bool
  pub pfn_incoming_msg_ext : Bool
  pub pfn_data_retrieve_srsp : Bool
  pub pfn_reflect_error : Bool

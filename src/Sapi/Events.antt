-- ===== src/Sapi/Events.antt =====
-- The structs of framework/mt/Sapi/mtSapi.h that the callbacks get, and the callbacks.
use znp_host_framework.Base.{ℕ, List, Bool}

-- `value` is the part of the array that is filled.
pub record ReadConfigurationSrspFormat : Type 0 where
  pub status : ℕ
  pub config_id : ℕ
  pub len : ℕ
  pub value : List ℕ

pub record GetDeviceInfoSrspFormat : Type 0 where
  pub param : ℕ
  pub value : List ℕ

pub record FindDeviceCnfFormat : Type 0 where
  pub search_key : ℕ
  pub result : ℕ

pub record SendDataCnfFormat : Type 0 where
  pub handle : ℕ
  pub status : ℕ

pub record ReceiveDataIndFormat : Type 0 where
  pub source : ℕ
  pub command : ℕ
  pub len : ℕ
  pub bytes : List ℕ

pub record AllowBindCnfFormat : Type 0 where
  pub source : ℕ

pub record BindCnfFormat : Type 0 where
  pub command_id : ℕ
  pub status : ℕ

pub record StartCnfFormat : Type 0 where
  pub status : ℕ

-- A call of a callback, with the struct that it gets.
pub data SapiEvent : Type 0 where
  read_configuration_srsp : ReadConfigurationSrspFormat → SapiEvent
  get_device_info_srsp : GetDeviceInfoSrspFormat → SapiEvent
  find_device_cnf : FindDeviceCnfFormat → SapiEvent
  send_data_cnf : SendDataCnfFormat → SapiEvent
  receive_data_ind : ReceiveDataIndFormat → SapiEvent
  allow_bind_cnf : AllowBindCnfFormat → SapiEvent
  bind_cnf : BindCnfFormat → SapiEvent
  start_cnf : StartCnfFormat → SapiEvent

-- `mtSapiCbs`: which of the pointers are not null.
pub record SapiCallbacks : Type 0 where
  pub pfn_read_configuration_srsp : Bool
  pub pfn_get_device_info_srsp : Bool
  pub pfn_find_device_cnf : Bool
  pub pfn_send_data_cnf : Bool
  pub pfn_receive_data_ind : Bool
  pub pfn_allow_bind_cnf : Bool
  pub pfn_bind_cnf : Bool
  pub pfn_start_cnf : Bool

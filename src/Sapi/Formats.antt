-- ===== src/Sapi/Formats.antt =====
-- The structs of framework/mt/Sapi/mtSapi.h that the request functions take. An array is a list.
use znp_host_framework.Base.{ℕ, List}

pub record AppRegisterReqFormat : Type 0 where
  pub app_endpoint : ℕ
  pub app_profile_id : ℕ
  pub device_id : ℕ
  pub device_version : ℕ
  pub unused : ℕ
  pub input_commands_num : ℕ
  pub input_commands_list : List ℕ
  pub output_commands_num : ℕ
  pub output_commands_list : List ℕ

pub record PermitJoiningReqFormat : Type 0 where
  pub destination : ℕ
  pub timeout : ℕ

pub record BindDeviceFormat : Type 0 where
  pub create : ℕ
  pub command_id : ℕ
  pub dst_ieee : List ℕ

pub record AllowBindFormat : Type 0 where
  pub timeout : ℕ

pub record SendDataReqFormat : Type 0 where
  pub destination : ℕ
  pub command_id : ℕ
  pub handle : ℕ
  pub ack : ℕ
  pub radius : ℕ
  pub len : ℕ
  pub bytes : List ℕ

pub record FindDeviceReqFormat : Type 0 where
  pub search_key : List ℕ

pub record WriteConfigurationFormat : Type 0 where
  pub config_id : ℕ
  pub len : ℕ
  pub value : List ℕ

pub record GetDeviceInfoFormat : Type 0 where
  pub param : ℕ

pub record ReadConfigurationFormat : Type 0 where
  pub config_id : ℕ

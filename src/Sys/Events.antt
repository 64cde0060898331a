-- ===== src/Sys/Events.antt =====
-- The messages of framework/mt/Sys/mtSys.h to the host, and `mtSysCb_t`.
use znp_host_framework.Base.{ℕ, List, Bool}

pub record PingSrspFormat : Type 0 where
  pub capabilities : ℕ

pub record GetExtAddrSrspFormat : Type 0 where
  pub ext_addr : ℕ

pub record RamReadSrspFormat : Type 0 where
  pub status : ℕ
  pub len : ℕ
  pub value : List ℕ

pub record ResetIndFormat : Type 0 where
  pub reason : ℕ
  pub transport_rev : ℕ
  pub product_id : ℕ
  pub major_rel : ℕ
  pub minor_rel : ℕ
  pub hw_rev : ℕ

pub record VersionSrspFormat : Type 0 where
  pub transport_rev : ℕ
  pub product : ℕ
  pub major_rel : ℕ
  pub minor_rel : ℕ
  pub maint_rel : ℕ

pub record OsalNvReadSrspFormat : Type 0 where
  pub status : ℕ
  pub len : ℕ
  pub value : List ℕ

pub record OsalNvLengthSrspFormat : Type 0 where
  pub item_len : ℕ

pub record OsalTimerExpiredFormat : Type 0 where
  pub id : ℕ

pub record StackTuneSrspFormat : Type 0 where
  pub value : ℕ

pub record AdcReadSrspFormat : Type 0 where
  pub value : ℕ

pub record GpioSrspFormat : Type 0 where
  pub value : ℕ

pub record RandomSrspFormat : Type 0 where
  pub value : ℕ

pub record GetTimeSrspFormat : Type 0 where
  pub utc_time : ℕ
  pub hour : ℕ
  pub minute : ℕ
  pub second : ℕ
  pub month : ℕ
  pub day : ℕ
  pub year : ℕ

pub record SetTxPowerSrspFormat : Type 0 where
  pub tx_power : ℕ

-- A call of a callback with the struct it is given.
pub data SysEvent : Type 0 where
  ping_srsp : PingSrspFormat → SysEvent
  get_ext_addr_srsp : GetExtAddrSrspFormat → SysEvent
  ram_read_srsp : RamReadSrspFormat → SysEvent
  reset_ind : ResetIndFormat → SysEvent
  version_srsp : VersionSrspFormat → SysEvent
  osal_nv_read_srsp : OsalNvReadSrspFormat → SysEvent
  osal_nv_length_srsp : OsalNvLengthSrspFormat → SysEvent
  osal_timer_expired : OsalTimerExpiredFormat → SysEvent
  stack_tune_srsp : StackTuneSrspFormat → SysEvent
  adc_read_srsp : AdcReadSrspFormat → SysEvent
  gpio_srsp : GpioSrspFormat → SysEvent
  random_srsp : RandomSrspFormat → SysEvent
  get_time_srsp : GetTimeSrspFormat → SysEvent
  set_tx_power_srsp : SetTxPowerSrspFormat → SysEvent

-- Which callbacks are registered.
pub record SysCallbacks : Type 0 where
  pub pfn_sys_ping_srsp : Bool
  pub pfn_sys_get_ext_addr_srsp : Bool
  pub pfn_sys_ram_read_srsp : Bool
  pub pfn_sys_reset_ind : Bool
  pub pfn_sys_version_srsp : Bool
  pub pfn_sys_osal_nv_read_srsp : Bool
  pub pfn_sys_osal_nv_length_srsp : Bool
  pub pfn_sys_osal_timer_expired : Bool
  pub pfn_sys_stack_tune_srsp : Bool
  pub pfn_sys_adc_read_srsp : Bool
  pub pfn_sys_gpio_srsp : Bool
  pub pfn_sys_random_srsp : Bool
  pub pfn_sys_get_time_srsp : Bool
  pub pfn_sys_set_tx_power_srsp : Bool

-- `sysRegisterCallbacks`: all callbacks at once, whatever was registered before.
unfoldable pub sys_register_callbacks : SysCallbacks → SysCallbacks → SysCallbacks
sys_register_callbacks mt_sys_cbs cbs = cbs

-- ===== src/Sys/Formats.antt =====
-- The structs of framework/mt/Sys/mtSys.h for the requests.
use znp_host_framework.Base.{ℕ, List}

pub record SetExtAddrFormat : Type 0 where
  pub ext_addr : List ℕ

pub record RamReadFormat : Type 0 where
  pub address : ℕ
  pub len : ℕ

pub record RamWriteFormat : Type 0 where
  pub address : ℕ
  pub len : ℕ
  pub value : List ℕ

pub record ResetReqFormat : Type 0 where
  pub type : ℕ

pub record OsalNvReadFormat : Type 0 where
  pub id : ℕ
  pub offset : ℕ

pub record OsalNvWriteFormat : Type 0 where
  pub id : ℕ
  pub offset : ℕ
  pub len : ℕ
  pub value : List ℕ

pub record OsalNvItemInitFormat : Type 0 where
  pub id : ℕ
  pub item_len : ℕ
  pub init_len : ℕ
  pub init_data : List ℕ

pub record OsalNvDeleteFormat : Type 0 where
  pub id : ℕ
  pub item_len : ℕ

pub record OsalNvLengthFormat : Type 0 where
  pub id : ℕ

pub record OsalStartTimerFormat : Type 0 where
  pub id : ℕ
  pub timeout : ℕ

pub record OsalStopTimerFormat : Type 0 where
  pub id : ℕ

pub record StackTuneFormat : Type 0 where
  pub operation : ℕ
  pub value : ℕ

pub record AdcReadFormat : Type 0 where
  pub channel : ℕ
  pub resolution : ℕ

pub record GpioFormat : Type 0 where
  pub operation : ℕ
  pub value : ℕ

pub record SetTimeFormat : Type 0 where
  pub utc_time : List ℕ
  pub hour : ℕ
  pub minute : ℕ
  pub second : ℕ
  pub month : ℕ
  pub day : ℕ
  pub year : ℕ

pub record SetTxPowerFormat : Type 0 where
  pub tx_power : ℕ

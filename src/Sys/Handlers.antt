-- ===== src/Sys/Handlers.antt =====
-- The handlers of framework/mt/Sys/mtSys.c: what each makes of a message from `msgIdx = 2` on.
use znp_host_framework.Base.{ℕ}
use znp_host_framework.Mt.Reader.{
  Reader, give, read_then, take_byte, take_word, take_wide, take_bytes,
}
use znp_host_framework.Mt.Lists.{take_if}
use znp_host_framework.Sys.Events.{
  PingSrspFormat, GetExtAddrSrspFormat, RamReadSrspFormat, ResetIndFormat, VersionSrspFormat,
  OsalNvReadSrspFormat, OsalNvLengthSrspFormat, OsalTimerExpiredFormat, StackTuneSrspFormat,
  AdcReadSrspFormat, GpioSrspFormat, RandomSrspFormat, GetTimeSrspFormat, SetTxPowerSrspFormat,
}

unfoldable pub process_ping_srsp : Reader PingSrspFormat
process_ping_srsp =
    read_then take_word λ capabilities. give (record { capabilities = capabilities })

unfoldable pub process_get_ext_addr_srsp : Reader GetExtAddrSrspFormat
process_get_ext_addr_srsp =
    read_then (take_wide 8 0 0) λ ext_addr. give (record { ext_addr = ext_addr })

unfoldable pub process_ram_read_srsp : ℕ → Reader RamReadSrspFormat
process_ram_read_srsp rpc_len = read_then take_byte λ status. read_then take_byte λ len.
    read_then (take_if rpc_len 2 (take_bytes len 128))
      λ value. give (record { status = status; len = len; value = value })

unfoldable pub process_reset_ind : Reader ResetIndFormat
process_reset_ind = read_then take_byte λ reason. read_then take_byte λ transport_rev.
    read_then take_byte λ product_id. read_then take_byte λ major_rel.
      read_then take_byte λ minor_rel. read_then take_byte λ hw_rev. give (record {
        reason = reason;
        transport_rev = transport_rev;
        product_id = product_id;
        major_rel = major_rel;
        minor_rel = minor_rel;
        hw_rev = hw_rev;
      })

unfoldable pub process_version_srsp : Reader VersionSrspFormat
process_version_srsp = read_then take_byte λ transport_rev. read_then take_byte λ product.
    read_then take_byte λ major_rel. read_then take_byte λ minor_rel.
      read_then take_byte λ maint_rel. give (record {
        transport_rev = transport_rev;
        product = product;
        major_rel = major_rel;
        minor_rel = minor_rel;
        maint_rel = maint_rel;
      })

unfoldable pub process_osal_nv_read_srsp : ℕ → Reader OsalNvReadSrspFormat
process_osal_nv_read_srsp rpc_len = read_then take_byte λ status. read_then take_byte λ len.
    read_then (take_if rpc_len 2 (take_bytes len 248))
      λ value. give (record { status = status; len = len; value = value })

unfoldable pub process_osal_nv_length_srsp : Reader OsalNvLengthSrspFormat
process_osal_nv_length_srsp = read_then take_word λ item_len. give (record { item_len = item_len })

unfoldable pub process_osal_timer_expired : Reader OsalTimerExpiredFormat
process_osal_timer_expired = read_then take_byte λ id. give (record { id = id })

unfoldable pub process_stack_tune_srsp : Reader StackTuneSrspFormat
process_stack_tune_srsp = read_then take_byte λ value. give (record { value = value })

unfoldable pub process_adc_read_srsp : Reader AdcReadSrspFormat
process_adc_read_srsp = read_then take_word λ value. give (record { value = value })

unfoldable pub process_gpio_srsp : Reader GpioSrspFormat
process_gpio_srsp = read_then take_byte λ value. give (record { value = value })

unfoldable pub process_random_srsp : Reader RandomSrspFormat
process_random_srsp = read_then take_word λ value. give (record { value = value })

unfoldable pub process_get_time_srsp : Reader GetTimeSrspFormat
process_get_time_srsp = read_then (take_wide 4 0 0) λ utc_time. read_then take_byte λ hour.
    read_then take_byte λ minute. read_then take_byte λ second. read_then take_byte λ month.
      read_then take_byte λ day. read_then take_word λ year. give (record {
        utc_time = utc_time;
        hour = hour;
        minute = minute;
        second = second;
        month = month;
        day = day;
        year = year;
      })

unfoldable pub process_set_tx_power_srsp : Reader SetTxPowerSrspFormat
process_set_tx_power_srsp = read_then take_byte λ tx_power. give (record { tx_power = tx_power })

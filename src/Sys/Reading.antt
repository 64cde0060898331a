-- ===== src/Sys/Reading.antt =====
-- The payload of each message of framework/mt/Sys/mtSys.h to the host, and that its handler reads it.
use znp_host_framework.Base.{ℕ, ◌^◌, ◌<◌, ◌≤◌, ◌≡◌, List, [], ◌∷◌, ◌++◌, length}
use znp_host_framework.Base.Bytes.{lo_byte, hi_byte}
use znp_host_framework.Mt.Reader.{
  Reads, wide_bytes, chain, give-Reads, take_byte-Reads, take_word-Reads, take_wide-Reads,
  take_bytes_of,
}
use znp_host_framework.Mt.Lists.{made-Reads, take_if-Reads}
use znp_host_framework.Sys.Events.{
  PingSrspFormat, GetExtAddrSrspFormat, RamReadSrspFormat, ResetIndFormat, VersionSrspFormat,
  OsalNvReadSrspFormat, OsalNvLengthSrspFormat, OsalTimerExpiredFormat, StackTuneSrspFormat,
  AdcReadSrspFormat, GpioSrspFormat, RandomSrspFormat, GetTimeSrspFormat, SetTxPowerSrspFormat,
}
use znp_host_framework.Sys.Handlers.{
  process_ping_srsp, process_get_ext_addr_srsp, process_ram_read_srsp, process_reset_ind,
  process_version_srsp, process_osal_nv_read_srsp, process_osal_nv_length_srsp,
  process_osal_timer_expired, process_stack_tune_srsp, process_adc_read_srsp, process_gpio_srsp,
  process_random_srsp, process_get_time_srsp, process_set_tx_power_srsp,
}

abbrev pub ping_srsp_bytes : PingSrspFormat → List ℕ
ping_srsp_bytes e = lo_byte e.capabilities ∷ hi_byte e.capabilities ∷ []

abbrev pub IsPingSrsp : PingSrspFormat → Type 0
IsPingSrsp e = e.capabilities < 65536

pub process_ping_srsp-Reads :
    (e : PingSrspFormat) → IsPingSrsp e → Reads process_ping_srsp (ping_srsp_bytes e) e
unfolding process_ping_srsp
process_ping_srsp-Reads e h_capabilities =
    chain _ (take_word-Reads e.capabilities h_capabilities) (give-Reads _)

abbrev pub get_ext_addr_srsp_bytes : GetExtAddrSrspFormat → List ℕ
get_ext_addr_srsp_bytes e = wide_bytes 8 e.ext_addr

abbrev pub IsGetExtAddrSrsp : GetExtAddrSrspFormat → Type 0
IsGetExtAddrSrsp e = e.ext_addr < 2 ^ 64

pub process_get_ext_addr_srsp-Reads :
    (e : GetExtAddrSrspFormat)
    → IsGetExtAddrSrsp e
    → Reads process_get_ext_addr_srsp (get_ext_addr_srsp_bytes e) e
unfolding process_get_ext_addr_srsp
process_get_ext_addr_srsp-Reads e h_ext_addr =
    chain _ (take_wide-Reads 8 e.ext_addr h_ext_addr) (give-Reads _)

abbrev pub ram_read_srsp_bytes : RamReadSrspFormat → List ℕ
ram_read_srsp_bytes e = e.status ∷ e.len ∷ e.value

abbrev pub IsRamReadSrsp : RamReadSrspFormat → Type 0
IsRamReadSrsp e = (e.len ≡ length e.value) × (e.len ≤ 128)

pub process_ram_read_srsp-Reads :
    (e : RamReadSrspFormat) (n : ℕ)
    → 2 < n
    → IsRamReadSrsp e
    → Reads (process_ram_read_srsp n) (ram_read_srsp_bytes e) e
unfolding process_ram_read_srsp
process_ram_read_srsp-Reads e n more (size_value, room_value) = chain _ (take_byte-Reads e.status) (
    chain _ (take_byte-Reads e.len) (
      made-Reads _ _ _ e.value (
        take_if-Reads n 2 _ _ e.value more
          (take_bytes_of e.len e.value 128 size_value room_value))))

abbrev pub reset_ind_bytes : ResetIndFormat → List ℕ
reset_ind_bytes e =
    e.reason ∷ e.transport_rev ∷ e.product_id ∷ e.major_rel ∷ e.minor_rel ∷ e.hw_rev ∷ []

abbrev pub IsResetInd : ResetIndFormat → Type 0
IsResetInd e = Unit {0}

pub process_reset_ind-Reads :
    (e : ResetIndFormat) → IsResetInd e → Reads process_reset_ind (reset_ind_bytes e) e
unfolding process_reset_ind
process_reset_ind-Reads e ok = chain _ (take_byte-Reads e.reason) (
    chain _ (take_byte-Reads e.transport_rev) (
      chain _ (take_byte-Reads e.product_id) (
        chain _ (take_byte-Reads e.major_rel) (
          chain _ (take_byte-Reads e.minor_rel)
            (chain _ (take_byte-Reads e.hw_rev) (give-Reads _))))))

abbrev pub version_srsp_bytes : VersionSrspFormat → List ℕ
version_srsp_bytes e = e.transport_rev ∷ e.product ∷ e.major_rel ∷ e.minor_rel ∷ e.maint_rel ∷ []

abbrev pub IsVersionSrsp : VersionSrspFormat → Type 0
IsVersionSrsp e = Unit {0}

pub process_version_srsp-Reads :
    (e : VersionSrspFormat) → IsVersionSrsp e → Reads process_version_srsp (version_srsp_bytes e) e
unfolding process_version_srsp
process_version_srsp-Reads e ok = chain _ (take_byte-Reads e.transport_rev) (
    chain _ (take_byte-Reads e.product) (
      chain _ (take_byte-Reads e.major_rel) (
        chain _ (take_byte-Reads e.minor_rel)
          (chain _ (take_byte-Reads e.maint_rel) (give-Reads _)))))

abbrev pub osal_nv_read_srsp_bytes : OsalNvReadSrspFormat → List ℕ
osal_nv_read_srsp_bytes e = e.status ∷ e.len ∷ e.value

abbrev pub IsOsalNvReadSrsp : OsalNvReadSrspFormat → Type 0
IsOsalNvReadSrsp e = (e.len ≡ length e.value) × (e.len ≤ 248)

pub process_osal_nv_read_srsp-Reads :
    (e : OsalNvReadSrspFormat) (n : ℕ)
    → 2 < n
    → IsOsalNvReadSrsp e
    → Reads (process_osal_nv_read_srsp n) (osal_nv_read_srsp_bytes e) e
unfolding process_osal_nv_read_srsp
process_osal_nv_read_srsp-Reads e n more (size_value, room_value) =
    chain _ (take_byte-Reads e.status) (
      chain _ (take_byte-Reads e.len) (
        made-Reads _ _ _ e.value (
          take_if-Reads n 2 _ _ e.value more
            (take_bytes_of e.len e.value 248 size_value room_value))))

abbrev pub osal_nv_length_srsp_bytes : OsalNvLengthSrspFormat → List ℕ
osal_nv_length_srsp_bytes e = lo_byte e.item_len ∷ hi_byte e.item_len ∷ []

abbrev pub IsOsalNvLengthSrsp : OsalNvLengthSrspFormat → Type 0
IsOsalNvLengthSrsp e = e.item_len < 65536

pub process_osal_nv_length_srsp-Reads :
    (e : OsalNvLengthSrspFormat)
    → IsOsalNvLengthSrsp e
    → Reads process_osal_nv_length_srsp (osal_nv_length_srsp_bytes e) e
unfolding process_osal_nv_length_srsp
process_osal_nv_length_srsp-Reads e h_item_len =
    chain _ (take_word-Reads e.item_len h_item_len) (give-Reads _)

abbrev pub osal_timer_expired_bytes : OsalTimerExpiredFormat → List ℕ
osal_timer_expired_bytes e = e.id ∷ []

abbrev pub IsOsalTimerExpired : OsalTimerExpiredFormat → Type 0
IsOsalTimerExpired e = Unit {0}

pub process_osal_timer_expired-Reads :
    (e : OsalTimerExpiredFormat)
    → IsOsalTimerExpired e
    → Reads process_osal_timer_expired (osal_timer_expired_bytes e) e
unfolding process_osal_timer_expired
process_osal_timer_expired-Reads e ok = chain _ (take_byte-Reads e.id) (give-Reads _)

abbrev pub stack_tune_srsp_bytes : StackTuneSrspFormat → List ℕ
stack_tune_srsp_bytes e = e.value ∷ []

abbrev pub IsStackTuneSrsp : StackTuneSrspFormat → Type 0
IsStackTuneSrsp e = Unit {0}

pub process_stack_tune_srsp-Reads :
    (e : StackTuneSrspFormat)
    → IsStackTuneSrsp e
    → Reads process_stack_tune_srsp (stack_tune_srsp_bytes e) e
unfolding process_stack_tune_srsp
process_stack_tune_srsp-Reads e ok = chain _ (take_byte-Reads e.value) (give-Reads _)

abbrev pub adc_read_srsp_bytes : AdcReadSrspFormat → List ℕ
adc_read_srsp_bytes e = lo_byte e.value ∷ hi_byte e.value ∷ []

abbrev pub IsAdcReadSrsp : AdcReadSrspFormat → Type 0
IsAdcReadSrsp e = e.value < 65536

pub process_adc_read_srsp-Reads :
    (e : AdcReadSrspFormat)
    → IsAdcReadSrsp e
    → Reads process_adc_read_srsp (adc_read_srsp_bytes e) e
unfolding process_adc_read_srsp
process_adc_read_srsp-Reads e h_value = chain _ (take_word-Reads e.value h_value) (give-Reads _)

abbrev pub gpio_srsp_bytes : GpioSrspFormat → List ℕ
gpio_srsp_bytes e = e.value ∷ []

abbrev pub IsGpioSrsp : GpioSrspFormat → Type 0
IsGpioSrsp e = Unit {0}

pub process_gpio_srsp-Reads :
    (e : GpioSrspFormat) → IsGpioSrsp e → Reads process_gpio_srsp (gpio_srsp_bytes e) e
unfolding process_gpio_srsp
process_gpio_srsp-Reads e ok = chain _ (take_byte-Reads e.value) (give-Reads _)

abbrev pub random_srsp_bytes : RandomSrspFormat → List ℕ
random_srsp_bytes e = lo_byte e.value ∷ hi_byte e.value ∷ []

abbrev pub IsRandomSrsp : RandomSrspFormat → Type 0
IsRandomSrsp e = e.value < 65536

pub process_random_srsp-Reads :
    (e : RandomSrspFormat) → IsRandomSrsp e → Reads process_random_srsp (random_srsp_bytes e) e
unfolding process_random_srsp
process_random_srsp-Reads e h_value = chain _ (take_word-Reads e.value h_value) (give-Reads _)

abbrev pub get_time_srsp_bytes : GetTimeSrspFormat → List ℕ
get_time_srsp_bytes e =
    (wide_bytes 4 e.utc_time
      ++ (e.hour ∷ e.minute ∷ e.second ∷ e.month ∷ e.day ∷ lo_byte e.year ∷ hi_byte e.year ∷ []))

abbrev pub IsGetTimeSrsp : GetTimeSrspFormat → Type 0
IsGetTimeSrsp e = (e.utc_time < 2 ^ 32) × (e.year < 65536)

pub process_get_time_srsp-Reads :
    (e : GetTimeSrspFormat)
    → IsGetTimeSrsp e
    → Reads process_get_time_srsp (get_time_srsp_bytes e) e
unfolding process_get_time_srsp
process_get_time_srsp-Reads e (h_utc_time, h_year) =
    chain _ (take_wide-Reads 4 e.utc_time h_utc_time) (
      chain _ (take_byte-Reads e.hour) (
        chain _ (take_byte-Reads e.minute) (
          chain _ (take_byte-Reads e.second) (
            chain _ (take_byte-Reads e.month) (
              chain _ (take_byte-Reads e.day)
                (chain _ (take_word-Reads e.year h_year) (give-Reads _)))))))

abbrev pub set_tx_power_srsp_bytes : SetTxPowerSrspFormat → List ℕ
set_tx_power_srsp_bytes e = e.tx_power ∷ []

abbrev pub IsSetTxPowerSrsp : SetTxPowerSrspFormat → Type 0
IsSetTxPowerSrsp e = Unit {0}

pub process_set_tx_power_srsp-Reads :
    (e : SetTxPowerSrspFormat)
    → IsSetTxPowerSrsp e
    → Reads process_set_tx_power_srsp (set_tx_power_srsp_bytes e) e
unfolding process_set_tx_power_srsp
process_set_tx_power_srsp-Reads e ok = chain _ (take_byte-Reads e.tx_power) (give-Reads _)

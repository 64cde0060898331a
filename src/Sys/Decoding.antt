-- ===== src/Sys/Decoding.antt =====
-- What the messages to the host look like, and that `sysProcess` calls the callback with what a
-- message says.
use znp_host_framework.Base.{
  ℕ, ◌+◌, ◌≤◌, ◌≡◌, refl, List, [], ◌∷◌, ◌++◌, length, drop, Bool, if◌then◌else◌, ◌==◌, arith,
  length-append,
}
use znp_host_framework.Rpc.{done}
use znp_host_framework.Mt.Dispatch.{deliver-made, copy_srsp_lem}
use znp_host_framework.Sys.Events.{
  SysEvent, SysCallbacks, ping_srsp, get_ext_addr_srsp, ram_read_srsp, reset_ind, version_srsp,
  osal_nv_read_srsp, osal_nv_length_srsp, osal_timer_expired, stack_tune_srsp, adc_read_srsp,
  gpio_srsp, random_srsp, get_time_srsp, set_tx_power_srsp,
}
use znp_host_framework.Sys.Handlers.{
  process_ping_srsp, process_get_ext_addr_srsp, process_ram_read_srsp, process_reset_ind,
  process_version_srsp, process_osal_nv_read_srsp, process_osal_nv_length_srsp,
  process_osal_timer_expired, process_stack_tune_srsp, process_adc_read_srsp, process_gpio_srsp,
  process_random_srsp, process_get_time_srsp, process_set_tx_power_srsp,
}
use znp_host_framework.Sys.Reading.{
  ping_srsp_bytes, IsPingSrsp, process_ping_srsp-Reads, get_ext_addr_srsp_bytes, IsGetExtAddrSrsp,
  process_get_ext_addr_srsp-Reads, ram_read_srsp_bytes, IsRamReadSrsp, process_ram_read_srsp-Reads,
  reset_ind_bytes, IsResetInd, process_reset_ind-Reads, version_srsp_bytes, IsVersionSrsp,
  process_version_srsp-Reads, osal_nv_read_srsp_bytes, IsOsalNvReadSrsp,
  process_osal_nv_read_srsp-Reads, osal_nv_length_srsp_bytes, IsOsalNvLengthSrsp,
  process_osal_nv_length_srsp-Reads, osal_timer_expired_bytes, IsOsalTimerExpired,
  process_osal_timer_expired-Reads, stack_tune_srsp_bytes, IsStackTuneSrsp,
  process_stack_tune_srsp-Reads, adc_read_srsp_bytes, IsAdcReadSrsp, process_adc_read_srsp-Reads,
  gpio_srsp_bytes, IsGpioSrsp, process_gpio_srsp-Reads, random_srsp_bytes, IsRandomSrsp,
  process_random_srsp-Reads, get_time_srsp_bytes, IsGetTimeSrsp, process_get_time_srsp-Reads,
  set_tx_power_srsp_bytes, IsSetTxPowerSrsp, process_set_tx_power_srsp-Reads,
}
use znp_host_framework.Sys.Process.{sys_srsp_switch, sys_areq_switch, sys_process_srsp, sys_process}

-- The first two bytes of a message: `MT_RPC_CMD_AREQ | MT_RPC_SYS_SYS` or
-- `MT_RPC_CMD_SRSP | MT_RPC_SYS_SYS`, and the command number.
abbrev pub cmd0_of : SysEvent → ℕ
cmd0_of (reset_ind e) = 0x41
cmd0_of (osal_timer_expired e) = 0x41
cmd0_of e = 0x61

abbrev pub cmd1_of : SysEvent → ℕ
cmd1_of (ping_srsp e) = 0x01
cmd1_of (get_ext_addr_srsp e) = 0x04
cmd1_of (ram_read_srsp e) = 0x05
cmd1_of (reset_ind e) = 0x80
cmd1_of (version_srsp e) = 0x02
cmd1_of (osal_nv_read_srsp e) = 0x08
cmd1_of (osal_nv_length_srsp e) = 0x13
cmd1_of (osal_timer_expired e) = 0x81
cmd1_of (stack_tune_srsp e) = 0x0f
cmd1_of (adc_read_srsp e) = 0x0d
cmd1_of (gpio_srsp e) = 0x0e
cmd1_of (random_srsp e) = 0x0c
cmd1_of (get_time_srsp e) = 0x11
cmd1_of (set_tx_power_srsp e) = 0x14

-- The payload of a message.
abbrev pub payload_of : SysEvent → List ℕ
payload_of (ping_srsp e) = ping_srsp_bytes e
payload_of (get_ext_addr_srsp e) = get_ext_addr_srsp_bytes e
payload_of (ram_read_srsp e) = ram_read_srsp_bytes e
payload_of (reset_ind e) = reset_ind_bytes e
payload_of (version_srsp e) = version_srsp_bytes e
payload_of (osal_nv_read_srsp e) = osal_nv_read_srsp_bytes e
payload_of (osal_nv_length_srsp e) = osal_nv_length_srsp_bytes e
payload_of (osal_timer_expired e) = osal_timer_expired_bytes e
payload_of (stack_tune_srsp e) = stack_tune_srsp_bytes e
payload_of (adc_read_srsp e) = adc_read_srsp_bytes e
payload_of (gpio_srsp e) = gpio_srsp_bytes e
payload_of (random_srsp e) = random_srsp_bytes e
payload_of (get_time_srsp e) = get_time_srsp_bytes e
payload_of (set_tx_power_srsp e) = set_tx_power_srsp_bytes e

-- The numbers fit their types, and the length is that of the data, which has room in the struct.
abbrev pub IsValid : SysEvent → Type 0
IsValid (ping_srsp e) = IsPingSrsp e
IsValid (get_ext_addr_srsp e) = IsGetExtAddrSrsp e
IsValid (ram_read_srsp e) = IsRamReadSrsp e
IsValid (reset_ind e) = IsResetInd e
IsValid (version_srsp e) = IsVersionSrsp e
IsValid (osal_nv_read_srsp e) = IsOsalNvReadSrsp e
IsValid (osal_nv_length_srsp e) = IsOsalNvLengthSrsp e
IsValid (osal_timer_expired e) = IsOsalTimerExpired e
IsValid (stack_tune_srsp e) = IsStackTuneSrsp e
IsValid (adc_read_srsp e) = IsAdcReadSrsp e
IsValid (gpio_srsp e) = IsGpioSrsp e
IsValid (random_srsp e) = IsRandomSrsp e
IsValid (get_time_srsp e) = IsGetTimeSrsp e
IsValid (set_tx_power_srsp e) = IsSetTxPowerSrsp e

-- Whether the callback of the event is registered.
abbrev pub is_registered : SysCallbacks → SysEvent → Bool
is_registered cbs (ping_srsp e) = cbs.pfn_sys_ping_srsp
is_registered cbs (get_ext_addr_srsp e) = cbs.pfn_sys_get_ext_addr_srsp
is_registered cbs (ram_read_srsp e) = cbs.pfn_sys_ram_read_srsp
is_registered cbs (reset_ind e) = cbs.pfn_sys_reset_ind
is_registered cbs (version_srsp e) = cbs.pfn_sys_version_srsp
is_registered cbs (osal_nv_read_srsp e) = cbs.pfn_sys_osal_nv_read_srsp
is_registered cbs (osal_nv_length_srsp e) = cbs.pfn_sys_osal_nv_length_srsp
is_registered cbs (osal_timer_expired e) = cbs.pfn_sys_osal_timer_expired
is_registered cbs (stack_tune_srsp e) = cbs.pfn_sys_stack_tune_srsp
is_registered cbs (adc_read_srsp e) = cbs.pfn_sys_adc_read_srsp
is_registered cbs (gpio_srsp e) = cbs.pfn_sys_gpio_srsp
is_registered cbs (random_srsp e) = cbs.pfn_sys_random_srsp
is_registered cbs (get_time_srsp e) = cbs.pfn_sys_get_time_srsp
is_registered cbs (set_tx_power_srsp e) = cbs.pfn_sys_set_tx_power_srsp

-- The message as it stands in `rpcBuff`: command, payload and check byte.
abbrev pub message_of : SysEvent → ℕ → List ℕ
message_of e fcs = cmd0_of e ∷ cmd1_of e ∷ (payload_of e ++ fcs ∷ [])

-- What `srspRpcBuff` holds afterwards: a response is kept.
abbrev pub kept : SysEvent → (fcs : ℕ) (srsp : List ℕ) → List ℕ
kept e fcs srsp =
    if cmd0_of e == 0x61 then message_of e fcs ++ drop (length (message_of e fcs)) srsp else srsp

size_of : (e : SysEvent) (fcs : ℕ) → length (message_of e fcs) ≡ 3 + length (payload_of e)
size_of e fcs = omega (arith, length-append (payload_of e) (fcs ∷ []))

-- A response is kept and handed to the handler for its command.
srsp_case :
    (cbs : SysCallbacks) (cmd1 : ℕ) (xs : List ℕ) (fcs : ℕ) (back srsp : List ℕ)
    (events : List SysEvent)
    → length xs ≤ 252
    → length srsp ≡ 256
    → sys_srsp_switch cbs cmd1
        (0x61 ∷ cmd1 ∷ ((xs ++ fcs ∷ []) ++ back))
        (length (0x61 ∷ cmd1 ∷ (xs ++ fcs ∷ [])))
      ≡ done events
    → sys_process cbs
        (0x61 ∷ cmd1 ∷ ((xs ++ fcs ∷ []) ++ back))
        (length (0x61 ∷ cmd1 ∷ (xs ++ fcs ∷ [])))
        srsp
      ≡ done (
        events,
        (0x61 ∷ cmd1 ∷ (xs ++ fcs ∷ [])) ++ drop (length (0x61 ∷ cmd1 ∷ (xs ++ fcs ∷ []))) srsp,
      )
unfolding sys_process sys_process_srsp
srsp_case cbs cmd1 xs fcs back srsp events short size h =
    let msg = 0x61 ∷ cmd1 ∷ (xs ++ fcs ∷ []) in
    rw
      (
        copy_srsp_lem srsp msg back (length msg) refl
            (omega (arith, length-append xs (fcs ∷ []), short, size)),
        h,
      )
      refl

-- A message to the host, in a buffer that may hold anything behind it, makes `sysProcess` call the
-- callback of its command, if that is registered, with exactly what the message says, and no other;
-- a response is also kept in `srspRpcBuff`, which a message of another kind leaves as it is. The
-- numbers are to fit their types, the length is to be that of the data, the data to fit its array,
-- and the payload to have at most 252 bytes; `srspRpcBuff` has 256 bytes.
pub sys_process-event :
    (cbs : SysCallbacks) (e : SysEvent) (fcs : ℕ) (back srsp : List ℕ)
    → IsValid e
    → length (payload_of e) ≤ 252
    → length srsp ≡ 256
    → sys_process cbs (message_of e fcs ++ back) (length (message_of e fcs)) srsp
      ≡ done (if is_registered cbs e then e ∷ [] else [], kept e fcs srsp)
unfolding sys_process sys_srsp_switch sys_areq_switch
sys_process-event cbs (ping_srsp e) fcs back srsp ok short size =
    srsp_case cbs 0x01 (ping_srsp_bytes e) fcs back srsp _ short size (
      deliver-made cbs.pfn_sys_ping_srsp ping_srsp process_ping_srsp 0x61 0x01 (ping_srsp_bytes e)
        fcs back e (process_ping_srsp-Reads e ok) short)
sys_process-event cbs (get_ext_addr_srsp e) fcs back srsp ok short size =
    srsp_case cbs 0x04 (get_ext_addr_srsp_bytes e) fcs back srsp _ short size (
      deliver-made cbs.pfn_sys_get_ext_addr_srsp get_ext_addr_srsp process_get_ext_addr_srsp 0x61
        0x04 (get_ext_addr_srsp_bytes e) fcs back e (process_get_ext_addr_srsp-Reads e ok) short)
sys_process-event cbs (ram_read_srsp e) fcs back srsp ok short size =
    srsp_case cbs 0x05 (ram_read_srsp_bytes e) fcs back srsp _ short size (
      deliver-made cbs.pfn_sys_ram_read_srsp ram_read_srsp
        (process_ram_read_srsp (length (message_of (ram_read_srsp e) fcs))) 0x61 0x05
        (ram_read_srsp_bytes e) fcs back e
        (process_ram_read_srsp-Reads e (length (message_of (ram_read_srsp e) fcs))
          (omega (arith, size_of (ram_read_srsp e) fcs)) ok)
        short)
sys_process-event cbs (reset_ind e) fcs back srsp ok short size =
    rw
      (deliver-made cbs.pfn_sys_reset_ind reset_ind process_reset_ind 0x41 0x80 (reset_ind_bytes e)
        fcs back e (process_reset_ind-Reads e ok) short)
      refl
sys_process-event cbs (version_srsp e) fcs back srsp ok short size =
    srsp_case cbs 0x02 (version_srsp_bytes e) fcs back srsp _ short size (
      deliver-made cbs.pfn_sys_version_srsp version_srsp process_version_srsp 0x61 0x02
        (version_srsp_bytes e) fcs back e (process_version_srsp-Reads e ok) short)
sys_process-event cbs (osal_nv_read_srsp e) fcs back srsp ok short size =
    srsp_case cbs 0x08 (osal_nv_read_srsp_bytes e) fcs back srsp _ short size (
      deliver-made cbs.pfn_sys_osal_nv_read_srsp osal_nv_read_srsp
        (process_osal_nv_read_srsp (length (message_of (osal_nv_read_srsp e) fcs))) 0x61 0x08
        (osal_nv_read_srsp_bytes e) fcs back e
        (process_osal_nv_read_srsp-Reads e (length (message_of (osal_nv_read_srsp e) fcs))
          (omega (arith, size_of (osal_nv_read_srsp e) fcs)) ok)
        short)
sys_process-event cbs (osal_nv_length_srsp e) fcs back srsp ok short size =
    srsp_case cbs 0x13 (osal_nv_length_srsp_bytes e) fcs back srsp _ short size (
      deliver-made cbs.pfn_sys_osal_nv_length_srsp osal_nv_length_srsp process_osal_nv_length_srsp
        0x61 0x13 (osal_nv_length_srsp_bytes e) fcs back e (process_osal_nv_length_srsp-Reads e ok)
        short)
sys_process-event cbs (osal_timer_expired e) fcs back srsp ok short size =
    rw
      (deliver-made cbs.pfn_sys_osal_timer_expired osal_timer_expired process_osal_timer_expired
        0x41 0x81 (osal_timer_expired_bytes e) fcs back e (process_osal_timer_expired-Reads e ok)
        short)
      refl
sys_process-event cbs (stack_tune_srsp e) fcs back srsp ok short size =
    srsp_case cbs 0x0f (stack_tune_srsp_bytes e) fcs back srsp _ short size (
      deliver-made cbs.pfn_sys_stack_tune_srsp stack_tune_srsp process_stack_tune_srsp 0x61 0x0f
        (stack_tune_srsp_bytes e) fcs back e (process_stack_tune_srsp-Reads e ok) short)
sys_process-event cbs (adc_read_srsp e) fcs back srsp ok short size =
    srsp_case cbs 0x0d (adc_read_srsp_bytes e) fcs back srsp _ short size (
      deliver-made cbs.pfn_sys_adc_read_srsp adc_read_srsp process_adc_read_srsp 0x61 0x0d
        (adc_read_srsp_bytes e) fcs back e (process_adc_read_srsp-Reads e ok) short)
sys_process-event cbs (gpio_srsp e) fcs back srsp ok short size =
    srsp_case cbs 0x0e (gpio_srsp_bytes e) fcs back srsp _ short size (
      deliver-made cbs.pfn_sys_gpio_srsp gpio_srsp process_gpio_srsp 0x61 0x0e (gpio_srsp_bytes e)
        fcs back e (process_gpio_srsp-Reads e ok) short)
sys_process-event cbs (random_srsp e) fcs back srsp ok short size =
    srsp_case cbs 0x0c (random_srsp_bytes e) fcs back srsp _ short size (
      deliver-made cbs.pfn_sys_random_srsp random_srsp process_random_srsp 0x61 0x0c
        (random_srsp_bytes e) fcs back e (process_random_srsp-Reads e ok) short)
sys_process-event cbs (get_time_srsp e) fcs back srsp ok short size =
    srsp_case cbs 0x11 (get_time_srsp_bytes e) fcs back srsp _ short size (
      deliver-made cbs.pfn_sys_get_time_srsp get_time_srsp process_get_time_srsp 0x61 0x11
        (get_time_srsp_bytes e) fcs back e (process_get_time_srsp-Reads e ok) short)
sys_process-event cbs (set_tx_power_srsp e) fcs back srsp ok short size =
    srsp_case cbs 0x14 (set_tx_power_srsp_bytes e) fcs back srsp _ short size (
      deliver-made cbs.pfn_sys_set_tx_power_srsp set_tx_power_srsp process_set_tx_power_srsp 0x61
        0x14 (set_tx_power_srsp_bytes e) fcs back e (process_set_tx_power_srsp-Reads e ok) short)

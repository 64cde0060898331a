-- ===== src/Sys/Encoding.antt =====
-- What the request functions of framework/mt/Sys/mtSys.c send, all together: each request of the
-- interface as a message, with its command numbers.
use znp_host_framework.Base.{ℕ, ◌≡◌, refl, List, [], length, Option, some}
use znp_host_framework.Rpc.{Outcome}
use znp_host_framework.Mt.Host.{Host, Env}
use znp_host_framework.Mt.Call.{IsAllocator, mt_empty, transmit, mt_finish}
use znp_host_framework.Sys.Formats.{
  SetExtAddrFormat, RamReadFormat, ResetReqFormat, OsalNvReadFormat, OsalNvWriteFormat,
  OsalNvItemInitFormat, OsalNvDeleteFormat, OsalNvLengthFormat, OsalStartTimerFormat,
  OsalStopTimerFormat, StackTuneFormat, AdcReadFormat, GpioFormat, SetTimeFormat, SetTxPowerFormat,
}
use znp_host_framework.Sys.Requests.{
  sys_sreq, sys_areq, sys_ping, sys_set_ext_addr, sys_get_ext_addr, sys_ram_read, sys_reset_req,
  sys_version, sys_osal_nv_read, sys_osal_nv_write, sys_osal_nv_item_init, sys_osal_nv_delete,
  sys_osal_nv_length, sys_osal_start_timer, sys_osal_stop_timer, sys_stack_tune, sys_adc_read,
  sys_gpio, sys_random, sys_set_time, sys_get_time, sys_set_tx_power,
}
use znp_host_framework.Sys.Payloads.Memory.{
  set_ext_addr_bytes, IsSetExtAddr, sys_set_ext_addr-transmit, ram_read_bytes, IsRamRead,
  sys_ram_read-transmit, osal_nv_read_bytes, IsOsalNvRead, sys_osal_nv_read-transmit,
  osal_nv_write_bytes, IsOsalNvWrite, sys_osal_nv_write-transmit, osal_nv_item_init_bytes,
  IsOsalNvItemInit, sys_osal_nv_item_init-transmit, osal_nv_delete_bytes, IsOsalNvDelete,
  sys_osal_nv_delete-transmit, osal_nv_length_bytes, IsOsalNvLength, sys_osal_nv_length-transmit,
}
use znp_host_framework.Sys.Payloads.Device.{
  reset_req_bytes, IsResetReq, sys_reset_req-transmit, osal_start_timer_bytes, IsOsalStartTimer,
  sys_osal_start_timer-transmit, osal_stop_timer_bytes, IsOsalStopTimer,
  sys_osal_stop_timer-transmit, stack_tune_bytes, IsStackTune, sys_stack_tune-transmit,
  adc_read_bytes, IsAdcRead, sys_adc_read-transmit, gpio_bytes, IsGpio, sys_gpio-transmit,
  set_time_bytes, IsSetTime, sys_set_time-transmit, set_tx_power_bytes, IsSetTxPower,
  sys_set_tx_power-transmit,
}

-- A call of the interface, other than of `sysRamWrite`.
pub data SysRequest : Type 0 where
  ping : SysRequest
  set_ext_addr : SetExtAddrFormat → SysRequest
  get_ext_addr : SysRequest
  ram_read : RamReadFormat → SysRequest
  reset_req : ResetReqFormat → SysRequest
  version : SysRequest
  osal_nv_read : OsalNvReadFormat → SysRequest
  osal_nv_write : OsalNvWriteFormat → SysRequest
  osal_nv_item_init : OsalNvItemInitFormat → SysRequest
  osal_nv_delete : OsalNvDeleteFormat → SysRequest
  osal_nv_length : OsalNvLengthFormat → SysRequest
  osal_start_timer : OsalStartTimerFormat → SysRequest
  osal_stop_timer : OsalStopTimerFormat → SysRequest
  stack_tune : StackTuneFormat → SysRequest
  adc_read : AdcReadFormat → SysRequest
  gpio : GpioFormat → SysRequest
  random : SysRequest
  set_time : SetTimeFormat → SysRequest
  get_time : SysRequest
  set_tx_power : SetTxPowerFormat → SysRequest

-- The function that is called.
unfoldable pub sys_request : Env → SysRequest → Host → Outcome (ℕ × Host)
sys_request env ping h = sys_ping env h
sys_request env (set_ext_addr req) h = sys_set_ext_addr env req h
sys_request env get_ext_addr h = sys_get_ext_addr env h
sys_request env (ram_read req) h = sys_ram_read env req h
sys_request env (reset_req req) h = sys_reset_req env req h
sys_request env version h = sys_version env h
sys_request env (osal_nv_read req) h = sys_osal_nv_read env req h
sys_request env (osal_nv_write req) h = sys_osal_nv_write env req h
sys_request env (osal_nv_item_init req) h = sys_osal_nv_item_init env req h
sys_request env (osal_nv_delete req) h = sys_osal_nv_delete env req h
sys_request env (osal_nv_length req) h = sys_osal_nv_length env req h
sys_request env (osal_start_timer req) h = sys_osal_start_timer env req h
sys_request env (osal_stop_timer req) h = sys_osal_stop_timer env req h
sys_request env (stack_tune req) h = sys_stack_tune env req h
sys_request env (adc_read req) h = sys_adc_read env req h
sys_request env (gpio req) h = sys_gpio env req h
sys_request env random h = sys_random env h
sys_request env (set_time req) h = sys_set_time env req h
sys_request env get_time h = sys_get_time env h
sys_request env (set_tx_power req) h = sys_set_tx_power env req h

-- `MT_RPC_CMD_AREQ` for a reset, and `MT_RPC_CMD_SREQ` for the others.
abbrev pub command_type : SysRequest → ℕ
command_type (reset_req req) = sys_areq
command_type q = sys_sreq

-- The command numbers, `MT_SYS_RESET_REQ` to `MT_SYS_SET_TX_POWER`.
abbrev pub command : SysRequest → ℕ
command ping = 0x01
command (set_ext_addr req) = 0x03
command get_ext_addr = 0x04
command (ram_read req) = 0x05
command (reset_req req) = 0x00
command version = 0x02
command (osal_nv_read req) = 0x08
command (osal_nv_write req) = 0x09
command (osal_nv_item_init req) = 0x07
command (osal_nv_delete req) = 0x12
command (osal_nv_length req) = 0x13
command (osal_start_timer req) = 0x0a
command (osal_stop_timer req) = 0x0b
command (stack_tune req) = 0x0f
command (adc_read req) = 0x0d
command (gpio req) = 0x0e
command random = 0x0c
command (set_time req) = 0x10
command get_time = 0x11
command (set_tx_power req) = 0x14

-- The payload of each command.
abbrev pub encode : SysRequest → List ℕ
encode ping = []
encode (set_ext_addr req) = set_ext_addr_bytes req
encode get_ext_addr = []
encode (ram_read req) = ram_read_bytes req
encode (reset_req req) = reset_req_bytes req
encode version = []
encode (osal_nv_read req) = osal_nv_read_bytes req
encode (osal_nv_write req) = osal_nv_write_bytes req
encode (osal_nv_item_init req) = osal_nv_item_init_bytes req
encode (osal_nv_delete req) = osal_nv_delete_bytes req
encode (osal_nv_length req) = osal_nv_length_bytes req
encode (osal_start_timer req) = osal_start_timer_bytes req
encode (osal_stop_timer req) = osal_stop_timer_bytes req
encode (stack_tune req) = stack_tune_bytes req
encode (adc_read req) = adc_read_bytes req
encode (gpio req) = gpio_bytes req
encode random = []
encode (set_time req) = set_time_bytes req
encode get_time = []
encode (set_tx_power req) = set_tx_power_bytes req

-- The counts of a request are within its arrays, which have the sizes of the header where these
-- are fixed, and the payload is at most 256 bytes.
abbrev pub IsValid : SysRequest → Type 0
IsValid ping = Unit {0}
IsValid (set_ext_addr req) = IsSetExtAddr req
IsValid get_ext_addr = Unit {0}
IsValid (ram_read req) = IsRamRead req
IsValid (reset_req req) = IsResetReq req
IsValid version = Unit {0}
IsValid (osal_nv_read req) = IsOsalNvRead req
IsValid (osal_nv_write req) = IsOsalNvWrite req
IsValid (osal_nv_item_init req) = IsOsalNvItemInit req
IsValid (osal_nv_delete req) = IsOsalNvDelete req
IsValid (osal_nv_length req) = IsOsalNvLength req
IsValid (osal_start_timer req) = IsOsalStartTimer req
IsValid (osal_stop_timer req) = IsOsalStopTimer req
IsValid (stack_tune req) = IsStackTune req
IsValid (adc_read req) = IsAdcRead req
IsValid (gpio req) = IsGpio req
IsValid random = Unit {0}
IsValid (set_time req) = IsSetTime req
IsValid get_time = Unit {0}
IsValid (set_tx_power req) = IsSetTxPower req

-- A request without a payload needs no memory.
abbrev pub memory : Env → SysRequest → Option (List ℕ)
memory env ping = some []
memory env get_ext_addr = some []
memory env version = some []
memory env random = some []
memory env get_time = some []
memory env q = env.malloc (length (encode q))

-- Each request function of the interface except `sysRamWrite` returns 1 and changes nothing if it
-- needs memory and `malloc` fails; otherwise it sends the frame with the request's `cmd0`, the command
-- number and exactly the payload of the format, and waits for a message after a success. The counts
-- are to be within the arrays of the struct and the payload within 256 bytes, and `malloc` is to
-- return blocks of the size asked for.
pub sys_request-transmit :
    (env : Env) (q : SysRequest) (h : Host)
    → IsAllocator env.malloc
    → IsValid q
    → sys_request env q h
      ≡ transmit env (mt_finish env) (command_type q) (command q) (encode q) h (memory env q)
unfolding sys_request mt_empty sys_ping sys_get_ext_addr sys_version sys_random sys_get_time
sys_request-transmit env ping h allocates ok = refl
sys_request-transmit env (set_ext_addr req) h allocates ok =
    sys_set_ext_addr-transmit env req h allocates ok
sys_request-transmit env get_ext_addr h allocates ok = refl
sys_request-transmit env (ram_read req) h allocates ok =
    sys_ram_read-transmit env req h allocates ok
sys_request-transmit env (reset_req req) h allocates ok =
    sys_reset_req-transmit env req h allocates ok
sys_request-transmit env version h allocates ok = refl
sys_request-transmit env (osal_nv_read req) h allocates ok =
    sys_osal_nv_read-transmit env req h allocates ok
sys_request-transmit env (osal_nv_write req) h allocates ok =
    sys_osal_nv_write-transmit env req h allocates ok
sys_request-transmit env (osal_nv_item_init req) h allocates ok =
    sys_osal_nv_item_init-transmit env req h allocates ok
sys_request-transmit env (osal_nv_delete req) h allocates ok =
    sys_osal_nv_delete-transmit env req h allocates ok
sys_request-transmit env (osal_nv_length req) h allocates ok =
    sys_osal_nv_length-transmit env req h allocates ok
sys_request-transmit env (osal_start_timer req) h allocates ok =
    sys_osal_start_timer-transmit env req h allocates ok
sys_request-transmit env (osal_stop_timer req) h allocates ok =
    sys_osal_stop_timer-transmit env req h allocates ok
sys_request-transmit env (stack_tune req) h allocates ok =
    sys_stack_tune-transmit env req h allocates ok
sys_request-transmit env (adc_read req) h allocates ok =
    sys_adc_read-transmit env req h allocates ok
sys_request-transmit env (gpio req) h allocates ok = sys_gpio-transmit env req h allocates ok
sys_request-transmit env random h allocates ok = refl
sys_request-transmit env (set_time req) h allocates ok =
    sys_set_time-transmit env req h allocates ok
sys_request-transmit env get_time h allocates ok = refl
sys_request-transmit env (set_tx_power req) h allocates ok =
    sys_set_tx_power-transmit env req h allocates ok

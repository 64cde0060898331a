-- ===== src/Sys/Requests.antt =====
-- The request functions of framework/mt/Sys/mtSys.c, each with its length and the statements that
-- fill the command buffer.
use znp_host_framework.Base.{ℕ, ◌+◌, [], ◌∷◌}
use znp_host_framework.Base.Bytes.{lo_byte, hi_byte}
use znp_host_framework.Rpc.{Outcome, ◌>>=◌, mt_rpc_cmd_sreq, mt_rpc_cmd_areq, mt_rpc_sys_sys}
use znp_host_framework.Mt.Writer.{puts, put_array, put_copy}
use znp_host_framework.Mt.Host.{Host, Env}
use znp_host_framework.Mt.Call.{mt_request, mt_empty, mt_finish}
use znp_host_framework.Sys.Formats.{
  SetExtAddrFormat, RamReadFormat, RamWriteFormat, ResetReqFormat, OsalNvReadFormat,
  OsalNvWriteFormat, OsalNvItemInitFormat, OsalNvDeleteFormat, OsalNvLengthFormat,
  OsalStartTimerFormat, OsalStopTimerFormat, StackTuneFormat, AdcReadFormat, GpioFormat,
  SetTimeFormat, SetTxPowerFormat,
}

-- `MT_RPC_CMD_SREQ | MT_RPC_SYS_SYS`; the two have no bit in common
abbrev pub sys_sreq : ℕ
sys_sreq = mt_rpc_cmd_sreq + mt_rpc_sys_sys

-- `MT_RPC_CMD_AREQ | MT_RPC_SYS_SYS`
abbrev pub sys_areq : ℕ
sys_areq = mt_rpc_cmd_areq + mt_rpc_sys_sys

unfoldable pub sys_ping : Env → Host → Outcome (ℕ × Host)
sys_ping env h = mt_empty env sys_sreq 0x01 h

unfoldable pub sys_set_ext_addr : Env → SetExtAddrFormat → Host → Outcome (ℕ × Host)
sys_set_ext_addr env req h =
    mt_request env (mt_finish env) sys_sreq 0x03 (8) (λ c. put_copy 8 req.ext_addr c) h

unfoldable pub sys_get_ext_addr : Env → Host → Outcome (ℕ × Host)
sys_get_ext_addr env h = mt_empty env sys_sreq 0x04 h

unfoldable pub sys_ram_read : Env → RamReadFormat → Host → Outcome (ℕ × Host)
sys_ram_read env req h =
    mt_request env (mt_finish env) sys_sreq 0x05 (3)
      (λ c. puts (lo_byte req.address ∷ hi_byte req.address ∷ req.len ∷ []) c) h

-- The buffer has one byte more than is written.
unfoldable pub sys_ram_write : Env → RamWriteFormat → Host → Outcome (ℕ × Host)
sys_ram_write env req h =
    mt_request env (mt_finish env) sys_sreq 0x06 (4 + req.len)
      (λ c. puts (lo_byte req.address ∷ hi_byte req.address ∷ req.len ∷ []) c >>= λ c.
        put_array req.len 0 req.value c)
      h

unfoldable pub sys_reset_req : Env → ResetReqFormat → Host → Outcome (ℕ × Host)
sys_reset_req env req h =
    mt_request env (mt_finish env) sys_areq 0x00 (1) (λ c. puts (req.type ∷ []) c) h

unfoldable pub sys_version : Env → Host → Outcome (ℕ × Host)
sys_version env h = mt_empty env sys_sreq 0x02 h

unfoldable pub sys_osal_nv_read : Env → OsalNvReadFormat → Host → Outcome (ℕ × Host)
sys_osal_nv_read env req h =
    mt_request env (mt_finish env) sys_sreq 0x08 (3)
      (λ c. puts (lo_byte req.id ∷ hi_byte req.id ∷ req.offset ∷ []) c) h

unfoldable pub sys_osal_nv_write : Env → OsalNvWriteFormat → Host → Outcome (ℕ × Host)
sys_osal_nv_write env req h =
    mt_request env (mt_finish env) sys_sreq 0x09 (4 + req.len)
      (λ c. puts (lo_byte req.id ∷ hi_byte req.id ∷ req.offset ∷ req.len ∷ []) c >>= λ c.
        put_array req.len 0 req.value c)
      h

unfoldable pub sys_osal_nv_item_init : Env → OsalNvItemInitFormat → Host → Outcome (ℕ × Host)
sys_osal_nv_item_init env req h =
    mt_request env (mt_finish env) sys_sreq 0x07 (5 + req.init_len)
      (λ c.
        puts
          (lo_byte req.id
            ∷ hi_byte req.id
            ∷ lo_byte req.item_len
            ∷ hi_byte req.item_len
            ∷ req.init_len
            ∷ [])
          c
        >>= λ c. put_array req.init_len 0 req.init_data c)
      h

unfoldable pub sys_osal_nv_delete : Env → OsalNvDeleteFormat → Host → Outcome (ℕ × Host)
sys_osal_nv_delete env req h =
    mt_request env (mt_finish env) sys_sreq 0x12 (4)
      (λ c.
        puts (lo_byte req.id ∷ hi_byte req.id ∷ lo_byte req.item_len ∷ hi_byte req.item_len ∷ []) c)
      h

unfoldable pub sys_osal_nv_length : Env → OsalNvLengthFormat → Host → Outcome (ℕ × Host)
sys_osal_nv_length env req h =
    mt_request env (mt_finish env) sys_sreq 0x13 (2)
      (λ c. puts (lo_byte req.id ∷ hi_byte req.id ∷ []) c) h

unfoldable pub sys_osal_start_timer : Env → OsalStartTimerFormat → Host → Outcome (ℕ × Host)
sys_osal_start_timer env req h =
    mt_request env (mt_finish env) sys_sreq 0x0a (3)
      (λ c. puts (req.id ∷ lo_byte req.timeout ∷ hi_byte req.timeout ∷ []) c) h

unfoldable pub sys_osal_stop_timer : Env → OsalStopTimerFormat → Host → Outcome (ℕ × Host)
sys_osal_stop_timer env req h =
    mt_request env (mt_finish env) sys_sreq 0x0b (1) (λ c. puts (req.id ∷ []) c) h

unfoldable pub sys_stack_tune : Env → StackTuneFormat → Host → Outcome (ℕ × Host)
sys_stack_tune env req h =
    mt_request env (mt_finish env) sys_sreq 0x0f (2) (λ c. puts (req.operation ∷ req.value ∷ []) c)
      h

unfoldable pub sys_adc_read : Env → AdcReadFormat → Host → Outcome (ℕ × Host)
sys_adc_read env req h =
    mt_request env (mt_finish env) sys_sreq 0x0d (2)
      (λ c. puts (req.channel ∷ req.resolution ∷ []) c) h

unfoldable pub sys_gpio : Env → GpioFormat → Host → Outcome (ℕ × Host)
sys_gpio env req h =
    mt_request env (mt_finish env) sys_sreq 0x0e (2) (λ c. puts (req.operation ∷ req.value ∷ []) c)
      h

unfoldable pub sys_random : Env → Host → Outcome (ℕ × Host)
sys_random env h = mt_empty env sys_sreq 0x0c h

unfoldable pub sys_set_time : Env → SetTimeFormat → Host → Outcome (ℕ × Host)
sys_set_time env req h =
    mt_request env (mt_finish env) sys_sreq 0x10 (11)
      (λ c. put_copy 4 req.utc_time c >>= λ c.
        puts
          (req.hour
            ∷ req.minute
            ∷ req.second
            ∷ req.month
            ∷ req.day
            ∷ lo_byte req.year
            ∷ hi_byte req.year
            ∷ [])
          c)
      h

unfoldable pub sys_get_time : Env → Host → Outcome (ℕ × Host)
sys_get_time env h = mt_empty env sys_sreq 0x11 h

unfoldable pub sys_set_tx_power : Env → SetTxPowerFormat → Host → Outcome (ℕ × Host)
sys_set_tx_power env req h =
    mt_request env (mt_finish env) sys_sreq 0x14 (1) (λ c. puts (req.tx_power ∷ []) c) h

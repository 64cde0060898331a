-- ===== src/Sys/Process.antt =====
-- `sysProcess` of framework/mt/Sys/mtSys.c, with `processSrsp`.
use znp_host_framework.Base.{ℕ, List, [], if◌then◌else◌, ◌==◌, get_elem?, bit_and}
use znp_host_framework.Rpc.{Outcome, done, ◌>>=◌, checked, mt_rpc_cmd_type_mask, mt_rpc_cmd_srsp}
use znp_host_framework.Mt.Dispatch.{deliver, copy_srsp}
use znp_host_framework.Mt.Lists.{made}
use znp_host_framework.Sys.Events.{
  SysEvent, SysCallbacks, ping_srsp, get_ext_addr_srsp, ram_read_srsp, reset_ind, version_srsp,
  osal_nv_read_srsp, osal_nv_length_srsp, osal_timer_expired, stack_tune_srsp, adc_read_srsp,
  gpio_srsp, random_srsp, get_time_srsp, set_tx_power_srsp,
}
use znp_host_framework.Sys.Handlers.{
  process_ping_srsp, process_get_ext_addr_srsp, process_ram_read_srsp, process_reset_ind,
  process_version_srsp, process_osal_nv_read_srsp, process_osal_nv_length_srsp,
  process_osal_timer_expired, process_stack_tune_srsp, process_adc_read_srsp, process_gpio_srsp,
  process_random_srsp, process_get_time_srsp, process_set_tx_power_srsp,
}

-- The `switch` of `processSrsp`.
unfoldable pub sys_srsp_switch :
    SysCallbacks → (cmd1 : ℕ) (rpc_buff : List ℕ) (rpc_len : ℕ) → Outcome (List SysEvent)
sys_srsp_switch cbs cmd1 rpc_buff rpc_len =
    if cmd1 == 0x01
    then deliver cbs.pfn_sys_ping_srsp (made ping_srsp process_ping_srsp) rpc_buff
    else if cmd1 == 0x04
    then deliver cbs.pfn_sys_get_ext_addr_srsp (made get_ext_addr_srsp process_get_ext_addr_srsp)
        rpc_buff
    else if cmd1 == 0x05
    then deliver cbs.pfn_sys_ram_read_srsp (made ram_read_srsp (process_ram_read_srsp rpc_len))
        rpc_buff
    else if cmd1 == 0x02
    then deliver cbs.pfn_sys_version_srsp (made version_srsp process_version_srsp) rpc_buff
    else if cmd1 == 0x08
    then deliver cbs.pfn_sys_osal_nv_read_srsp
        (made osal_nv_read_srsp (process_osal_nv_read_srsp rpc_len)) rpc_buff
    else if cmd1 == 0x13
    then deliver cbs.pfn_sys_osal_nv_length_srsp
        (made osal_nv_length_srsp process_osal_nv_length_srsp) rpc_buff
    else if cmd1 == 0x0f
    then deliver cbs.pfn_sys_stack_tune_srsp (made stack_tune_srsp process_stack_tune_srsp) rpc_buff
    else if cmd1 == 0x0d
    then deliver cbs.pfn_sys_adc_read_srsp (made adc_read_srsp process_adc_read_srsp) rpc_buff
    else if cmd1 == 0x0e
    then deliver cbs.pfn_sys_gpio_srsp (made gpio_srsp process_gpio_srsp) rpc_buff
    else if cmd1 == 0x0c
    then deliver cbs.pfn_sys_random_srsp (made random_srsp process_random_srsp) rpc_buff
    else if cmd1 == 0x11
    then deliver cbs.pfn_sys_get_time_srsp (made get_time_srsp process_get_time_srsp) rpc_buff
    else if cmd1 == 0x14
    then deliver cbs.pfn_sys_set_tx_power_srsp (made set_tx_power_srsp process_set_tx_power_srsp)
        rpc_buff
    else done []

-- The `switch` of `sysProcess`.
unfoldable pub sys_areq_switch :
    SysCallbacks → (cmd1 : ℕ) (rpc_buff : List ℕ) → Outcome (List SysEvent)
sys_areq_switch cbs cmd1 rpc_buff =
    if cmd1 == 0x80
    then deliver cbs.pfn_sys_reset_ind (made reset_ind process_reset_ind) rpc_buff
    else if cmd1 == 0x81
    then deliver cbs.pfn_sys_osal_timer_expired (made osal_timer_expired process_osal_timer_expired)
        rpc_buff
    else done []

-- `processSrsp`: the message is kept, and the handler for it called. The result has the callbacks
-- called and `srspRpcBuff`.
unfoldable pub sys_process_srsp :
    SysCallbacks
    → (cmd1 : ℕ) (rpc_buff : List ℕ) (rpc_len : ℕ) (srsp_rpc_buff : List ℕ)
    → Outcome (List SysEvent × List ℕ)
sys_process_srsp cbs cmd1 rpc_buff rpc_len srsp_rpc_buff =
    copy_srsp srsp_rpc_buff rpc_buff rpc_len >>= λ kept.
    sys_srsp_switch cbs cmd1 rpc_buff rpc_len >>= λ events. done (events, kept)

unfoldable pub sys_process :
    SysCallbacks
    → (rpc_buff : List ℕ) (rpc_len : ℕ) (srsp_rpc_buff : List ℕ) → Outcome (List SysEvent × List ℕ)
sys_process cbs rpc_buff rpc_len srsp_rpc_buff = do
  cmd0 ← checked (get_elem? rpc_buff 0)
  cmd1 ← checked (get_elem? rpc_buff 1)
  if bit_and cmd0 mt_rpc_cmd_type_mask == mt_rpc_cmd_srsp
      then sys_process_srsp cbs cmd1 rpc_buff rpc_len srsp_rpc_buff
      else (sys_areq_switch cbs cmd1 rpc_buff >>= λ events. done (events, srsp_rpc_buff))

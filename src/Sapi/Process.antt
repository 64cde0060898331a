-- ===== src/Sapi/Process.antt =====
-- `sapiProcess` of framework/mt/Sapi/mtSapi.c and its handlers. A handler that finds the message too
-- short prints that and goes on, so the test has no effect on what it reads.
use znp_host_framework.Base.{ℕ, List, [], bit_and, ◌==◌, if◌then◌else◌, get_elem?}
use znp_host_framework.Rpc.{Outcome, done, ◌>>=◌, checked, mt_rpc_cmd_type_mask, mt_rpc_cmd_srsp}
use znp_host_framework.Mt.Reader.{
  Reader, give, read_then, take_byte, take_word, take_wide, take_bytes, take_data,
}
use znp_host_framework.Mt.Dispatch.{deliver, copy_srsp}
use znp_host_framework.Sapi.Events.{
  SapiEvent, read_configuration_srsp, get_device_info_srsp, find_device_cnf, send_data_cnf,
  receive_data_ind, allow_bind_cnf, bind_cnf, start_cnf, SapiCallbacks,
}

-- `sapiRegisterCallbacks`
abbrev pub sapi_register_callbacks : (cbs mt_sapi_cbs : SapiCallbacks) → SapiCallbacks
sapi_register_callbacks cbs mt_sapi_cbs = cbs

unfoldable pub process_read_configuration_srsp : ℕ → Reader SapiEvent
process_read_configuration_srsp rpc_len = read_then take_byte λ status.
    read_then take_byte λ config_id. read_then take_byte λ len.
      read_then (take_data rpc_len 3 len 128) λ value. give (
        read_configuration_srsp
          (record { status = status; config_id = config_id; len = len; value = value }))

unfoldable pub process_get_device_info_srsp : Reader SapiEvent
process_get_device_info_srsp = read_then take_byte λ param.
    read_then (take_bytes 8 8)
      λ value. give (get_device_info_srsp (record { param = param; value = value }))

unfoldable pub process_find_device_cnf : Reader SapiEvent
process_find_device_cnf = read_then take_word λ search_key.
    read_then (take_wide 8 0 0)
      λ result. give (find_device_cnf (record { search_key = search_key; result = result }))

unfoldable pub process_send_data_cnf : Reader SapiEvent
process_send_data_cnf = read_then take_byte λ handle.
    read_then take_byte λ status. give (send_data_cnf (record { handle = handle; status = status }))

unfoldable pub process_receive_data_ind : ℕ → Reader SapiEvent
process_receive_data_ind rpc_len = read_then take_word λ source. read_then take_word λ command.
    read_then take_word λ len. read_then (take_data rpc_len 6 len 84) λ bytes.
      give
        (receive_data_ind (record { source = source; command = command; len = len; bytes = bytes }))

unfoldable pub process_allow_bind_cnf : Reader SapiEvent
process_allow_bind_cnf =
    read_then take_word λ source. give (allow_bind_cnf (record { source = source }))

unfoldable pub process_bind_cnf : Reader SapiEvent
process_bind_cnf = read_then take_word λ command_id.
    read_then take_byte
      λ status. give (bind_cnf (record { command_id = command_id; status = status }))

unfoldable pub process_start_cnf : Reader SapiEvent
process_start_cnf = read_then take_byte λ status. give (start_cnf (record { status = status }))

-- `processSrsp`: the message is kept, and the handler for it called. The result has the callbacks
-- called and `srspRpcBuff`.
unfoldable pub sapi_process_srsp :
    SapiCallbacks
    → (cmd1 : ℕ) (rpc_buff : List ℕ) (rpc_len : ℕ) (srsp_rpc_buff : List ℕ)
    → Outcome (List SapiEvent × List ℕ)
sapi_process_srsp cbs cmd1 rpc_buff rpc_len srsp_rpc_buff =
    copy_srsp srsp_rpc_buff rpc_buff rpc_len >>= λ kept.
    (if cmd1 == 0x04
      then deliver cbs.pfn_read_configuration_srsp (process_read_configuration_srsp rpc_len)
          rpc_buff
      else if cmd1 == 0x06
      then deliver cbs.pfn_get_device_info_srsp process_get_device_info_srsp rpc_buff
      else done [])
    >>= λ events. done (events, kept)

-- The `switch` of `sapiProcess`.
unfoldable pub sapi_process_areq :
    SapiCallbacks → (cmd1 : ℕ) (rpc_buff : List ℕ) (rpc_len : ℕ) → Outcome (List SapiEvent)
sapi_process_areq cbs cmd1 rpc_buff rpc_len =
    if cmd1 == 0x85
    then deliver cbs.pfn_find_device_cnf process_find_device_cnf rpc_buff
    else if cmd1 == 0x83
    then deliver cbs.pfn_send_data_cnf process_send_data_cnf rpc_buff
    else if cmd1 == 0x87
    then deliver cbs.pfn_receive_data_ind (process_receive_data_ind rpc_len) rpc_buff
    else if cmd1 == 0x82
    then deliver cbs.pfn_allow_bind_cnf process_allow_bind_cnf rpc_buff
    else if cmd1 == 0x81
    then deliver cbs.pfn_bind_cnf process_bind_cnf rpc_buff
    else if cmd1 == 0x80
    then deliver cbs.pfn_start_cnf process_start_cnf rpc_buff
    else done []

unfoldable pub sapi_process :
    SapiCallbacks
    → (rpc_buff : List ℕ) (rpc_len : ℕ) (srsp_rpc_buff : List ℕ) → Outcome (List SapiEvent × List ℕ)
sapi_process cbs rpc_buff rpc_len srsp_rpc_buff = do
  cmd0 ← checked (get_elem? rpc_buff 0)
  cmd1 ← checked (get_elem? rpc_buff 1)
  if bit_and cmd0 mt_rpc_cmd_type_mask == mt_rpc_cmd_srsp
      then sapi_process_srsp cbs cmd1 rpc_buff rpc_len srsp_rpc_buff
      else (sapi_process_areq cbs cmd1 rpc_buff rpc_len >>= λ events. done (events, srsp_rpc_buff))

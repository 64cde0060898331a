-- ===== src/Sapi/Requests.antt =====
-- The request functions of framework/mt/Sapi/mtSapi.c, each with its length and the statements that
-- fill the command buffer.
use znp_host_framework.Base.{ℕ, ◌+◌, ◌*◌, [], ◌∷◌}
use znp_host_framework.Base.Bytes.{lo_byte, hi_byte}
use znp_host_framework.Rpc.{Outcome, done, ◌>>=◌, mt_rpc_cmd_sreq, mt_rpc_sys_sapi}
use znp_host_framework.Mt.Writer.{puts, put_array, put_words, put_copy}
use znp_host_framework.Mt.Host.{Host, Env}
use znp_host_framework.Mt.Call.{send_frame, mt_finish, mt_empty, mt_request}
use znp_host_framework.Sapi.Formats.{
  AppRegisterReqFormat, PermitJoiningReqFormat, BindDeviceFormat, AllowBindFormat,
  SendDataReqFormat, FindDeviceReqFormat, WriteConfigurationFormat, GetDeviceInfoFormat,
  ReadConfigurationFormat,
}

-- `MT_RPC_CMD_SREQ | MT_RPC_SYS_SAPI`; the two have no bit in common
abbrev pub sapi_sreq : ℕ
sapi_sreq = mt_rpc_cmd_sreq + mt_rpc_sys_sapi

-- `MT_RPC_CMD_AREQ | MT_RPC_SYS_SAPI`
abbrev pub sapi_areq : ℕ
sapi_areq = 0x40 + mt_rpc_sys_sapi

-- The status of `rpcSendFrame` is not looked at: the result is `SUCCESS`.
unfoldable pub zb_system_reset : Env → Host → Outcome (ℕ × Host)
zb_system_reset env r = send_frame env sapi_areq 0x09 [] 0 r >>= λ x. done (0, x.1)

unfoldable pub zb_app_register_req : Env → AppRegisterReqFormat → Host → Outcome (ℕ × Host)
zb_app_register_req env req r =
    mt_request env (mt_finish env) sapi_sreq 0x0a
      (9 + req.input_commands_num * 2 + req.output_commands_num * 2)
      (λ c.
        puts
          (req.app_endpoint
            ∷ lo_byte req.app_profile_id
            ∷ hi_byte req.app_profile_id
            ∷ lo_byte req.device_id
            ∷ hi_byte req.device_id
            ∷ req.device_version
            ∷ req.unused
            ∷ req.input_commands_num
            ∷ [])
          c
        >>= λ c. put_words req.input_commands_num 0 req.input_commands_list c >>= λ c.
            puts (req.output_commands_num ∷ []) c >>= λ c.
            put_words req.output_commands_num 0 req.output_commands_list c)
      r

unfoldable pub zb_start_req : Env → Host → Outcome (ℕ × Host)
zb_start_req env r = mt_empty env sapi_sreq 0x00 r

unfoldable pub zb_permit_joining_req : Env → PermitJoiningReqFormat → Host → Outcome (ℕ × Host)
zb_permit_joining_req env req r =
    mt_request env (mt_finish env) sapi_sreq 0x08 3
      (λ c. puts (lo_byte req.destination ∷ hi_byte req.destination ∷ req.timeout ∷ []) c) r

unfoldable pub zb_bind_device : Env → BindDeviceFormat → Host → Outcome (ℕ × Host)
zb_bind_device env req r =
    mt_request env (mt_finish env) sapi_sreq 0x01 11
      (λ c. puts (req.create ∷ lo_byte req.command_id ∷ hi_byte req.command_id ∷ []) c >>= λ c.
        put_copy 8 req.dst_ieee c)
      r

unfoldable pub zb_allow_bind : Env → AllowBindFormat → Host → Outcome (ℕ × Host)
zb_allow_bind env req r =
    mt_request env (mt_finish env) sapi_sreq 0x02 1 (λ c. puts (req.timeout ∷ []) c) r

unfoldable pub zb_send_data_req : Env → SendDataReqFormat → Host → Outcome (ℕ × Host)
zb_send_data_req env req r =
    mt_request env (mt_finish env) sapi_sreq 0x03 (8 + req.len)
      (λ c.
        puts
          (lo_byte req.destination
            ∷ hi_byte req.destination
            ∷ lo_byte req.command_id
            ∷ hi_byte req.command_id
            ∷ req.handle
            ∷ req.ack
            ∷ req.radius
            ∷ req.len
            ∷ [])
          c
        >>= λ c. put_array req.len 0 req.bytes c)
      r

unfoldable pub zb_find_device_req : Env → FindDeviceReqFormat → Host → Outcome (ℕ × Host)
zb_find_device_req env req r =
    mt_request env (mt_finish env) sapi_sreq 0x07 8 (λ c. put_copy 8 req.search_key c) r

-- The buffer has one byte more than is written.
unfoldable pub zb_write_configuration : Env → WriteConfigurationFormat → Host → Outcome (ℕ × Host)
zb_write_configuration env req r =
    mt_request env (mt_finish env) sapi_sreq 0x05 (3 + req.len)
      (λ c. puts (req.config_id ∷ req.len ∷ []) c >>= λ c. put_array req.len 0 req.value c) r

unfoldable pub zb_get_device_info : Env → GetDeviceInfoFormat → Host → Outcome (ℕ × Host)
zb_get_device_info env req r =
    mt_request env (mt_finish env) sapi_sreq 0x06 1 (λ c. puts (req.param ∷ []) c) r

unfoldable pub zb_read_configuration : Env → ReadConfigurationFormat → Host → Outcome (ℕ × Host)
zb_read_configuration env req r =
    mt_request env (mt_finish env) sapi_sreq 0x04 1 (λ c. puts (req.config_id ∷ []) c) r

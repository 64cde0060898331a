-- ===== src/Sapi/Decoding.antt =====
-- What the messages to the host look like, and that `sapiProcess` calls the callback with what a
-- message says.
use znp_host_framework.Base.{
  ℕ, ◌+◌, ◌^◌, ◌<◌, ◌≤◌, ◌≡◌, refl, List, [], ◌∷◌, ◌++◌, length, drop, Bool, ◌==◌, if◌then◌else◌,
  arith, length-append,
}
use znp_host_framework.Base.Bytes.{lo_byte, hi_byte}
use znp_host_framework.Rpc.{done}
use znp_host_framework.Mt.Reader.{
  Reads, wide_bytes, chain, give-Reads, take_byte-Reads, take_word-Reads, take_wide-Reads,
  take_bytes, take_bytes_of, take_data, take_data-Reads, last-Reads,
}
use znp_host_framework.Mt.Dispatch.{deliver-Reads, copy_srsp_lem, behind_fcs}
use znp_host_framework.Sapi.Events.{
  ReadConfigurationSrspFormat, GetDeviceInfoSrspFormat, FindDeviceCnfFormat, ReceiveDataIndFormat,
  SapiEvent, read_configuration_srsp, get_device_info_srsp, find_device_cnf, send_data_cnf,
  receive_data_ind, allow_bind_cnf, bind_cnf, start_cnf, SapiCallbacks,
}
use znp_host_framework.Sapi.Process.{
  process_read_configuration_srsp, process_get_device_info_srsp, process_find_device_cnf,
  process_send_data_cnf, process_receive_data_ind, process_allow_bind_cnf, process_bind_cnf,
  process_start_cnf, sapi_process_srsp, sapi_process_areq, sapi_process,
}

-- The first two bytes of a message: `MT_RPC_CMD_AREQ | MT_RPC_SYS_SAPI` or
-- `MT_RPC_CMD_SRSP | MT_RPC_SYS_SAPI`, and the command number.
abbrev pub cmd0_of : SapiEvent → ℕ
cmd0_of (read_configuration_srsp e) = 0x66
cmd0_of (get_device_info_srsp e) = 0x66
cmd0_of e = 0x46

abbrev pub cmd1_of : SapiEvent → ℕ
cmd1_of (read_configuration_srsp e) = 0x04
cmd1_of (get_device_info_srsp e) = 0x06
cmd1_of (find_device_cnf e) = 0x85
cmd1_of (send_data_cnf e) = 0x83
cmd1_of (receive_data_ind e) = 0x87
cmd1_of (allow_bind_cnf e) = 0x82
cmd1_of (bind_cnf e) = 0x81
cmd1_of (start_cnf e) = 0x80

-- The payload of a message.
abbrev pub payload_of : SapiEvent → List ℕ
payload_of (read_configuration_srsp e) = e.status ∷ e.config_id ∷ e.len ∷ e.value
payload_of (get_device_info_srsp e) = e.param ∷ e.value
payload_of (find_device_cnf e) = lo_byte e.search_key ∷ hi_byte e.search_key ∷ wide_bytes 8 e.result
payload_of (send_data_cnf e) = e.handle ∷ e.status ∷ []
payload_of (receive_data_ind e) =
    lo_byte e.source
    ∷ hi_byte e.source
    ∷ lo_byte e.command
    ∷ hi_byte e.command
    ∷ lo_byte e.len
    ∷ hi_byte e.len
    ∷ e.bytes
payload_of (allow_bind_cnf e) = lo_byte e.source ∷ hi_byte e.source ∷ []
payload_of (bind_cnf e) = lo_byte e.command_id ∷ hi_byte e.command_id ∷ e.status ∷ []
payload_of (start_cnf e) = e.status ∷ []

-- The words fit their types, the length is that of the data, and the data has room in the struct.
abbrev pub IsValid : SapiEvent → Type 0
IsValid (read_configuration_srsp e) = (e.len ≡ length e.value) × (e.len ≤ 128)
IsValid (get_device_info_srsp e) = 8 ≡ length e.value
IsValid (find_device_cnf e) = (e.search_key < 65536) × (e.result < 2 ^ 64)
IsValid (receive_data_ind e) =
    (e.source < 65536) × (e.command < 65536) × (e.len ≡ length e.bytes) × (e.len ≤ 84)
IsValid (allow_bind_cnf e) = e.source < 65536
IsValid (bind_cnf e) = e.command_id < 65536
IsValid (send_data_cnf e) = Unit {0}
IsValid (start_cnf e) = Unit {0}

-- Whether the callback of the event is registered.
abbrev pub is_registered : SapiCallbacks → SapiEvent → Bool
is_registered cbs (read_configuration_srsp e) = cbs.pfn_read_configuration_srsp
is_registered cbs (get_device_info_srsp e) = cbs.pfn_get_device_info_srsp
is_registered cbs (find_device_cnf e) = cbs.pfn_find_device_cnf
is_registered cbs (send_data_cnf e) = cbs.pfn_send_data_cnf
is_registered cbs (receive_data_ind e) = cbs.pfn_receive_data_ind
is_registered cbs (allow_bind_cnf e) = cbs.pfn_allow_bind_cnf
is_registered cbs (bind_cnf e) = cbs.pfn_bind_cnf
is_registered cbs (start_cnf e) = cbs.pfn_start_cnf

process_read_configuration_srsp-Reads :
    (e : ReadConfigurationSrspFormat) (n : ℕ)
    → 3 < n
    → IsValid (read_configuration_srsp e)
    → Reads
        (process_read_configuration_srsp n)
        (payload_of (read_configuration_srsp e))
        (read_configuration_srsp e)
unfolding process_read_configuration_srsp
process_read_configuration_srsp-Reads e n more (size, room) = chain _ (take_byte-Reads e.status) (
    chain _ (take_byte-Reads e.config_id) (
      chain _ (take_byte-Reads e.len) (
        last-Reads (take_data n 3 e.len 128) _ e.value
          (take_data-Reads n 3 e.len e.value 128 more size room))))

process_get_device_info_srsp-Reads :
    (e : GetDeviceInfoSrspFormat)
    → IsValid (get_device_info_srsp e)
    → Reads process_get_device_info_srsp
        (payload_of (get_device_info_srsp e))
        (get_device_info_srsp e)
unfolding process_get_device_info_srsp
process_get_device_info_srsp-Reads e eight =
    chain _ (take_byte-Reads e.param)
      (last-Reads (take_bytes 8 8) _ e.value (take_bytes_of 8 e.value 8 eight (omega arith)))

process_find_device_cnf-Reads :
    (e : FindDeviceCnfFormat)
    → IsValid (find_device_cnf e)
    → Reads process_find_device_cnf (payload_of (find_device_cnf e)) (find_device_cnf e)
unfolding process_find_device_cnf
process_find_device_cnf-Reads e (key, result) =
    chain _ (take_word-Reads e.search_key key)
      (chain _ (take_wide-Reads 8 e.result result) (give-Reads _))

process_receive_data_ind-Reads :
    (e : ReceiveDataIndFormat) (n : ℕ)
    → 6 < n
    → IsValid (receive_data_ind e)
    → Reads (process_receive_data_ind n) (payload_of (receive_data_ind e)) (receive_data_ind e)
unfolding process_receive_data_ind
process_receive_data_ind-Reads e n more (source, command, size, room) =
    chain _ (take_word-Reads e.source source) (
      chain _ (take_word-Reads e.command command) (
        chain _ (take_word-Reads e.len (omega (arith, room))) (
          last-Reads (take_data n 6 e.len 84) _ e.bytes
            (take_data-Reads n 6 e.len e.bytes 84 more size room))))

-- The message as it stands in `rpcBuff`: command, payload and check byte.
abbrev pub message_of : SapiEvent → ℕ → List ℕ
message_of e fcs = cmd0_of e ∷ cmd1_of e ∷ (payload_of e ++ fcs ∷ [])

-- What `srspRpcBuff` holds afterwards: a response is kept.
abbrev pub kept : SapiEvent → (fcs : ℕ) (srsp : List ℕ) → List ℕ
kept e fcs srsp =
    if cmd0_of e == 0x66 then message_of e fcs ++ drop (length (message_of e fcs)) srsp else srsp

size_of : (e : SapiEvent) (fcs : ℕ) → length (message_of e fcs) ≡ 3 + length (payload_of e)
size_of e fcs = omega (arith, length-append (payload_of e) (fcs ∷ []))

-- A message to the host, in a buffer that may hold anything behind it, makes `sapiProcess` call the
-- callback of its command, if that is registered, with exactly what the message says, and no other;
-- a response is also kept in `srspRpcBuff`, which a message of another kind leaves as it is. The
-- words are to fit their types, the length that of the data, and
-- the data its array; `srspRpcBuff` has 256 bytes.
pub sapi_process-event :
    (cbs : SapiCallbacks) (e : SapiEvent) (fcs : ℕ) (back srsp : List ℕ)
    → IsValid e
    → length srsp ≡ 256
    → sapi_process cbs (message_of e fcs ++ back) (length (message_of e fcs)) srsp
      ≡ done (if is_registered cbs e then e ∷ [] else [], kept e fcs srsp)
unfolding sapi_process sapi_process_areq sapi_process_srsp process_send_data_cnf
    process_allow_bind_cnf process_bind_cnf process_start_cnf
sapi_process-event cbs (read_configuration_srsp e) fcs back srsp (size', room) size =
    let msg = message_of (read_configuration_srsp e) fcs in
    let long = size_of (read_configuration_srsp e) fcs in
    rw
      (
        copy_srsp_lem srsp msg back (length msg) refl (omega (arith, long, room, size', size)),
        behind_fcs (payload_of (read_configuration_srsp e)) fcs back,
      )
      (rw
        (deliver-Reads cbs.pfn_read_configuration_srsp
          (process_read_configuration_srsp (length msg)) 0x66 0x04
          (payload_of (read_configuration_srsp e)) (fcs ∷ back) (read_configuration_srsp e)
          (process_read_configuration_srsp-Reads e (length msg) (omega (arith, long)) (size', room))
          (omega (arith, room, size')))
        refl)
sapi_process-event cbs (get_device_info_srsp e) fcs back srsp eight size =
    let msg = message_of (get_device_info_srsp e) fcs in
    let long = size_of (get_device_info_srsp e) fcs in
    rw
      (
        copy_srsp_lem srsp msg back (length msg) refl (omega (arith, long, eight, size)),
        behind_fcs (payload_of (get_device_info_srsp e)) fcs back,
      )
      (rw
        (deliver-Reads cbs.pfn_get_device_info_srsp process_get_device_info_srsp 0x66 0x06
          (payload_of (get_device_info_srsp e)) (fcs ∷ back) (get_device_info_srsp e)
          (process_get_device_info_srsp-Reads e eight) (omega (arith, eight)))
        refl)
sapi_process-event cbs (find_device_cnf e) fcs back srsp valid size =
    rw
      (deliver-Reads cbs.pfn_find_device_cnf process_find_device_cnf 0x46 0x85
        (payload_of (find_device_cnf e)) (fcs ∷ back) (find_device_cnf e)
        (process_find_device_cnf-Reads e valid) (omega arith))
      refl
sapi_process-event cbs (send_data_cnf e) fcs back srsp ok size =
    rw
      (deliver-Reads cbs.pfn_send_data_cnf process_send_data_cnf 0x46 0x83
        (payload_of (send_data_cnf e)) (fcs ∷ back) (send_data_cnf e)
        (chain _ (take_byte-Reads e.handle) (chain _ (take_byte-Reads e.status) (give-Reads _)))
        (omega arith))
      refl
sapi_process-event cbs (receive_data_ind e) fcs back srsp (source, command, size', room) size =
    let n = length (message_of (receive_data_ind e) fcs) in
    let long = size_of (receive_data_ind e) fcs in
    rw (behind_fcs (payload_of (receive_data_ind e)) fcs back) (
      rw
        (deliver-Reads cbs.pfn_receive_data_ind (process_receive_data_ind n) 0x46 0x87
          (payload_of (receive_data_ind e)) (fcs ∷ back) (receive_data_ind e)
          (process_receive_data_ind-Reads e n (omega (arith, long)) (source, command, size', room))
          (omega (arith, room, size')))
        refl)
sapi_process-event cbs (allow_bind_cnf e) fcs back srsp bound size =
    rw
      (deliver-Reads cbs.pfn_allow_bind_cnf process_allow_bind_cnf 0x46 0x82
        (payload_of (allow_bind_cnf e)) (fcs ∷ back) (allow_bind_cnf e)
        (chain _ (take_word-Reads e.source bound) (give-Reads _)) (omega arith))
      refl
sapi_process-event cbs (bind_cnf e) fcs back srsp bound size =
    rw
      (deliver-Reads cbs.pfn_bind_cnf process_bind_cnf 0x46 0x81 (payload_of (bind_cnf e))
        (fcs ∷ back) (bind_cnf e)
        (chain _ (take_word-Reads e.command_id bound)
          (chain _ (take_byte-Reads e.status) (give-Reads _)))
        (omega arith))
      refl
sapi_process-event cbs (start_cnf e) fcs back srsp ok size =
    rw
      (deliver-Reads cbs.pfn_start_cnf process_start_cnf 0x46 0x80 (payload_of (start_cnf e))
        (fcs ∷ back) (start_cnf e) (chain _ (take_byte-Reads e.status) (give-Reads _))
        (omega arith))
      refl

-- ===== src/Sapi/Encoding.antt =====
-- What the request functions of framework/mt/Sapi/mtSapi.c send: each request of the interface as a
-- message, its command number and its payload by the format, and that the function for it calls
-- `rpcSendFrame` with exactly this.
use znp_host_framework.Base.{
  ℕ, ◌+◌, ◌*◌, ◌≤◌, ◌≡◌, refl, ap, Option, some, List, [], ◌∷◌, ◌++◌, length, take, drop, arith,
  length-append,
}
use znp_host_framework.Base.Bytes.{lo_byte, hi_byte}
use znp_host_framework.Rpc.{Outcome, ◌>>=◌}
use znp_host_framework.Mt.Writer.{
  Cmd, Writes, Fits, word_bytes, puts, put_array, puts-Writes, then-Writes, put_array-Writes,
  put_words-Writes, put_copy-Writes, length-words, length-taken,
}
use znp_host_framework.Mt.Host.{Host, Env}
use znp_host_framework.Mt.Call.{
  IsAllocator, send_frame, transmit, mt_empty, mt_finish, mt_request, mt_with, mt_request-Writes,
}
use znp_host_framework.Sapi.Formats.{
  AppRegisterReqFormat, PermitJoiningReqFormat, BindDeviceFormat, AllowBindFormat,
  SendDataReqFormat, FindDeviceReqFormat, WriteConfigurationFormat, GetDeviceInfoFormat,
  ReadConfigurationFormat,
}
use znp_host_framework.Sapi.Requests.{
  sapi_sreq, zb_app_register_req, zb_start_req, zb_permit_joining_req, zb_bind_device,
  zb_allow_bind, zb_send_data_req, zb_find_device_req, zb_write_configuration, zb_get_device_info,
  zb_read_configuration,
}

-- A synchronous call of the interface, but for `zbWriteConfiguration`.
pub data SapiRequest : Type 0 where
  app_register : AppRegisterReqFormat → SapiRequest
  start : SapiRequest
  permit_joining : PermitJoiningReqFormat → SapiRequest
  bind_device : BindDeviceFormat → SapiRequest
  allow_bind : AllowBindFormat → SapiRequest
  send_data : SendDataReqFormat → SapiRequest
  find_device : FindDeviceReqFormat → SapiRequest
  get_device_info : GetDeviceInfoFormat → SapiRequest
  read_configuration : ReadConfigurationFormat → SapiRequest

-- The function that is called.
unfoldable pub sapi_request : Env → SapiRequest → Host → Outcome (ℕ × Host)
sapi_request env (app_register req) r = zb_app_register_req env req r
sapi_request env start r = zb_start_req env r
sapi_request env (permit_joining req) r = zb_permit_joining_req env req r
sapi_request env (bind_device req) r = zb_bind_device env req r
sapi_request env (allow_bind req) r = zb_allow_bind env req r
sapi_request env (send_data req) r = zb_send_data_req env req r
sapi_request env (find_device req) r = zb_find_device_req env req r
sapi_request env (get_device_info req) r = zb_get_device_info env req r
sapi_request env (read_configuration req) r = zb_read_configuration env req r

-- The command numbers, `MT_SAPI_START_REQ` to `MT_SAPI_APP_REGISTER_REQ`.
abbrev pub command : SapiRequest → ℕ
command (app_register req) = 0x0a
command start = 0x00
command (permit_joining req) = 0x08
command (bind_device req) = 0x01
command (allow_bind req) = 0x02
command (send_data req) = 0x03
command (find_device req) = 0x07
command (get_device_info req) = 0x06
command (read_configuration req) = 0x04

-- The payload of each command.
abbrev pub encode : SapiRequest → List ℕ
encode (app_register req) =
    req.app_endpoint
    ∷ lo_byte req.app_profile_id
    ∷ hi_byte req.app_profile_id
    ∷ lo_byte req.device_id
    ∷ hi_byte req.device_id
    ∷ req.device_version
    ∷ req.unused
    ∷ req.input_commands_num
    ∷ (word_bytes (take req.input_commands_num req.input_commands_list)
        ++ req.output_commands_num
          ∷ word_bytes (take req.output_commands_num req.output_commands_list))
encode start = []
encode (permit_joining req) = lo_byte req.destination ∷ hi_byte req.destination ∷ req.timeout ∷ []
encode (bind_device req) =
    req.create ∷ lo_byte req.command_id ∷ hi_byte req.command_id ∷ req.dst_ieee
encode (allow_bind req) = req.timeout ∷ []
encode (send_data req) =
    lo_byte req.destination
    ∷ hi_byte req.destination
    ∷ lo_byte req.command_id
    ∷ hi_byte req.command_id
    ∷ req.handle
    ∷ req.ack
    ∷ req.radius
    ∷ req.len
    ∷ take req.len req.bytes
encode (find_device req) = req.search_key
encode (get_device_info req) = req.param ∷ []
encode (read_configuration req) = req.config_id ∷ []

-- The memory that the call gets; `zbStartReq` needs none.
abbrev pub memory : Env → SapiRequest → Option (List ℕ)
memory env start = some []
memory env q = env.malloc (length (encode q))

-- The counts of a request are within its arrays, which have the sizes of the header where these
-- are fixed, and the payload is at most 256 bytes.
abbrev pub IsValid : SapiRequest → Type 0
IsValid (app_register req) =
    (req.input_commands_num ≤ length req.input_commands_list)
    × (req.output_commands_num ≤ length req.output_commands_list)
    × (9 + req.input_commands_num * 2 + req.output_commands_num * 2 ≤ 256)
IsValid (bind_device req) = length req.dst_ieee ≡ 8
IsValid (send_data req) = (req.len ≤ length req.bytes) × (8 + req.len ≤ 256)
IsValid (find_device req) = length req.search_key ≡ 8
IsValid q = Unit {0}

-- The size of the payload.
unfoldable size : SapiRequest → ℕ
size (app_register req) = 9 + req.input_commands_num * 2 + req.output_commands_num * 2
size start = 0
size (permit_joining req) = 3
size (bind_device req) = 11
size (allow_bind req) = 1
size (send_data req) = 8 + req.len
size (find_device req) = 8
size (get_device_info req) = 1
size (read_configuration req) = 1

encode-size :
    (q : SapiRequest) → IsValid q → (size q ≡ length (encode q)) × (length (encode q) ≤ 256)
unfolding size
encode-size (app_register req) (ins, outs, short) =
    let sum = length-append (word_bytes (take req.input_commands_num req.input_commands_list)) (
      req.output_commands_num
      ∷ word_bytes (take req.output_commands_num req.output_commands_list)) in
    let first = length-words req.input_commands_num req.input_commands_list ins in
    let second = length-words req.output_commands_num req.output_commands_list outs in
    (omega (arith, sum, first, second), omega (arith, sum, first, second, short))
encode-size start ok = (refl, omega arith)
encode-size (permit_joining req) ok = (refl, omega arith)
encode-size (bind_device req) eight = (omega (arith, eight), omega (arith, eight))
encode-size (allow_bind req) ok = (refl, omega arith)
encode-size (send_data req) (within, short) =
    let taken = length-taken req.len req.bytes within in
    (omega (arith, taken), omega (arith, taken, short))
encode-size (find_device req) eight = (omega (arith, eight), omega (arith, eight))
encode-size (get_device_info req) ok = (refl, omega arith)
encode-size (read_configuration req) ok = (refl, omega arith)

-- The bytes written are those of the format.
sends :
    (env : Env) (cmd1 : ℕ) (fill : Cmd → Outcome Cmd) (q : SapiRequest) (r : Host)
    → IsAllocator env.malloc
    → IsValid q
    → Writes fill (encode q)
    → mt_request env (mt_finish env) sapi_sreq cmd1 (size q) fill r
      ≡ transmit env (mt_finish env) sapi_sreq cmd1 (encode q) r (env.malloc (length (encode q)))
sends env cmd1 fill q r allocates valid w =
    let fit = encode-size q valid in
    mt_request-Writes env (mt_finish env) sapi_sreq cmd1 (size q) fill (encode q) r allocates w
      fit.0 fit.1

-- What each request function but `zbWriteConfiguration` comes to, `rpcSendFrame` left as it is:
-- status 1 without memory, and otherwise a call with the interface's `cmd0`, the command number and
-- the payload of the format, and the wait for the answer. The counts are to be within the arrays of
-- the struct and the payload within 256 bytes, and `malloc` is to return blocks of the size asked
-- for.
pub sapi_request-transmit :
    (env : Env) (q : SapiRequest) (r : Host)
    → IsAllocator env.malloc
    → IsValid q
    → sapi_request env q r
      ≡ transmit env (mt_finish env) sapi_sreq (command q) (encode q) r (memory env q)
unfolding sapi_request zb_app_register_req zb_start_req zb_permit_joining_req zb_bind_device
    zb_allow_bind zb_send_data_req zb_find_device_req zb_get_device_info zb_read_configuration
    mt_empty size
sapi_request-transmit env (app_register req) r allocates (ins, outs, short) =
    sends env 0x0a _ (app_register req) r allocates (ins, outs, short)
      (then-Writes _ _ _ _ (puts-Writes _) (
        then-Writes _ _ _ _ (put_words-Writes req.input_commands_num req.input_commands_list ins) (
          then-Writes _ _ _ _ (puts-Writes (req.output_commands_num ∷ []))
            (put_words-Writes req.output_commands_num req.output_commands_list outs))))
sapi_request-transmit env start r allocates ok = refl
sapi_request-transmit env (permit_joining req) r allocates ok =
    sends env 0x08 _ (permit_joining req) r allocates ok (puts-Writes _)
sapi_request-transmit env (bind_device req) r allocates eight =
    sends env 0x01 _ (bind_device req) r allocates eight
      (then-Writes _ _ _ _ (puts-Writes _) (put_copy-Writes 8 req.dst_ieee eight (omega arith)))
sapi_request-transmit env (allow_bind req) r allocates ok =
    sends env 0x02 _ (allow_bind req) r allocates ok (puts-Writes _)
sapi_request-transmit env (send_data req) r allocates (within, short) =
    sends env 0x03 _ (send_data req) r allocates (within, short)
      (then-Writes _ _ _ _ (puts-Writes _) (put_array-Writes req.len req.bytes within))
sapi_request-transmit env (find_device req) r allocates eight =
    sends env 0x07 _ (find_device req) r allocates eight
      (put_copy-Writes 8 req.search_key eight (omega arith))
sapi_request-transmit env (get_device_info req) r allocates ok =
    sends env 0x06 _ (get_device_info req) r allocates ok (puts-Writes _)
sapi_request-transmit env (read_configuration req) r allocates ok =
    sends env 0x04 _ (read_configuration req) r allocates ok (puts-Writes _)

-- `zbWriteConfiguration` sends one byte more than it writes: when `malloc` gives it a block of the
-- size asked for, the payload is the format followed by the last byte of the block as it was found.
-- The length is to be within the array, and the block at most 256 bytes.
pub zb_write_configuration-transmit :
    (env : Env) (req : WriteConfigurationFormat) (r : Host) (block : List ℕ)
    → env.malloc (3 + req.len) ≡ some block
    → length block ≡ 3 + req.len
    → req.len ≤ length req.value
    → 3 + req.len ≤ 256
    → zb_write_configuration env req r ≡ (
        send_frame env sapi_sreq 0x05
          (req.config_id ∷ req.len ∷ (take req.len req.value ++ drop (2 + req.len) block))
          (3 + req.len)
          r
        >>= λ x. mt_finish env x)
unfolding zb_write_configuration mt_request mt_with
zb_write_configuration-transmit env req r block gives block_size within short =
    let taken = length-taken req.len req.value within in
    let w : Writes
        (λ c. puts (req.config_id ∷ req.len ∷ []) c >>= λ c. put_array req.len 0 req.value c)
        (req.config_id ∷ req.len ∷ take req.len req.value) =
      then-Writes _ _ _ _ (puts-Writes _) (put_array-Writes req.len req.value within) in
    let fits : Fits (length (req.config_id ∷ req.len ∷ take req.len req.value)) [] block = record {
      room = omega (arith, block_size, taken);
      small = omega (arith, taken, short);
    } in
    let total : length (req.config_id ∷ req.len ∷ take req.len req.value) ≡ 2 + req.len =
      omega (arith, taken) in
    rw (gives, w.writes [] block fits)
      (ap
        (λ k.
          send_frame env sapi_sreq 0x05
            (req.config_id ∷ req.len ∷ (take req.len req.value ++ drop k block)) (3 + req.len) r
          >>= λ x. mt_finish env x)
        total)

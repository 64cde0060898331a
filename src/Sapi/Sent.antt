-- ===== src/Sapi/Sent.antt =====
-- The request functions of framework/mt/Sapi/mtSapi.c and the bytes on the wire.
use znp_host_framework.Base.{◌≤◌, ◌≡◌, ◌≢◌, refl, length, arith, ◌∙◌}
use znp_host_framework.Rpc.Frame.{Frame}
use znp_host_framework.Mt.Host.{Host, Env}
use znp_host_framework.Mt.Call.{IsAllocator, mt_finish}
use znp_host_framework.Mt.Sent.{sent_request, transmit-sent_request}
use znp_host_framework.Sapi.Requests.{sapi_sreq}
use znp_host_framework.Sapi.Encoding.{
  SapiRequest, sapi_request, command, encode, IsValid, memory, sapi_request-transmit,
}

-- The frame of a request.
abbrev pub frame : SapiRequest → Frame
frame q = record { cmd0 = sapi_sreq; cmd1 = command q; payload = encode q }

-- Each synchronous request function of the SAPI interface except `zbWriteConfiguration` returns 1
-- and changes nothing if it needs memory and `malloc` fails; otherwise the wire gets the frame with
-- the command type SREQ, the subsystem's number, the command number and exactly the payload of the
-- format, behind a header and before its check sequence; a response of the subsystem is expected
-- until the wait for it ends, after which the sending side is released, and `mt_finish` follows.
-- This holds with the sending side free, a payload of at most 250 bytes, a buffer of 256 bytes in
-- `rpcSendFrame`, and counts within the arrays of the struct, with a `malloc` that returns blocks
-- of the size asked for, and whatever other threads do meanwhile.
pub sapi_request-sent_request :
    (env : Env) (q : SapiRequest) (h : Host)
    → IsAllocator env.malloc
    → IsValid q
    → length (encode q) ≤ 250
    → length env.junk ≡ 256
    → h.rpc.rpc_sem ≢ 0
    → sapi_request env q h ≡ sent_request env (mt_finish env) (frame q) h (memory env q)
sapi_request-sent_request env q h allocates valid short whole free =
    sapi_request-transmit env q h allocates valid
    ∙ transmit-sent_request env (mt_finish env) (frame q) h (memory env q) (omega arith) refl short
        whole free

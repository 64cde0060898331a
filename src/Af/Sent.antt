-- ===== src/Af/Sent.antt =====
-- The request functions of framework/mt/Af/mtAf.c and the bytes on the wire.
use znp_host_framework.Base.{◌≤◌, ◌≡◌, ◌≢◌, refl, length, arith, ◌∙◌}
use znp_host_framework.Rpc.Frame.{Frame}
use znp_host_framework.Mt.Host.{Host, Env}
use znp_host_framework.Mt.Call.{IsAllocator, mt_finish}
use znp_host_framework.Mt.Sent.{sent_request, transmit-sent_request}
use znp_host_framework.Af.Requests.{af_sreq}
use znp_host_framework.Af.Encoding.{
  AfRequest, af_request, command, encode, IsValid, af_request-transmit,
}

-- The frame of a request.
abbrev pub frame : AfRequest → Frame
frame q = record { cmd0 = af_sreq; cmd1 = command q; payload = encode q }

-- Each request function of the AF interface returns 1 and changes nothing if `malloc` fails;
-- otherwise the wire gets the frame with the command type SREQ, the subsystem's number, the command
-- number and exactly the payload of the format, behind a header and before its check sequence; a
-- response of the subsystem is expected until the wait for it ends, after which the sending side is
-- released, and `mt_finish` follows. This holds with the sending side free, a payload of at most
-- 250 bytes, a buffer of 256 bytes in `rpcSendFrame`, and counts within the arrays of the struct,
-- with a `malloc` that returns blocks of the size asked for, and whatever other threads do
-- meanwhile.
pub af_request-sent_request :
    (env : Env) (q : AfRequest) (h : Host)
    → IsAllocator env.malloc
    → IsValid q
    → length (encode q) ≤ 250
    → length env.junk ≡ 256
    → h.rpc.rpc_sem ≢ 0
    → af_request env q h
      ≡ sent_request env (mt_finish env) (frame q) h (env.malloc (length (encode q)))
af_request-sent_request env q h allocates valid short whole free =
    af_request-transmit env q h allocates valid
    ∙ transmit-sent_request env (mt_finish env) (frame q) h (env.malloc (length (encode q)))
        (omega arith) refl short whole free

-- ===== src/Zdo/Sent.antt =====
-- The request functions of framework/mt/Zdo/mtZdo.c and the bytes on the wire.
use znp_host_framework.Base.{◌≤◌, ◌≡◌, ◌≢◌, refl, length, arith, ◌∙◌}
use znp_host_framework.Rpc.Frame.{Frame}
use znp_host_framework.Mt.Host.{Host, Env}
use znp_host_framework.Mt.Call.{IsAllocator, zdo_finish}
use znp_host_framework.Mt.Sent.{sent_request, transmit-sent_request}
use znp_host_framework.Zdo.Requests.{zdo_sreq}
use znp_host_framework.Zdo.Encoding.{
  ZdoRequest, zdo_request, command, encode, IsValid, zdo_request-transmit,
}

-- The frame of a request.
abbrev pub frame : ZdoRequest → Frame
frame q = record { cmd0 = zdo_sreq; cmd1 = command q; payload = encode q }

-- Each request function of the ZDO interface, `zdoInit` included, returns 1 and changes nothing if
-- `malloc` fails; otherwise the wire gets the frame with the command type SREQ, the subsystem's
-- number, the command number and exactly the payload of the format, behind a header and before its
-- check sequence; a response of the subsystem is expected until the wait for it ends, after which
-- the sending side is released, and `zdo_finish` follows. This includes `zdoAutoFindDestination`,
-- whose command mtZdo.h lists among those of type AREQ. This holds with the sending side free, a
-- payload of at most 250 bytes, a buffer of 256 bytes in `rpcSendFrame`, counts within the arrays
-- of the struct, and for `zdoUnbindReq` a destination that is not an extended address, with a
-- `malloc` that returns blocks of the size asked for, and whatever other threads do meanwhile.
pub zdo_request-sent_request :
    (env : Env) (q : ZdoRequest) (h : Host)
    → IsAllocator env.malloc
    → IsValid q
    → length (encode q) ≤ 250
    → length env.junk ≡ 256
    → h.rpc.rpc_sem ≢ 0
    → zdo_request env q h
      ≡ sent_request env (zdo_finish env) (frame q) h (env.malloc (length (encode q)))
zdo_request-sent_request env q h allocates valid short whole free =
    zdo_request-transmit env q h allocates valid
    ∙ transmit-sent_request env (zdo_finish env) (frame q) h (env.malloc (length (encode q)))
        (omega arith) refl short whole free

-- ===== src/Client/Calls.antt =====
-- The request functions of the AF, SAPI and SYS interfaces together with their responses.
use znp_host_framework.Base.{ℕ, ◌/◌, ◌≡◌, refl, Option, some, List, ◌++◌, length}
use znp_host_framework.Rpc.{Port, Outcome, done, mt_rpc_err_subsystem}
use znp_host_framework.Rpc.Frame.{Frame, fcs_of, wire}
use znp_host_framework.Rpc.Exchange.{IsSendable, IsResponse, rpc_send_frame-timeout}
use znp_host_framework.Mt.Host.{MtEvent, Host, Env}
use znp_host_framework.Mt.Call.{IsAllocator, transmit, mt_finish}
use znp_host_framework.Af.Encoding.{AfRequest, af_request, af_request-transmit}
use znp_host_framework.Af.Requests.{af_sreq}
use znp_host_framework.Af
use znp_host_framework.Sapi.Encoding.{SapiRequest, sapi_request, sapi_request-transmit}
use znp_host_framework.Sapi.Requests.{sapi_sreq}
use znp_host_framework.Sapi
use znp_host_framework.Sys.Encoding.{SysRequest, sys_request, sys_request-transmit}
use znp_host_framework.Sys
use znp_host_framework.Client.Messages.{frame_of, IsValid}
use znp_host_framework.Client.Exchange.{listening, deaf, answered, IsReady, send_frame-answered}

-- A call of one of the three interfaces.
pub data MtRequest : Type 0 where
  af_call : AfRequest → MtRequest
  sapi_call : SapiRequest → MtRequest
  sys_call : SysRequest → MtRequest

-- The function that is called.
unfoldable pub call : Env → MtRequest → Host → Outcome (ℕ × Host)
call env (af_call q) h = af_request env q h
call env (sapi_call q) h = sapi_request env q h
call env (sys_call q) h = sys_request env q h

abbrev pub request_frame : MtRequest → Frame
request_frame (af_call q) = record {
  cmd0 = af_sreq;
  cmd1 = Af.Encoding.command q;
  payload = Af.Encoding.encode q;
}
request_frame (sapi_call q) = record {
  cmd0 = sapi_sreq;
  cmd1 = Sapi.Encoding.command q;
  payload = Sapi.Encoding.encode q;
}
request_frame (sys_call q) = record {
  cmd0 = Sys.Encoding.command_type q;
  cmd1 = Sys.Encoding.command q;
  payload = Sys.Encoding.encode q;
}

abbrev pub IsRequest : MtRequest → Type 0
IsRequest (af_call q) = Af.Encoding.IsValid q
IsRequest (sapi_call q) = Sapi.Encoding.IsValid q
IsRequest (sys_call q) = Sys.Encoding.IsValid q

-- The memory that the function gets for its payload.
abbrev pub memory : Env → MtRequest → Option (List ℕ)
memory env (af_call q) = env.malloc (length (Af.Encoding.encode q))
memory env (sapi_call q) = Sapi.Encoding.memory env q
memory env (sys_call q) = Sys.Encoding.memory env q

call-transmit :
    (env : Env) (q : MtRequest) (h : Host)
    → IsAllocator env.malloc
    → IsRequest q
    → call env q h
      ≡ transmit env
          (mt_finish env)
          (request_frame q).cmd0
          (request_frame q).cmd1
          (request_frame q).payload
          h
          (memory env q)
unfolding call
call-transmit env (af_call q) h allocates valid = af_request-transmit env q h allocates valid
call-transmit env (sapi_call q) h allocates valid = sapi_request-transmit env q h allocates valid
call-transmit env (sys_call q) h allocates valid = sys_request-transmit env q h allocates valid

-- A synchronous request of the AF, the SAPI or the SYS interface, other than of `zbWriteConfiguration`
-- and `sysRamWrite`, from a state with the sending side free and the response semaphore at 0, whose
-- response, any valid message that responds to the subsystem and that the model has a callback for,
-- arrives at the port while it waits: the request function returns success; the request is on the
-- wire with exactly its payload; the response has been taken off the queue again, kept in
-- `srspRpcBuff` and handed, with exactly what it says, to its callback, if that is registered, and no
-- other callback is called. The request is to be valid with memory for it, both payloads have at most
-- 250 bytes, and the buffers have their sizes.
pub call-answered :
    (env : Env) (q : MtRequest) (h : Host) (e : MtEvent) (left : Port) (block : List ℕ)
    → IsAllocator env.malloc
    → IsRequest q
    → memory (listening env) q ≡ some block
    → IsSendable (request_frame q)
    → IsSendable (frame_of e)
    → IsResponse (request_frame q) (frame_of e)
    → IsValid env.table_junk e
    → IsReady env h (frame_of e) left
    → call (listening env) q h ≡ done (0, answered env (request_frame q) e left h)
call-answered env q h e left block allocates valid gives hf hg re ok ready =
    rw (call-transmit (listening env) q h allocates valid, gives)
      (send_frame-answered env h (request_frame q) e left hf hg re ok ready)

-- The host once a request has gone without a response: it is on the wire, and nothing else has
-- changed but the expected response.
abbrev pub unanswered : Frame → Host → Host
unanswered f h = record h {
  rpc = record h.rpc {
    expected = 0xff;
    port = record h.rpc.port { output = h.rpc.port.output ++ wire f (fcs_of f) };
  };
}

-- A synchronous request of one of the three interfaces for which no response comes in time.
pub call-timeout :
    (env : Env) (q : MtRequest) (h : Host) (block : List ℕ)
    → IsAllocator env.malloc
    → IsRequest q
    → memory (deaf env) q ≡ some block
    → IsSendable (request_frame q)
    → (request_frame q).cmd0 / 32 ≡ 1
    → length env.junk ≡ 256
    → h.rpc.rpc_sem ≡ 1
    → h.rpc.srsp_sem ≡ 0
    → call (deaf env) q h ≡ done (mt_rpc_err_subsystem, unanswered (request_frame q) h)
unfolding mt_finish
call-timeout env q h block allocates valid gives hf request whole one zero_sem =
    rw (call-transmit (deaf env) q h allocates valid, gives)
      (rw (rpc_send_frame-timeout env.junk whole (request_frame q) hf request h.rpc one zero_sem)
        refl)

-- ===== src/Client/Session.antt =====
-- A session: requests with their responses, requests without, and messages taken off the queue, one
-- after another, in any order and number.
use znp_host_framework.Base.{ℕ, ◌/◌, ◌≤◌, ◌≡◌, ◌≢◌, some, List, [], ◌∷◌, ◌++◌, length, Bool}
use znp_host_framework.Rpc.{Port, Rpc, done}
use znp_host_framework.Rpc.Frame.{Frame, fcs_of, message, wire}
use znp_host_framework.Rpc.Exchange.{IsSendable, IsResponse}
use znp_host_framework.Rpc.Send.{Others}
use znp_host_framework.Zdo
use znp_host_framework.Mt.Host.{MtEvent, Host, Env}
use znp_host_framework.Mt.Client.{rpc_wait_mq_client_msg}
use znp_host_framework.Zdo.Encoding.{ZdoRequest, zdo_request, command, encode}
use znp_host_framework.Client.Messages.{frame_of, IsValid, called}
use znp_host_framework.Client.Exchange.{listening, deaf, IsReady}
use znp_host_framework.Client.Calls.{MtRequest, call, request_frame, IsRequest, memory}
use znp_host_framework.Client.Status.{zdo_frame, status_response}

-- No request is under way, and `srspRpcBuff` has its size.
pub record IsIdle (h : Host) : Type 0 where
  pub one : h.rpc.rpc_sem ≡ 1
  pub zero_sem : h.rpc.srsp_sem ≡ 0
  pub srsp_size : length h.srsp_rpc_buff ≡ 256

-- The bytes of frames on the wire, one after another.
abbrev pub wires : List Frame → List ℕ
wires [] = []
wires (f ∷ fs) = wire f (fcs_of f) ++ wires fs

-- The calls that messages lead to, one after another.
abbrev pub calls_of : Env → List MtEvent → List MtEvent
calls_of env [] = []
calls_of env (e ∷ es) = called env.callbacks e ++ calls_of env es

-- A request of the AF, SAPI or SYS interface that is answered.
pub record IsAnswered (env : Env) (h : Host) (q : MtRequest) (e : MtEvent) (left : Port)
    : Type 0 where
  pub block : List ℕ
  pub valid : IsRequest q
  pub gives : memory (listening env) q ≡ some block
  pub sendable : IsSendable (request_frame q)
  pub receivable : IsSendable (frame_of e)
  pub response : IsResponse (request_frame q) (frame_of e)
  pub event : IsValid env.table_junk e
  pub ready : IsReady env h (frame_of e) left

-- A synchronous request of the AF, SAPI or SYS interface that can be sent.
pub record IsRequested (env : Env) (q : MtRequest) : Type 0 where
  pub block : List ℕ
  pub valid : IsRequest q
  pub gives : memory (deaf env) q ≡ some block
  pub sendable : IsSendable (request_frame q)
  pub request : (request_frame q).cmd0 / 32 ≡ 1

-- A request of the ZDO interface that can be sent.
pub record IsSent (env : Env) (q : ZdoRequest) : Type 0 where
  pub block : List ℕ
  pub valid : Zdo.Encoding.IsValid q
  pub gives : env.malloc (length (encode q)) ≡ some block
  pub short : length (encode q) ≤ 250

-- A message that is at the front of the queue once the RPC thread has run; this may put frames into
-- the queue and take bytes off the port, but no request is under way.
pub record IsQueued (env : Env) (arriving : Others) (h : Host) (e : MtEvent) : Type 0 where
  pub rpc : Rpc
  pub fcs : ℕ
  pub queue : List (List ℕ)
  pub arrives : arriving h.rpc ≡ done rpc
  pub front : rpc.queue ≡ message (frame_of e) fcs ∷ queue
  pub room : length env.frame_junk ≡ 257
  pub event : IsValid env.table_junk e
  pub short : length (frame_of e).payload ≤ 252
  pub same_sem : rpc.rpc_sem ≡ h.rpc.rpc_sem
  pub same_srsp : rpc.srsp_sem ≡ h.rpc.srsp_sem
  pub same_output : rpc.port.output ≡ h.rpc.port.output

abbrev pub with_arriving : Env → Others → Env
with_arriving env arriving = record env { arriving = arriving }

-- From `h` to a later state, with the frames sent and the messages handled meanwhile: requests of
-- the AF, SAPI and SYS interfaces with a response and without, requests of the ZDO interface with a
-- status and without, and messages that are received. `zbWriteConfiguration`, `sysRamWrite`, the
-- resets, and `zdoGetLinkKey` with a response are left out.
pub data Session (env : Env) (h : Host) : List Frame → List MtEvent → Host → Type 0 where
  begin : Session env h [] [] h
  answer :
      {fs : List Frame} {es : List MtEvent} {h' h'' : Host} (q : MtRequest) (e : MtEvent)
      (left : Port) (result : ℕ)
      → Session env h fs es h'
      → IsAnswered env h' q e left
      → call (listening env) q h' ≡ done (result, h'')
      → Session env h (fs ++ request_frame q ∷ []) (es ++ e ∷ []) h''
  no_answer :
      {fs : List Frame} {es : List MtEvent} {h' h'' : Host} (q : MtRequest) (result : ℕ)
      → Session env h fs es h'
      → IsRequested env q
      → call (deaf env) q h' ≡ done (result, h'')
      → Session env h (fs ++ request_frame q ∷ []) es h''
  status :
      {fs : List Frame} {es : List MtEvent} {h' h'' : Host} (q : ZdoRequest) (byte : ℕ)
      (left : Port) (result : ℕ)
      → Session env h fs es h'
      → IsSent env q
      → command q ≢ 0x25
      → IsReady env h' (status_response q byte) left
      → zdo_request (listening env) q h' ≡ done (result, h'')
      → Session env h (fs ++ zdo_frame q ∷ []) es h''
  timeout :
      {fs : List Frame} {es : List MtEvent} {h' h'' : Host} (q : ZdoRequest) (result : ℕ)
      → Session env h fs es h'
      → IsSent env q
      → zdo_request (deaf env) q h' ≡ done (result, h'')
      → Session env h (fs ++ zdo_frame q ∷ []) es h''
  receive :
      {fs : List Frame} {es : List MtEvent} {h' h'' : Host} (arriving : Others) (e : MtEvent)
      (result : Bool)
      → Session env h fs es h'
      → IsQueued env arriving h' e
      → rpc_wait_mq_client_msg (with_arriving env arriving) h' ≡ done (result, h'')
      → Session env h fs (es ++ e ∷ []) h''

-- ===== src/Client/Status.antt =====
-- The request functions of the ZDO interface together with their responses, which say whether a
-- request was accepted.
use znp_host_framework.Base.{
  ℕ, ◌≤◌, ◌≡◌, ◌≢◌, refl, some, List, [], ◌∷◌, ◌++◌, length, drop, ◌==◌, false, arith, Bool-cases,
  ==_iff, inl, inr,
}
use mathlib.Core.List.{append-nil}
use znp_host_framework.Rpc.{Port, done, mt_rpc_err_subsystem}
use znp_host_framework.Rpc.Frame.{Frame, fcs_of, message, wire}
use znp_host_framework.Rpc.Exchange.{IsSendable, IsResponse, rpc_send_frame-timeout}
use znp_host_framework.Mt.Dispatch.{copy_srsp_lem}
use znp_host_framework.Mt.Host.{Host, Env, MtCallbacks}
use znp_host_framework.Mt.Parser.{mt_process}
use znp_host_framework.Mt.Call.{IsAllocator, zdo_finish}
use znp_host_framework.Zdo.Process.{zdo_process, zdo_process_srsp}
use znp_host_framework.Zdo.Management.Responses.{BindingTableListItemFormat}
use znp_host_framework.Zdo.Requests.{zdo_sreq}
use znp_host_framework.Zdo.Encoding.{
  ZdoRequest, zdo_request, zdo_request-transmit, command, encode, IsValid,
}
use znp_host_framework.Client.Process.{rpc_wait_mq_client_msg-message}
use znp_host_framework.Client.Exchange.{listening, deaf, exchanged, IsReady, send_frame-response}

abbrev pub zdo_frame : ZdoRequest → Frame
zdo_frame q = record { cmd0 = zdo_sreq; cmd1 = command q; payload = encode q }

-- The response to a request: whether it was accepted.
abbrev pub status_response : ZdoRequest → (status : ℕ) → Frame
status_response q status = record { cmd0 = 0x65; cmd1 = command q; payload = status ∷ [] }

-- What `srspRpcBuff` holds once a response is kept.
abbrev pub kept_response : Frame → List ℕ → List ℕ
kept_response g srsp = message g (fcs_of g) ++ drop (length (message g (fcs_of g))) srsp

-- A response other than that of `zdoGetLinkKey` is kept, and no callback called.
mt_process-status :
    (cbs : MtCallbacks) (table : List BindingTableListItemFormat) (cmd1 status fcs : ℕ)
    (back srsp : List ℕ)
    → cmd1 ≢ 0x25
    → length srsp ≡ 256
    → mt_process cbs table ((0x65 ∷ cmd1 ∷ status ∷ fcs ∷ []) ++ back) 4 srsp
      ≡ done ([], (0x65 ∷ cmd1 ∷ status ∷ fcs ∷ []) ++ drop 4 srsp)
unfolding mt_process zdo_process zdo_process_srsp
mt_process-status cbs table cmd1 status fcs back srsp other size =
    let msg = 0x65 ∷ cmd1 ∷ status ∷ fcs ∷ [] in
    let no : (cmd1 == 0x25) ≡ false = elim (Bool-cases (cmd1 == 0x25)) [
      | inl e ↦ absurd (other ((==_iff cmd1 0x25).0 e))
      | inr e ↦ e
    ] in
    rw (copy_srsp_lem srsp msg back 4 refl (omega (arith, size)), no) refl

-- A request of the ZDO interface other than `zdoGetLinkKey`, from a state with the sending side free
-- and the response semaphore at 0, whose response arrives at the port while it waits: the request
-- function returns the status that the response states, the request is on the wire with exactly its
-- payload, the response has been taken off the queue again and kept in `srspRpcBuff`, and no callback
-- is called. The request is to be valid with memory for it and at most 250 bytes of payload, and the
-- buffers have their sizes.
pub zdo_request-status :
    (env : Env) (q : ZdoRequest) (h : Host) (status : ℕ) (left : Port) (block : List ℕ)
    → IsAllocator env.malloc
    → IsValid q
    → env.malloc (length (encode q)) ≡ some block
    → length (encode q) ≤ 250
    → command q ≢ 0x25
    → IsReady env h (status_response q status) left
    → zdo_request (listening env) q h
      ≡ done (
        status,
        record h {
          rpc = exchanged (zdo_frame q) left h.rpc;
          srsp_rpc_buff = kept_response (status_response q status) h.srsp_rpc_buff;
        },
      )
unfolding zdo_finish
zdo_request-status env q h status left block allocates valid gives short other ready =
    let g = status_response q status in
    let msg = message g (fcs_of g) in
    let hf : IsSendable (zdo_frame q) = record { byte = omega arith; short = short } in
    let hg : IsSendable g = record { byte = omega arith; short = omega arith } in
    let re : IsResponse (zdo_frame q) g = record {
      request = refl;
      response = refl;
      subsystem = refl;
    } in
    let host = record h {
      rpc = record (exchanged (zdo_frame q) left h.rpc) { queue = msg ∷ h.rpc.queue };
    } in
    rw (zdo_request-transmit (listening env) q h allocates valid, gives)
      (rw
        (
          send_frame-response env h (zdo_frame q) g left hf hg re ready,
          rpc_wait_mq_client_msg-message (listening env) host host.rpc g (fcs_of g) h.rpc.queue []
              (kept_response g h.srsp_rpc_buff) refl refl ready.frame_size (omega arith)
              (mt_process-status env.callbacks env.table_junk (command q) status (fcs_of g)
                (drop 4 env.frame_junk) h.srsp_rpc_buff other ready.srsp_size),
          append-nil h.calls,
        )
        refl)

-- A request of the ZDO interface, from a state with the sending side free and the response semaphore
-- at 0, for which no response comes in time: the request function returns the subsystem error, the
-- request is on the wire, and nothing else has changed but the expected response: no message is
-- waited for, and what `srspRpcBuff` held is not taken for an answer. The request is to be valid with
-- memory for it and at most 250 bytes of payload, and the buffer of `rpcSendFrame` has 256 bytes.
pub zdo_request-timeout :
    (env : Env) (q : ZdoRequest) (h : Host) (block : List ℕ)
    → IsAllocator env.malloc
    → IsValid q
    → env.malloc (length (encode q)) ≡ some block
    → length (encode q) ≤ 250
    → length env.junk ≡ 256
    → h.rpc.rpc_sem ≡ 1
    → h.rpc.srsp_sem ≡ 0
    → zdo_request (deaf env) q h
      ≡ done (
        mt_rpc_err_subsystem,
        record h {
          rpc = record h.rpc {
            expected = 0xff;
            port = record h.rpc.port {
              output = h.rpc.port.output ++ wire (zdo_frame q) (fcs_of (zdo_frame q));
            };
          };
        },
      )
unfolding zdo_finish
zdo_request-timeout env q h block allocates valid gives short whole one zero_sem =
    let hf : IsSendable (zdo_frame q) = record { byte = omega arith; short = short } in
    rw (zdo_request-transmit (deaf env) q h allocates valid, gives)
      (rw (rpc_send_frame-timeout env.junk whole (zdo_frame q) hf refl h.rpc one zero_sem) refl)

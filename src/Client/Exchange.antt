-- ===== src/Client/Exchange.antt =====
-- A request of framework/mt together with its response: the request function, `rpcSendFrame`, the RPC
-- thread, the queue, `rpcWaitMqClientMsg`, `mtProcess` and the handler, one after another.
use znp_host_framework.Base.{◌≡◌, refl, ◌∷◌, ◌++◌, length, arith}
use znp_host_framework.Rpc.{Port, Rpc, done, ◌>>=◌}
use znp_host_framework.Rpc.Frame.{Frame, fcs_of, message, wire}
use znp_host_framework.Rpc.Exchange.{
  IsSendable, Delivery, IsResponse, rpc_thread, rpc_send_frame-response,
}
use znp_host_framework.Mt.Host.{MtEvent, Host, Env}
use znp_host_framework.Mt.Call.{send_frame, mt_finish}
use znp_host_framework.Client.Messages.{frame_of, IsValid, kept, called}
use znp_host_framework.Client.Process.{rpc_wait_mq_client_msg-event}

-- The RPC thread reads a frame while the request waits for its response, and nothing else happens.
abbrev pub listening : Env → Env
listening env = record env {
  waiting = rpc_thread env.junk;
  leaving = λ r. done r;
  arriving = λ r. done r;
}

-- The RPC thread reads nothing.
abbrev pub deaf : Env → Env
deaf env = record env { waiting = λ r. done r; leaving = λ r. done r; arriving = λ r. done r }

-- The request is on the wire, the port is behind the response, and nothing else has changed.
abbrev pub exchanged : Frame → Port → Rpc → Rpc
exchanged f left r = record r {
  expected = 0xff;
  port = record left { output = r.port.output ++ wire f (fcs_of f) };
}

-- The host once the response has been taken off the queue and handled.
abbrev pub answered : Env → Frame → MtEvent → Port → Host → Host
answered env f e left h = record h {
  rpc = exchanged f left h.rpc;
  srsp_rpc_buff = kept e (fcs_of (frame_of e)) h.srsp_rpc_buff;
  calls = h.calls ++ called env.callbacks e;
}

-- What an exchange asks of the two semaphores, the buffers and the port.
pub record IsReady (env : Env) (h : Host) (g : Frame) (left : Port) : Type 0 where
  pub junk_size : length env.junk ≡ 256
  pub frame_size : length env.frame_junk ≡ 257
  pub srsp_size : length h.srsp_rpc_buff ≡ 256
  pub one : h.rpc.rpc_sem ≡ 1
  pub zero_sem : h.rpc.srsp_sem ≡ 0
  pub arrives : Delivery h.rpc.port (wire g (fcs_of g)) (length g.payload) left

pub send_frame-response :
    (env : Env) (h : Host) (f g : Frame) (left : Port)
    → IsSendable f
    → IsSendable g
    → IsResponse f g
    → IsReady env h g left
    → send_frame (listening env) f.cmd0 f.cmd1 f.payload (length f.payload) h
      ≡ done (
        0,
        record h {
          rpc = record (exchanged f left h.rpc) { queue = message g (fcs_of g) ∷ h.rpc.queue };
        },
      )
send_frame-response env h f g left hf hg re ready =
    rw
      (rpc_send_frame-response env.junk ready.junk_size f g left hf hg re h.rpc ready.one
        ready.zero_sem ready.arrives)
      refl

-- A frame that is sent and answered, between `rpcSendFrame` and the end of the wait for a message.
pub send_frame-answered :
    (env : Env) (h : Host) (f : Frame) (e : MtEvent) (left : Port)
    → IsSendable f
    → IsSendable (frame_of e)
    → IsResponse f (frame_of e)
    → IsValid env.table_junk e
    → IsReady env h (frame_of e) left
    → (send_frame (listening env) f.cmd0 f.cmd1 f.payload (length f.payload) h >>= λ x.
        mt_finish (listening env) x)
      ≡ done (0, answered env f e left h)
unfolding mt_finish
send_frame-answered env h f e left hf hg re ok ready =
    let host = record h {
      rpc = record (exchanged f left h.rpc) {
        queue = message (frame_of e) (fcs_of (frame_of e)) ∷ h.rpc.queue;
      };
    } in
    rw
      (
        send_frame-response env h f (frame_of e) left hf hg re ready,
        rpc_wait_mq_client_msg-event (listening env) host host.rpc e (fcs_of (frame_of e))
            h.rpc.queue refl refl ready.frame_size ok (omega (arith, hg.short)) ready.srsp_size,
      )
      refl

-- ===== src/Mt/Sent.antt =====
-- What a request is to do with its frame, told by the bytes on the wire: apart from `rpcSendFrame`,
-- which builds and writes the frame.
use znp_host_framework.Base.{
  ℕ, ◌-◌, ◌+◌, ◌/◌, ◌%◌, ◌<◌, ◌≤◌, ◌≡◌, ◌≢◌, refl, Option, none, some, List, ◌++◌, length, arith,
  true, ◌∙◌,
}
use znp_host_framework.Rpc.{Rpc, Outcome, done, fault, blocked, ◌>>=◌}
use znp_host_framework.Rpc.Frame.{Frame, fcs_of, wire}
use znp_host_framework.Rpc.Send.{is_sreq, srsp_timedwait, rpc_send_frame}
use znp_host_framework.Rpc.Request.{sent, is_sreq_lem, send_begin-sent}
use znp_host_framework.Mt.Host.{Host, Env}
use znp_host_framework.Mt.Call.{Finish, transmit}

-- The sending side is taken, a response of the subsystem is expected, and the bytes of the frame,
-- its check sequence included, are behind those written before.
abbrev pub written : Frame → Rpc → Rpc
written f r = record r {
  rpc_sem = r.rpc_sem - 1;
  expected = f.cmd0 % 32;
  port = record r.port { output = r.port.output ++ wire f (fcs_of f) };
}

-- The wait for the response, with what other threads do meanwhile, and the release of the sending
-- side.
abbrev pub await : Env → Rpc → Outcome (ℕ × Rpc)
await env r = do
  r ← env.waiting r
  let (status, r') = srsp_timedwait r
  r ← env.leaving r'
  done (status, record r { expected = 0xff; rpc_sem = r.rpc_sem + 1 })

-- A synchronous request for the frame `f`: status 1 without memory, and otherwise the frame is
-- written, its response waited for, and the end left to `finish`.
abbrev pub sent_request : Env → Finish → Frame → Host → Option (List ℕ) → Outcome (ℕ × Host)
sent_request env finish f h none = done (1, h)
sent_request env finish f h (some block) =
    await env (written f h.rpc) >>= λ x. finish (x.0, record h { rpc = x.1 })

bind_done :
    {A B C : Type 0} (o : Outcome A) (g : A → B) (k : B → Outcome C)
    → (o >>= λ a. done (g a)) >>= k ≡ o >>= λ a. k (g a)
bind_done (done a) g k = refl
bind_done fault g k = refl
bind_done blocked g k = refl

sent-written : (f : Frame) (r : Rpc) → f.cmd0 / 32 ≡ 1 → sent f r ≡ written f r
sent-written f r request = rw request refl

-- A synchronous request with at most 250 bytes of payload, with the sending side free, writes them.
pub transmit-sent_request :
    (env : Env) (finish : Finish) (f : Frame) (h : Host) (memory : Option (List ℕ))
    → f.cmd0 < 256
    → f.cmd0 / 32 ≡ 1
    → length f.payload ≤ 250
    → length env.junk ≡ 256
    → h.rpc.rpc_sem ≢ 0
    → transmit env finish f.cmd0 f.cmd1 f.payload h memory ≡ sent_request env finish f h memory
unfolding rpc_send_frame
transmit-sent_request env finish f h none byte request short whole free = refl
transmit-sent_request env finish f h (some block) byte request short whole free =
    let same : length f.payload % 256 ≡ length f.payload = omega (arith, short) in
    let sync : is_sreq f.cmd0 ≡ true = is_sreq_lem f.cmd0 byte ∙ rw request refl in
    rw
      (
        same,
        send_begin-sent env.junk f h.rpc whole short byte free,
        sync,
        sent-written f h.rpc request,
      )
      (bind_done (await env (written f h.rpc)) (λ x. (x.0, record h { rpc = x.1 })) finish)

-- ===== src/Rpc/Exchange.antt =====
-- `rpcSendFrame` and `rpcProcess` together: what one side sends the other receives, a request gets
-- its response, and a late response is taken for that of the next request.
use znp_host_framework.Base.{
  ℕ, ◌+◌, ◌/◌, ◌%◌, ◌<◌, ◌≤◌, ◌≡◌, ◌≢◌, refl, ap, ◌∙◌, List, [], ◌∷◌, ◌++◌, ◌==◌, length, true,
  arith, ==_iff,
}
use znp_host_framework.Rpc.{
  Port, Rpc, ReadEvent, avail, done, ◌>>=◌, mt_rpc_success, mt_rpc_err_subsystem,
}
use znp_host_framework.Rpc.Frame.{Frame, fcs_of, message, wire, accepted}
use znp_host_framework.Rpc.Process.{rpc_process}
use znp_host_framework.Rpc.Reading.{Delivers}
use znp_host_framework.Rpc.Receive.{rpc_process-receipt}
use znp_host_framework.Rpc.Send.{is_sreq, send_begin, srsp_timedwait, Others, rpc_send_frame}
use znp_host_framework.Rpc.Request.{sent, is_sreq_lem, send_begin-sent}

-- A frame that `rpcSendFrame` can send: the command byte is a byte and the payload has at most 250.
pub record IsSendable (f : Frame) : Type 0 where
  pub byte : f.cmd0 < 256
  pub short : length f.payload ≤ 250

-- A port with a frame's bytes to come, `n` of them payload, in whatever pieces, and the port that
-- is left behind it.
pub record Delivery (p : Port) (bytes : List ℕ) (n : ℕ) (left : Port) : Type 0 where
  pub a : ℕ
  pub b : ℕ
  pub s : List ReadEvent
  pub pos_a : 0 < a
  pub pos_b : 0 < b
  pub input_is : p.input ≡ bytes ++ left.input
  pub schedule_is : p.schedule ≡ avail a ∷ avail b ∷ s
  pub delivers : Delivers s (n + 3) 0 left.schedule
  pub output_is : left.output ≡ p.output

-- The RPC thread while another thread waits: one call of `rpcProcess`.
abbrev pub rpc_thread : List ℕ → Others
rpc_thread junk r = rpc_process junk r >>= λ x. done x.1

same : (n : ℕ) → (n == n) ≡ true
same n = (==_iff n n).1 refl

-- The response that a request waits for.
pub record IsResponse (f g : Frame) : Type 0 where
  pub request : f.cmd0 / 32 ≡ 1
  pub response : g.cmd0 / 32 ≡ 3
  pub subsystem : g.cmd0 % 32 ≡ f.cmd0 % 32

module _ (junk : List ℕ) (whole : length junk ≡ 256) where
  -- A frame with a right check byte, delivered.
  pub rpc_process-accepted :
      (f : Frame) (r : Rpc) (left : Port)
      → IsSendable f
      → Delivery r.port (wire f (fcs_of f)) (length f.payload) left
      → rpc_process junk r
        ≡ (accepted f (fcs_of f) (record r { port = left }) >>= λ r'. done (true, r'))
  rpc_process-accepted f r left h d =
      rpc_process-receipt junk f (fcs_of f) left.input d.s left.schedule whole h.byte
        (omega (arith, h.short)) d.delivers r d.a d.b d.pos_a d.pos_b d.input_is d.schedule_is
      ∙ rw (same (fcs_of f), ← d.output_is) refl

  -- What `rpcSendFrame` writes for a frame with at most 250 bytes of payload, with the sending side
  -- free and nothing written yet, `rpcProcess` of the other side reads back: if its port delivers the
  -- bytes written, with up to five failed reads, it returns 0 and puts the frame into the queue with the same command, payload and check sequence, at the front with
  -- `srspSem` posted if it is the synchronous response waited for, and at the back if it is no
  -- synchronous response; one that is not waited for leads to undefined behaviour.
  pub send_begin-rpc_process :
      (f : Frame) (r r' q : Rpc) (left : Port)
      → IsSendable f
      → r.rpc_sem ≢ 0
      → r.port.output ≡ []
      → send_begin junk f.cmd0 f.cmd1 f.payload (length f.payload) r ≡ done r'
      → Delivery q.port r'.port.output (length f.payload) left
      → rpc_process junk q
        ≡ (accepted f (fcs_of f) (record q { port = left }) >>= λ q'. done (true, q'))
  send_begin-rpc_process f r r' q left h free fresh run d =
      let is : r' ≡ sent f r = cc (run, send_begin-sent junk f r whole h.short h.byte free) in
      let bytes : r'.port.output ≡ wire f (fcs_of f) = ap (λ x. x.port.output) is ∙ rw fresh refl in
      rpc_process-accepted f q left h (rw bytes at d)

  module _ (f : Frame) (hf : IsSendable f) (request : f.cmd0 / 32 ≡ 1) where
    sreq_f : is_sreq f.cmd0 ≡ true
    sreq_f = is_sreq_lem f.cmd0 hf.byte ∙ rw request refl

    length_f : length f.payload % 256 ≡ length f.payload
    length_f = omega (arith, hf.short)

    -- A synchronous request, from a state with the sending side free and the response semaphore
    -- at 0, with a payload of at most 250 bytes, whose response does not come in time:
    -- `rpcSendFrame` returns the subsystem error, the request is on the wire, and nothing else
    -- has changed but the expected response.
    pub rpc_send_frame-timeout :
        (r : Rpc)
        → r.rpc_sem ≡ 1
        → r.srsp_sem ≡ 0
        → rpc_send_frame junk done done f.cmd0 f.cmd1 f.payload (length f.payload) r
          ≡ done (
            mt_rpc_err_subsystem,
            record r {
              expected = 0xff;
              port = record r.port { output = r.port.output ++ wire f (fcs_of f) };
            },
          )
    unfolding rpc_send_frame srsp_timedwait
    rpc_send_frame-timeout r one zero_sem =
        rw
          (
            length_f,
            send_begin-sent junk f r whole hf.short hf.byte (omega (arith, one)),
            sreq_f,
            zero_sem,
            one,
          )
          refl

    -- With the response semaphore posted already the request does not wait.
    rpc_send_frame-posted :
        (r : Rpc)
        → r.rpc_sem ≡ 1
        → r.srsp_sem ≡ 1
        → rpc_send_frame junk done done f.cmd0 f.cmd1 f.payload (length f.payload) r
          ≡ done (
            mt_rpc_success,
            record r {
              srsp_sem = 0;
              expected = 0xff;
              port = record r.port { output = r.port.output ++ wire f (fcs_of f) };
            },
          )
    unfolding rpc_send_frame srsp_timedwait
    rpc_send_frame-posted r one one_sem =
        rw
          (
            length_f,
            send_begin-sent junk f r whole hf.short hf.byte (omega (arith, one)),
            sreq_f,
            one_sem,
            one,
          )
          refl

  module _ (f g : Frame) (left : Port) (hf : IsSendable f) (hg : IsSendable g)
      (re : IsResponse f g) where
    -- The port once the request has been written and the response read.
    abbrev exchanged : Rpc → Port
    exchanged r = record left { output = r.port.output ++ wire f (fcs_of f) }

    -- The response, read while the request is out.
    response-accepted :
        (r : Rpc)
        → Delivery r.port (wire g (fcs_of g)) (length g.payload) left
        → rpc_process junk (sent f r)
          ≡ done (
            true,
            record (sent f r) {
              srsp_sem = r.srsp_sem + 1;
              queue = message g (fcs_of g) ∷ r.queue;
              port = exchanged r;
            },
          )
    response-accepted r d =
        let d' : Delivery (sent f r).port (wire g (fcs_of g)) (length g.payload) (exchanged r) =
          record {
            a = d.a;
            b = d.b;
            s = d.s;
            pos_a = d.pos_a;
            pos_b = d.pos_b;
            input_is = d.input_is;
            schedule_is = d.schedule_is;
            delivers = d.delivers;
            output_is = refl;
          } in
        rpc_process-accepted g (sent f r) (exchanged r) hg d'
        ∙ rw (re.response, re.request, re.subsystem, same (f.cmd0 % 32)) refl

    -- A synchronous request, from a state with the sending side free and the response semaphore
    -- at 0, with a payload of at most 250 bytes, whose response, of the same subsystem, arrives
    -- at the port while it waits: `rpcSendFrame` returns success, the request is on the wire, the
    -- response is at the front of the queue, both semaphores are as before and no response is
    -- expected any more.
    pub rpc_send_frame-response :
        (r : Rpc)
        → r.rpc_sem ≡ 1
        → r.srsp_sem ≡ 0
        → Delivery r.port (wire g (fcs_of g)) (length g.payload) left
        → rpc_send_frame junk (rpc_thread junk) done f.cmd0 f.cmd1 f.payload (length f.payload) r
          ≡ done (
            mt_rpc_success,
            record r {
              expected = 0xff;
              queue = message g (fcs_of g) ∷ r.queue;
              port = exchanged r;
            },
          )
    unfolding rpc_send_frame srsp_timedwait
    rpc_send_frame-response r one zero_sem d =
        rw
          (
            length_f f hf re.request,
            send_begin-sent junk f r whole hf.short hf.byte (omega (arith, one)),
            sreq_f f hf re.request,
            response-accepted r d,
            zero_sem,
            one,
          )
          refl

    -- The response is read behind the end of the wait, before the expected response is reset.
    rpc_send_frame-late :
        (r : Rpc)
        → r.rpc_sem ≡ 1
        → r.srsp_sem ≡ 0
        → Delivery r.port (wire g (fcs_of g)) (length g.payload) left
        → rpc_send_frame junk done (rpc_thread junk) f.cmd0 f.cmd1 f.payload (length f.payload) r
          ≡ done (
            mt_rpc_err_subsystem,
            record r {
              srsp_sem = 1;
              expected = 0xff;
              queue = message g (fcs_of g) ∷ r.queue;
              port = exchanged r;
            },
          )
    unfolding rpc_send_frame srsp_timedwait
    rpc_send_frame-late r one zero_sem d =
        let no_post : ((sent f r).srsp_sem == 0) ≡ true = ground (arith, zero_sem) in
        rw
          (
            length_f f hf re.request,
            send_begin-sent junk f r whole hf.short hf.byte (omega (arith, one)),
            sreq_f f hf re.request,
            no_post,
            response-accepted r d,
            zero_sem,
            one,
          )
          refl

    -- A synchronous request, from a state with the sending side free and the response semaphore
    -- at 0, with a payload of at most 250 bytes, whose response is read after the wait for it has
    -- timed out and before the expected response is reset: the request fails, and the next
    -- synchronous request of at most 250 bytes returns success at once, though no response to it
    -- has come, and the queue is as the first request left it, with the first response in front.
    pub rpc_send_frame-stale :
        (r : Rpc) (h : Frame)
        → IsSendable h
        → h.cmd0 / 32 ≡ 1
        → r.rpc_sem ≡ 1
        → r.srsp_sem ≡ 0
        → Delivery r.port (wire g (fcs_of g)) (length g.payload) left
        → (r1 r2 : Rpc) × (rpc_send_frame junk done
              (rpc_thread junk)
              f.cmd0
              f.cmd1
              f.payload
              (length f.payload)
              r
            ≡ done (mt_rpc_err_subsystem, r1))
          × (rpc_send_frame junk done done h.cmd0 h.cmd1 h.payload (length h.payload) r1
              ≡ done (mt_rpc_success, r2))
          × (r1.queue ≡ message g (fcs_of g) ∷ r.queue)
          × (r2.queue ≡ r1.queue)
    rpc_send_frame-stale r h hh request one zero_sem d =
        let r1 = record r {
          srsp_sem = 1;
          expected = 0xff;
          queue = message g (fcs_of g) ∷ r.queue;
          port = exchanged r;
        } in
        (
          r1,
          _,
          rpc_send_frame-late r one zero_sem d,
          rpc_send_frame-posted h hh request r1 one refl,
          refl,
          refl,
        )

-- ===== src/Rpc/Receive.antt =====
-- `rpcProcess` on a port that delivers a frame.
use mathlib.Core.List.{append_assoc}
use znp_host_framework.Base.{
  ℕ, zero, suc, ◌+◌, ◌*◌, ◌/◌, ◌%◌, ◌<◌, ◌≤◌, ◌≡◌, refl, ap, ◌∙◌, some, List, [], ◌∷◌, ◌++◌, ◌==◌,
  length, drop, true, min, arith, length-append, length-drop, get_elem?, get_elem?-append,
  take-append_self, le→leb, Bool-cases, inl, inr,
}
use znp_host_framework.Base.Bytes.{overwrite, overwrite-append}
use znp_host_framework.Base.Bits.{and_high3, and_low5}
use znp_host_framework.Rpc.{ReadEvent, avail, Port, Rpc, done, ◌>>=◌, mt_rpc_sof}
use znp_host_framework.Rpc.Fcs.{calc_fcs, calc_fcs-append}
use znp_host_framework.Rpc.Frame.{Frame, general, fcs_of, message, wire, accepted, receipt}
use znp_host_framework.Rpc.Transport.{slice, rpc_transport_read}
use znp_host_framework.Rpc.Process.{
  read_one_at, read_one, print_loop, print_rpc_msg, enqueue, dispatch, process_frame, process_len,
  process_sof, rpc_process,
}
use znp_host_framework.Rpc.Reading.{Delivers, read_loop_lem}

pub get_elem?-some : (xs : List ℕ) (i : ℕ) → i < length xs → (x : ℕ) × (get_elem? xs i ≡ some x)
get_elem?-some [] i h = absurd (omega arith)
get_elem?-some (x ∷ xs) zero h = (x, refl)
get_elem?-some (x ∷ xs) (suc i) h = get_elem?-some xs i (omega arith)

print_loop_lem :
    (n i : ℕ) (msg : List ℕ) → i + n ≤ length msg → i + n < 256 → print_loop n i msg ≡ done (i + n)
unfolding print_loop
print_loop_lem zero i msg h k = ap done (omega arith)
print_loop_lem (suc n) i msg h k =
    let (x, e) = get_elem?-some msg i (omega arith) in
    let next : (i + 1) % 256 ≡ i + 1 = omega arith in
    rw (e, next) (print_loop_lem n (i + 1) msg (omega arith) (omega arith) ∙ ap done (omega arith))

-- Printing a frame reads nothing outside of it.
pub print_rpc_msg_lem :
    (len : ℕ) (msg : List ℕ) → len + 3 ≤ length msg → len < 253 → print_rpc_msg len msg ≡ done tt
unfolding print_rpc_msg
print_rpc_msg_lem len msg h k =
    let (a, ea) = get_elem?-some msg 0 (omega arith) in
    let (b, eb) = get_elem?-some msg 1 (omega arith) in
    let (c, ec) = get_elem?-some msg (2 + len) (omega arith) in
    rw (ea, eb, print_loop_lem len 2 msg (omega arith) (omega arith), ec) refl

module _ (f : Frame) (fcs : ℕ) (tail : List ℕ) (r : Rpc) where
  -- The buffer that holds the frame.
  abbrev buffer : List ℕ
  buffer = length f.payload ∷ (message f fcs ++ tail)

  slice-buffer : slice buffer 1 (length f.payload + 3) ≡ some (message f fcs)
  slice-buffer =
      let size : length (message f fcs) ≡ length f.payload + 3 =
        omega (arith, length-append f.payload (fcs ∷ [])) in
      let all : 1 + (length f.payload + 3) ≤ length buffer =
        omega (arith, length-append (message f fcs) tail, size) in
      rw (le→leb _ _ all, ← size) (ap some (take-append_self (message f fcs) tail))

  dispatch_lem :
      f.cmd0 < 256
      → dispatch buffer (length f.payload + 3) r ≡ (accepted f fcs r >>= λ r'. done (true, r'))
  unfolding dispatch enqueue
  dispatch_lem byte =
      let same : (f.cmd0 / 32 * 32 == 0x60) ≡ (f.cmd0 / 32 == 3) = ground arith in
      rw (and_high3 f.cmd0 byte, and_low5 f.cmd0 byte, same)
        (elim (Bool-cases (f.cmd0 / 32 == 3)) [
          | inl srsp ↦ elim (Bool-cases (r.expected == f.cmd0 % 32)) [
            | inl awaited ↦ rw (srsp, awaited, slice-buffer) refl
            | inr other ↦ rw (srsp, other) refl
          ]
          | inr areq ↦ rw (areq, slice-buffer) refl
        ])

  -- What follows the reading of a whole frame.
  process_frame_lem :
      f.cmd0 < 256
      → length f.payload < 253
      → process_frame (length f.payload) r (some buffer) ≡ receipt f fcs r
  unfolding process_frame
  process_frame_lem byte short =
      let n = length f.payload in
      let size : length (message f fcs ++ tail) ≡ n + 3 + length tail =
        omega (arith, length-append (message f fcs) tail, length-append f.payload (fcs ∷ [])) in
      let regroup : buffer ≡ general f ++ (fcs ∷ tail) =
        ap (λ t. n ∷ f.cmd0 ∷ f.cmd1 ∷ t) (append_assoc f.payload (fcs ∷ []) tail) in
      let count : n + 3 ≡ length (general f) = omega arith in
      let sum : calc_fcs buffer (n + 3) ≡ some (fcs_of f) =
        rw (regroup, count) (calc_fcs-append (general f) (fcs ∷ tail) (omega arith)) in
      let sent : get_elem? buffer (n + 3) ≡ some fcs =
        rw (regroup, count) (get_elem?-append (general f) tail fcs) in
      let wrap : (n + 3) % 256 ≡ n + 3 = omega arith in
      rw
        (
          print_rpc_msg_lem n (message f fcs ++ tail) (omega (arith, size)) short,
          sum,
          sent,
          wrap,
          dispatch_lem byte,
        )
        (elim (Bool-cases (fcs == fcs_of f)) [ inl e ↦ rw e refl | inr e ↦ rw e refl ])

-- A read of one byte that is there.
read_one_lem :
    (p : Port) (k x : ℕ) (xs : List ℕ) (s : List ReadEvent)
    → 0 < k
    → p.input ≡ x ∷ xs
    → p.schedule ≡ avail k ∷ s
    → read_one p ≡ done (some x, record p { input = xs; schedule = s })
unfolding read_one read_one_at rpc_transport_read
read_one_lem p k x xs s pos ei es = let one : min k 1 ≡ 1 = omega arith in rw (ei, es, one) refl

module _ (junk : List ℕ) (f : Frame) (fcs : ℕ) (rest : List ℕ) (s s' : List ReadEvent)
    (whole : length junk ≡ 256) (byte : f.cmd0 < 256) (short : length f.payload < 253)
    (delivers : Delivers s (length f.payload + 3) 0 s') where
  process_len-receipt :
      (r : Rpc)
      → r.port.input ≡ message f fcs ++ rest
      → r.port.schedule ≡ s
      → process_len junk r (some (length f.payload))
        ≡ receipt f fcs (record r { port = record r.port { input = rest; schedule = s' } })
  unfolding process_len
  process_len-receipt r ei es =
      let n = length f.payload in
      let wrap : (n + 3) % 256 ≡ n + 3 = omega arith in
      let size : length (message f fcs) ≡ n + 3 =
        omega (arith, length-append f.payload (fcs ∷ [])) in
      let back : length (drop 1 junk) ≡ 255 = omega (arith, length-drop 1 junk) in
      let first : overwrite junk 0 (n ∷ []) ≡ some (n ∷ drop 1 junk) =
        overwrite-append [] junk (n ∷ []) (omega arith) in
      let loop =
        read_loop_lem delivers (n ∷ []) (drop 1 junk) (message f fcs) rest 1 size (omega arith)
          (omega arith) (omega arith) (λ p. refl) in
      rw (first, wrap, ei, es, loop) (process_frame_lem f fcs _ _ byte short)

  -- On a port whose input begins with the wire form of a frame of at most 252 bytes of payload, with
  -- any check byte, and whose schedule delivers it, in whatever pieces and with up to five failed
  -- reads, none of them while 255 bytes are still to come: a frame with a wrong check byte makes
  -- `rpcProcess` return -1; with the right one it returns 0 and queues the frame, a synchronous
  -- response that is waited for at the front with `srspSem` posted and any other frame that is no
  -- synchronous response at the back. In these cases the frame has been read and no more, and
  -- nothing else has changed. A synchronous response that is not waited for leads to undefined
  -- behaviour.
  pub rpc_process-receipt :
      (r : Rpc) (a b : ℕ)
      → 0 < a
      → 0 < b
      → r.port.input ≡ wire f fcs ++ rest
      → r.port.schedule ≡ avail a ∷ avail b ∷ s
      → rpc_process junk r
        ≡ receipt f fcs (record r { port = record r.port { input = rest; schedule = s' } })
  unfolding rpc_process process_sof
  rpc_process-receipt r a b pa pb ei es =
      let n = length f.payload in
      let body = message f fcs ++ rest in
      let p1 = record r.port { input = n ∷ body; schedule = avail b ∷ s } in
      rw
        (
          read_one_lem r.port a mt_rpc_sof (n ∷ body) (avail b ∷ s) pa ei es,
          read_one_lem p1 b n body s pb refl refl,
        )
        (process_len-receipt (record r { port = record p1 { input = body; schedule = s } }) refl
          refl)

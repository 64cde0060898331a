-- ===== src/Rpc/Request.antt =====
-- What `rpcSendFrame` puts on the wire, and how a request meets its response.
use mathlib.Core.List.{append_assoc, append-nil}
use znp_host_framework.Base.{
  ℕ, ◌+◌, ◌-◌, ◌/◌, ◌%◌, ◌<◌, ◌≤◌, ◌≡◌, ◌≢◌, refl, sym, ap, ◌∙◌, some, List, [], ◌∷◌, ◌++◌, ltb,
  ◌==◌, if◌then◌else◌, length, drop, true, false, arith, take_all, le→leb, length-append,
  length-drop, take-append_self, Bool-cases, inl, inr,
}
use znp_host_framework.Base.Bytes.{overwrite, overwrite-append}
use znp_host_framework.Base.Bits.{and_high3, and_low5}
use znp_host_framework.Rpc.{Rpc, done, checked, mt_rpc_sof}
use znp_host_framework.Rpc.Fcs.{calc_fcs, calc_fcs-append}
use znp_host_framework.Rpc.Frame.{Frame, general, fcs_of, wire}
use znp_host_framework.Rpc.Transport.{
  slice, rpc_transport_write, write_loop, flatten, rpc_transport_write-flatten,
}
use znp_host_framework.Rpc.Receive.{print_rpc_msg_lem}
use znp_host_framework.Rpc.Send.{is_sreq, rpc_sem_wait, build_frame, send_begin}

slice_whole : (xs : List ℕ) → slice xs 0 (length xs) ≡ some xs
slice_whole xs =
    let all : 0 + length xs ≤ length xs = omega arith in
    rw (le→leb _ _ all, take_all (length xs) xs (omega arith)) refl

-- The payload goes behind the header, also if it is empty and nothing is copied.
copy_any :
    (a b c d : ℕ) (back xs : List ℕ)
    → length xs ≤ length back
    → (if ltb 0 (length xs)
        then checked (overwrite (a ∷ b ∷ c ∷ d ∷ back) 4 xs)
        else done (a ∷ b ∷ c ∷ d ∷ back))
      ≡ done (a ∷ b ∷ c ∷ d ∷ (xs ++ drop (length xs) back))
copy_any a b c d back [] h = refl
copy_any a b c d back (x ∷ xs) h =
    let some_bytes : ltb 0 (length (x ∷ xs)) ≡ true = ground arith in
    rw (some_bytes, overwrite-append (a ∷ b ∷ c ∷ d ∷ []) back (x ∷ xs) h) refl

module _ (junk : List ℕ) (f : Frame) (whole : length junk ≡ 256)
    (short : length f.payload ≤ 251) where
  abbrev header : List ℕ
  header = mt_rpc_sof ∷ length f.payload ∷ f.cmd0 ∷ f.cmd1 ∷ []

  abbrev behind : List ℕ
  behind = drop (length f.payload) (drop 4 junk)

  behind_size : length behind ≡ 252 - length f.payload
  behind_size = omega (arith, length-drop 4 junk, length-drop (length f.payload) (drop 4 junk))

  copy_payload :
      (if ltb 0 (length f.payload)
        then checked (overwrite (header ++ drop 4 junk) 4 f.payload)
        else done (header ++ drop 4 junk))
      ≡ done (header ++ (f.payload ++ behind))
  copy_payload =
      copy_any mt_rpc_sof (length f.payload) f.cmd0 f.cmd1 (drop 4 junk) f.payload
        (omega (arith, length-drop 4 junk))

  -- The buffer begins with the wire form of the frame.
  build_frame-wire :
      build_frame junk f.cmd0 f.cmd1 f.payload (length f.payload)
      ≡ done (wire f (fcs_of f) ++ drop 1 behind)
  unfolding build_frame
  build_frame-wire =
      let n = length f.payload in
      let start = overwrite-append [] junk header (omega arith) in
      let count : n + 3 ≡ length (general f) = omega arith in
      let sum : calc_fcs (general f ++ behind) (n + 3) ≡ some (fcs_of f) =
        rw count (calc_fcs-append (general f) behind (omega arith)) in
      let at : n + 4 ≡ length (header ++ f.payload) = omega arith in
      let last =
        overwrite-append (header ++ f.payload) behind (fcs_of f ∷ [])
          (omega (arith, behind_size)) in
      rw (start, slice_whole f.payload, copy_payload, sum, at, last)
        (ap (λ t. done (mt_rpc_sof ∷ n ∷ f.cmd0 ∷ f.cmd1 ∷ t))
          (sym (append_assoc f.payload (fcs_of f ∷ []) (drop 1 behind))))

-- The state once the request is out: the sending side is held, the response is expected, and the
-- output has the wire form of the frame behind what it had.
abbrev pub sent : Frame → Rpc → Rpc
sent f r = record r {
  rpc_sem = r.rpc_sem - 1;
  expected = if f.cmd0 / 32 == 1 then f.cmd0 % 32 else r.expected;
  port = record r.port { output = r.port.output ++ wire f (fcs_of f) };
}

pub is_sreq_lem : (cmd0 : ℕ) → cmd0 < 256 → is_sreq cmd0 ≡ (cmd0 / 32 == 1)
is_sreq_lem cmd0 h = rw (and_high3 cmd0 h) (ground arith)

module _ (junk : List ℕ) (f : Frame) (r : Rpc) (whole : length junk ≡ 256)
    (short : length f.payload ≤ 250) (byte : f.cmd0 < 256) (free : r.rpc_sem ≢ 0) where
  -- With the sending side free, a command byte below 256 and a local buffer of 256 bytes, a frame
  -- with at most 250 bytes of payload is written whole, header and check sequence included, and
  -- the response is expected exactly if the frame is a synchronous request.
  pub send_begin-sent :
      send_begin junk f.cmd0 f.cmd1 f.payload (length f.payload) r ≡ done (sent f r)
  unfolding send_begin rpc_sem_wait
  send_begin-sent =
      let n = length f.payload in
      let b = wire f (fcs_of f) ++ drop 1 (behind junk f whole (omega arith)) in
      let size : length (wire f (fcs_of f)) ≡ n + 5 =
        omega (arith, length-append f.payload (fcs_of f ∷ [])) in
      let room = length-append (wire f (fcs_of f)) (drop 1 (behind junk f whole (omega arith))) in
      let (chunks, run, all, small) =
        rpc_transport_write-flatten b (n + 5) (omega (arith, size, room)) (omega arith) in
      let held : (r.rpc_sem == 0) ≡ false = ground arith in
      let exact : flatten chunks ≡ wire f (fcs_of f) =
        all ∙ rw (← size) (take-append_self (wire f (fcs_of f)) _) in
      rw
        (
          held,
          build_frame-wire junk f whole (omega arith),
          run,
          print_rpc_msg_lem n (drop 2 b) (omega (arith, size, room)) (omega arith),
          is_sreq_lem f.cmd0 byte,
          and_low5 f.cmd0 byte,
          exact,
        )
        (elim (Bool-cases (f.cmd0 / 32 == 1)) [ inl e ↦ rw e refl | inr e ↦ rw e refl ])

-- With the sending side free, a command byte below 256 and a local buffer of 256 bytes, a payload
-- of 251 bytes makes the length that `rpcTransportWrite` is given wrap to 0: nothing is written,
-- though the function goes on as if the request were sent.
pub send_begin-silent :
    (junk : List ℕ) (f : Frame) (r : Rpc)
    → length junk ≡ 256
    → length f.payload ≡ 251
    → f.cmd0 < 256
    → r.rpc_sem ≢ 0
    → (r' : Rpc) × (send_begin junk f.cmd0 f.cmd1 f.payload (length f.payload) r ≡ done r')
      × (r'.port ≡ r.port)
unfolding send_begin rpc_sem_wait rpc_transport_write write_loop flatten
send_begin-silent junk f r whole long byte free =
    let n = length f.payload in
    let b = wire f (fcs_of f) ++ drop 1 (behind junk f whole (omega arith)) in
    let room = length-append (wire f (fcs_of f)) (drop 1 (behind junk f whole (omega arith))) in
    let size : length (wire f (fcs_of f)) ≡ n + 5 =
      omega (arith, length-append f.payload (fcs_of f ∷ [])) in
    let held : (r.rpc_sem == 0) ≡ false = ground arith in
    let wrapped : (n + 5) % 256 ≡ 0 = omega arith in
    let printed = print_rpc_msg_lem n (drop 2 b) (omega (arith, size, room)) (omega arith) in
    (
      record r {
        rpc_sem = r.rpc_sem - 1;
        expected = if f.cmd0 / 32 == 1 then f.cmd0 % 32 else r.expected;
      },
      rw
          (
            held,
            build_frame-wire junk f whole (omega arith),
            wrapped,
            printed,
            is_sreq_lem f.cmd0 byte,
            and_low5 f.cmd0 byte,
          )
          (elim (Bool-cases (f.cmd0 / 32 == 1)) [
            | inl e ↦ rw (e, append-nil) refl
            | inr e ↦ rw (e, append-nil) refl
          ]),
      refl,
    )

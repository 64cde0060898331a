-- ===== src/Rpc/Process.antt =====
-- `rpcProcess` of framework/rpc/rpc.c: one frame is read from the port, checked, and put into the
-- queue.
use znp_host_framework.Base.{
  ℕ, zero, suc, ◌+◌, ◌-◌, ◌%◌, Option, none, some, List, [], ◌∷◌, bit_and, leb, ltb, ◌==◌,
  if◌then◌else◌, drop, get_elem?, Bool, true, false, ◌&&◌,
}
use znp_host_framework.Base.Bytes.{overwrite}
use znp_host_framework.Queue.Deque.{add}
use znp_host_framework.Rpc.{
  ReadEvent, Port, Rpc, Outcome, done, fault, blocked, ◌>>=◌, ◌>>◌, checked, mt_rpc_sof,
  mt_rpc_cmd_type_mask, mt_rpc_subsystem_mask, mt_rpc_cmd_srsp,
}
use znp_host_framework.Rpc.Fcs.{calc_fcs}
use znp_host_framework.Rpc.Transport.{Got, rpc_transport_read, slice}

-- One byte through `rpcTransportRead`; `none` if the call does not return 1.
unfoldable pub read_one_at : List ReadEvent → Port → Outcome (Option ℕ × Port)
read_one_at [] p = blocked
read_one_at (e ∷ s) p =
    let g = rpc_transport_read e p.input 1 in
    done
      (if g.ret == 1 then get_elem? g.bytes 0 else none, record p { input = g.rest; schedule = s })

unfoldable pub read_one : Port → Outcome (Option ℕ × Port)
read_one p = read_one_at p.schedule p

-- How a round of the reading loop ends.
pub data Round : Type 0 where
  more : (buf : List ℕ) (idx left retries : ℕ) → Round
  abandon : Round
  overrun : Round

-- The counters behind a read that returned `ret`, whose bytes are stored (`none` if they overrun
-- the buffer). A return value above what was asked for is an error, five of which are forgiven.
unfoldable pub after_read : (ret idx left retries : ℕ) → Option (List ℕ) → Round
after_read ret idx left retries none = overrun
after_read ret idx left retries (some buf) =
    let bad = ltb left ret in
    let got = if bad then 0 else ret in
    if bad && leb 5 retries
    then abandon
    else more buf ((idx + got) % 256) (if ltb got left then left - got else 0)
        (if bad then retries + 1 else retries)

-- The body of the loop behind the read. The read stores its bytes at `rpcBuff[rpcBuffIdx]`.
unfoldable pub read_round : Got → List ℕ → (idx left retries : ℕ) → Round
read_round g buf idx left retries = after_read g.ret idx left retries (overwrite buf idx g.bytes)

-- The loop `while (rpcTempLen > 0)`: each round takes one event of the schedule. The result is
-- the buffer (`none` if the reading was given up), and what is left of input and schedule.
unfoldable pub read_loop :
    List ReadEvent
    → List ℕ
    → List ℕ
    → (idx left retries : ℕ) → Outcome (Option (List ℕ) × List ℕ × List ReadEvent)
read_loop s input buf idx zero retries = done (some buf, input, s)
read_loop [] input buf idx (suc left) retries = blocked
read_loop (e ∷ s) input buf idx (suc left) retries =
    let g = rpc_transport_read e input (suc left) in
    elim (read_round g buf idx (suc left) retries) [
      | more buf' idx' left' retries' ↦ read_loop s g.rest buf' idx' left' retries'
      | abandon ↦ done (none, g.rest, s)
      | overrun ↦ fault
    ]

-- The loop of `printRpcMsg` over `len` bytes from index `i` on, with its index at the end.
unfoldable pub print_loop : ℕ → ℕ → List ℕ → Outcome ℕ
print_loop zero i msg = done i
print_loop (suc n) i msg = checked (get_elem? msg i) >>= λ _. print_loop n ((i + 1) % 256) msg

-- `printRpcMsg`, for the accesses that it makes. From `len` 254 on its index would wrap, but by
-- then it has left a message of 255 bytes.
unfoldable pub print_rpc_msg : ℕ → List ℕ → Outcome (Unit {0})
print_rpc_msg len msg = do
  cmd0 ← checked (get_elem? msg 0)
  cmd1 ← checked (get_elem? msg 1)
  i ← print_loop len 2 msg
  fcs ← checked (get_elem? msg i)
  done tt

-- `llq_add(&rpcLlq, &rpcBuff[1], rpcLen, prio)`
unfoldable pub enqueue : List ℕ → (rpc_len prio : ℕ) → Rpc → Outcome Rpc
enqueue buf rpc_len prio r =
    checked (slice buf 1 rpc_len) >>= λ msg. done (record r { queue = add msg prio r.queue })

-- What is done with a frame whose check sequence is right: a synchronous response that is waited for
-- is announced and goes to the front, and all but synchronous responses goes to the back. Another
-- synchronous response is reported by a `dbg_print` that is shown at the print level of dbgPrint.h and
-- whose format takes two numbers as strings, which C leaves undefined.
unfoldable pub dispatch : List ℕ → (rpc_len : ℕ) → Rpc → Outcome (Bool × Rpc)
dispatch buf rpc_len r = do
  cmd0 ← checked (get_elem? buf 1)
  if bit_and cmd0 mt_rpc_cmd_type_mask == mt_rpc_cmd_srsp
      then (if r.expected == bit_and cmd0 mt_rpc_subsystem_mask
          then (do
            r' ← enqueue buf rpc_len 1 (record r { srsp_sem = r.srsp_sem + 1 })
            done (true, r'))
          else fault)
      else (do r' ← enqueue buf rpc_len 0 r; done (true, r'))

-- The part of `rpcProcess` behind the reading loop.
unfoldable pub process_frame : ℕ → Rpc → Option (List ℕ) → Outcome (Bool × Rpc)
process_frame len r none = done (false, r)
process_frame len r (some buf) = do
  print_rpc_msg len (drop 1 buf)
  fcs ← checked (calc_fcs buf (len + 3))
  sent ← checked (get_elem? buf (len + 3))
  if sent == fcs then dispatch buf ((len + 3) % 256) r else done (false, r)

-- The part of `rpcProcess` behind the read of the length byte.
unfoldable pub process_len : List ℕ → Rpc → Option ℕ → Outcome (Bool × Rpc)
process_len junk r none = done (false, r)
process_len junk r (some len) = do
  buf ← checked (overwrite junk 0 (len ∷ []))
  (result, input, schedule) ← read_loop r.port.schedule r.port.input buf 1 ((len + 3) % 256) 0
  process_frame len (record r { port = record r.port { input = input; schedule = schedule } })
      result

-- The part of `rpcProcess` behind the read of the first byte.
unfoldable pub process_sof : List ℕ → Rpc → Option ℕ → Outcome (Bool × Rpc)
process_sof junk r none = done (false, r)
process_sof junk r (some b) =
    if b == mt_rpc_sof
    then (do (len, p) ← read_one r.port; process_len junk (record r { port = p }) len)
    else done (false, r)

-- `rpcProcess`. `true` is the return value 0, `false` is -1, and `junk` is what `rpcBuff` holds at
-- first.
unfoldable pub rpc_process : List ℕ → Rpc → Outcome (Bool × Rpc)
rpc_process junk r = do (b, p) ← read_one r.port; process_sof junk (record r { port = p }) b

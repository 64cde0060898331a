-- ===== src/Rpc/Send.antt =====
-- `rpcSendFrame` of framework/rpc/rpc.c: the frame is built and written, and for a synchronous
-- request the caller waits for the response.
use znp_host_framework.Base.{
  ℕ, ◌+◌, ◌-◌, ◌%◌, List, [], ◌∷◌, ◌++◌, bit_and, ltb, ◌==◌, if◌then◌else◌, drop, Bool,
}
use znp_host_framework.Base.Bytes.{overwrite}
use znp_host_framework.Rpc.{
  Rpc, Outcome, done, blocked, ◌>>=◌, ◌>>◌, checked, mt_rpc_sof, mt_rpc_cmd_type_mask,
  mt_rpc_subsystem_mask, mt_rpc_cmd_sreq, mt_rpc_success, mt_rpc_err_subsystem,
}
use znp_host_framework.Rpc.Fcs.{calc_fcs}
use znp_host_framework.Rpc.Transport.{slice, rpc_transport_write, flatten}
use znp_host_framework.Rpc.Process.{print_rpc_msg}

-- Whether `cmd0` is that of a synchronous request.
abbrev pub is_sreq : ℕ → Bool
is_sreq cmd0 = bit_and cmd0 mt_rpc_cmd_type_mask == mt_rpc_cmd_sreq

-- `sem_wait(&rpcSem)`
unfoldable pub rpc_sem_wait : Rpc → Outcome Rpc
rpc_sem_wait r = if r.rpc_sem == 0 then blocked else done (record r { rpc_sem = r.rpc_sem - 1 })

-- The frame in `buf`, which holds `junk` at first: header, payload and check sequence.
unfoldable pub build_frame :
    List ℕ → (cmd0 cmd1 : ℕ) → List ℕ → (payload_len : ℕ) → Outcome (List ℕ)
build_frame junk cmd0 cmd1 payload payload_len = do
  buf ← checked (overwrite junk 0 (mt_rpc_sof ∷ payload_len ∷ cmd0 ∷ cmd1 ∷ []))
  copied ← checked (slice payload 0 payload_len)
  buf ← (if ltb 0 payload_len then checked (overwrite buf 4 copied) else done buf)
  fcs ← checked (calc_fcs (drop 1 buf) (payload_len + 3))
  checked (overwrite buf (payload_len + 4) (fcs ∷ []))

-- The part of `rpcSendFrame` up to the wait for the response. `payload_len` is a byte.
unfoldable pub send_begin :
    List ℕ → (cmd0 cmd1 : ℕ) → List ℕ → (payload_len : ℕ) → Rpc → Outcome Rpc
send_begin junk cmd0 cmd1 payload payload_len r = do
  r ← rpc_sem_wait r
  let r' = if is_sreq cmd0 then record r { expected = bit_and cmd0 mt_rpc_subsystem_mask } else r
  buf ← build_frame junk cmd0 cmd1 payload payload_len
  chunks ← checked (rpc_transport_write buf (payload_len + 5))
  print_rpc_msg payload_len (drop 2 buf)
  done (record r' { port = record r'.port { output = r'.port.output ++ flatten chunks } })

-- The wait, `sem_timedwait(&srspSem, ...)`, with the status that it leads to: success if the
-- semaphore was posted in time.
unfoldable pub srsp_timedwait : Rpc → ℕ × Rpc
srsp_timedwait r =
    if r.srsp_sem == 0
    then (mt_rpc_err_subsystem, r)
    else (mt_rpc_success, record r { srsp_sem = r.srsp_sem - 1 })

-- What other threads do to the state meanwhile.
abbrev pub Others : Type 0
Others = Rpc → Outcome Rpc

-- `rpcSendFrame`, with what the RPC thread does before the wait ends (`waiting`) and between its
-- end and the reset of the expected response (`leaving`).
unfoldable pub rpc_send_frame :
    List ℕ
    → (waiting leaving : Others) → (cmd0 cmd1 : ℕ) → List ℕ
    → (payload_len : ℕ) → Rpc
    → Outcome (ℕ × Rpc)
rpc_send_frame junk waiting leaving cmd0 cmd1 payload payload_len r = do
  r ← send_begin junk cmd0 cmd1 payload (payload_len % 256) r
  if is_sreq cmd0
      then (do
        r ← waiting r
        let (status, r') = srsp_timedwait r
        r ← leaving r'
        done (status, record r { expected = 0xff; rpc_sem = r.rpc_sem + 1 }))
      else done (mt_rpc_success, record r { rpc_sem = r.rpc_sem + 1 })

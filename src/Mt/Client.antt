-- ===== src/Mt/Client.antt =====
-- `rpcGetMqClientMsg` and `rpcWaitMqClientMsg` of framework/rpc/rpc.c: a message is taken off the
-- queue and handed to `mtProcess`.
use znp_host_framework.Base.{ℕ, ◌%◌, Option, none, some, List, ◌++◌, length, Bool, true, false}
use znp_host_framework.Base.Bytes.{overwrite}
use znp_host_framework.Queue.Deque.{receive}
use znp_host_framework.Rpc.{Outcome, done, blocked, ◌>>=◌, checked}
use znp_host_framework.Mt.Host.{Host, Env}
use znp_host_framework.Mt.Parser.{mt_process}

-- The message is copied to the buffer `rpcFrame` and handed on, with its length as a byte.
unfoldable pub process_message : Env → List ℕ → Host → Outcome Host
process_message env msg h = do
  rpc_frame ← checked (overwrite env.frame_junk 0 msg)
  p ← mt_process env.callbacks env.table_junk rpc_frame (length msg % 256) h.srsp_rpc_buff
  done (record h { srsp_rpc_buff = p.1; calls = h.calls ++ p.0 })

-- The receive with a timeout: `false` stands for the result -1, and `true` for the time left.
unfoldable pub timed_message : Env → Option (List ℕ) → Host → Outcome (Bool × Host)
timed_message env none h = done (false, h)
timed_message env (some msg) h = process_message env msg h >>= λ h'. done (true, h')

-- While it waits, the RPC thread runs.
unfoldable pub rpc_wait_mq_client_msg : Env → Host → Outcome (Bool × Host)
rpc_wait_mq_client_msg env h = do
  r ← env.arriving h.rpc
  let q = receive r.queue
  timed_message env q.0 (record h { rpc = record r { queue = q.1 } })

-- The receive without a timeout waits until there is a message.
unfoldable pub next_message : Env → Option (List ℕ) → Host → Outcome Host
next_message env none h = blocked
next_message env (some msg) h = process_message env msg h

unfoldable pub rpc_get_mq_client_msg : Env → Host → Outcome Host
rpc_get_mq_client_msg env h = do
  r ← env.arriving h.rpc
  let q = receive r.queue
  next_message env q.0 (record h { rpc = record r { queue = q.1 } })

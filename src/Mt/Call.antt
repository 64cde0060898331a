-- ===== src/Mt/Call.antt =====
-- The frame that all request functions of framework/mt share: the command buffer is allocated,
-- filled and sent with `rpcSendFrame`, and after a success the answer is waited for.
use znp_host_framework.Base.{
  ℕ, ◌≡◌, ◌≤◌, refl, Option, none, some, List, [], ◌==◌, if◌then◌else◌, length, get_elem?,
}
use znp_host_framework.Rpc.{Outcome, done, ◌>>=◌, checked, mt_rpc_success}
use znp_host_framework.Rpc.Send.{rpc_send_frame}
use znp_host_framework.Mt.Host.{Host, Env}
use znp_host_framework.Mt.Client.{rpc_wait_mq_client_msg}
use znp_host_framework.Mt.Writer.{Cmd, Writes, Writes-whole}

-- `malloc` returns a block of the size asked for, or fails.
abbrev pub IsAllocator : (ℕ → Option (List ℕ)) → Type 0
IsAllocator malloc = (n : ℕ) (block : List ℕ) → malloc n ≡ some block → length block ≡ n

-- `rpcSendFrame` among the host's state.
abbrev pub send_frame :
    Env → (cmd0 cmd1 : ℕ) → List ℕ → (payload_len : ℕ) → Host → Outcome (ℕ × Host)
send_frame env cmd0 cmd1 payload payload_len h =
    rpc_send_frame env.junk env.waiting env.leaving cmd0 cmd1 payload payload_len h.rpc >>= λ x.
    done (x.0, record h { rpc = x.1 })

-- What follows `status = rpcSendFrame(...)`: in the AF, SAPI and SYS interfaces
unfoldable pub mt_finish : Env → ℕ × Host → Outcome (ℕ × Host)
mt_finish env (status, h) =
    if status == mt_rpc_success
    then (rpc_wait_mq_client_msg env h >>= λ p. done (status, p.1))
    else done (status, h)

-- and in the ZDO interface, which returns the status of the response.
unfoldable pub zdo_finish : Env → ℕ × Host → Outcome (ℕ × Host)
zdo_finish env (status, h) =
    if status == mt_rpc_success
    then (rpc_wait_mq_client_msg env h >>= λ p.
        checked (get_elem? p.1.srsp_rpc_buff 2) >>= λ status. done (status, p.1))
    else done (status, h)

abbrev pub Finish : Type 0
Finish = ℕ × Host → Outcome (ℕ × Host)

-- A request without a payload, `rpcSendFrame(cmd0, cmd1, NULL, 0)`.
unfoldable pub mt_empty : Env → (cmd0 cmd1 : ℕ) → Host → Outcome (ℕ × Host)
mt_empty env cmd0 cmd1 h = send_frame env cmd0 cmd1 [] 0 h >>= λ x. mt_finish env x

-- The two branches on `cmd`, with `fill` for the statements that fill it, and `finish` for those
-- behind `rpcSendFrame`.
unfoldable pub mt_with :
    Env
    → Finish
    → (cmd0 cmd1 cmd_len : ℕ) → (Cmd → Outcome Cmd)
    → Host
    → Option (List ℕ)
    → Outcome (ℕ × Host)
mt_with env finish cmd0 cmd1 cmd_len fill h none = done (1, h)
mt_with env finish cmd0 cmd1 cmd_len fill h (some block) = do
  c ← fill (record { buf = block; cm_ind = 0 })
  x ← send_frame env cmd0 cmd1 c.buf cmd_len h
  finish x

unfoldable pub mt_request :
    Env → Finish → (cmd0 cmd1 cmd_len : ℕ) → (Cmd → Outcome Cmd) → Host → Outcome (ℕ × Host)
mt_request env finish cmd0 cmd1 cmd_len fill h =
    mt_with env finish cmd0 cmd1 cmd_len fill h (env.malloc cmd_len)

-- A request by its payload alone: status 1 without memory, and otherwise a call of `rpcSendFrame`
-- with the payload, and what follows it. What `rpcSendFrame` puts on the wire depends on the size
-- of the payload.
abbrev pub transmit :
    Env → Finish → (cmd0 cmd1 : ℕ) → List ℕ → Host → Option (List ℕ) → Outcome (ℕ × Host)
transmit env finish cmd0 cmd1 payload h none = done (1, h)
transmit env finish cmd0 cmd1 payload h (some block) =
    send_frame env cmd0 cmd1 payload (length payload) h >>= λ x. finish x

mt_with-Writes :
    (env : Env) (finish : Finish) (cmd0 cmd1 : ℕ) (fill : Cmd → Outcome Cmd) (xs : List ℕ)
    (h : Host) (memory : Option (List ℕ))
    → Writes fill xs
    → length xs ≤ 256
    → ((block : List ℕ) → memory ≡ some block → length block ≡ length xs)
    → mt_with env finish cmd0 cmd1 (length xs) fill h memory
      ≡ transmit env finish cmd0 cmd1 xs h memory
unfolding mt_with
mt_with-Writes env finish cmd0 cmd1 fill xs h none w short size = refl
mt_with-Writes env finish cmd0 cmd1 fill xs h (some block) w short size =
    rw (Writes-whole fill xs block w (size block refl) short) refl

-- A request that fills its buffer with `xs`, of the size it asked for.
pub mt_request-Writes :
    (env : Env) (finish : Finish) (cmd0 cmd1 n : ℕ) (fill : Cmd → Outcome Cmd) (xs : List ℕ)
    (h : Host)
    → IsAllocator env.malloc
    → Writes fill xs
    → n ≡ length xs
    → length xs ≤ 256
    → mt_request env finish cmd0 cmd1 n fill h
      ≡ transmit env finish cmd0 cmd1 xs h (env.malloc (length xs))
unfolding mt_request
mt_request-Writes env finish cmd0 cmd1 n fill xs h allocates w size short = rw size (
    mt_with-Writes env finish cmd0 cmd1 fill xs h (env.malloc (length xs)) w short
      (λ block e. allocates (length xs) block e))

-- ===== src/Rpc/Frame.antt =====
-- The frame format of framework/rpc/rpc.h, described apart from the code that reads and writes it,
-- and what the receipt of a frame means.
use znp_host_framework.Base.{
  ℕ, ◌+◌, ◌/◌, ◌%◌, List, [], ◌∷◌, ◌++◌, ◌==◌, if◌then◌else◌, length, Bool, true, false,
}
use znp_host_framework.Queue.Deque.{add}
use znp_host_framework.Rpc.{Rpc, Outcome, done, fault, ◌>>=◌, mt_rpc_sof}
use znp_host_framework.Rpc.Fcs.{xor_all}

-- A command with its payload.
pub record Frame : Type 0 where
  pub cmd0 : ℕ
  pub cmd1 : ℕ
  pub payload : List ℕ

-- The part that the check sequence covers.
abbrev pub general : Frame → List ℕ
general f = length f.payload ∷ f.cmd0 ∷ f.cmd1 ∷ f.payload

abbrev pub fcs_of : Frame → ℕ
fcs_of f = xor_all 0 (general f)

-- What goes through the queue: everything behind the length byte.
abbrev pub message : Frame → ℕ → List ℕ
message f fcs = f.cmd0 ∷ f.cmd1 ∷ f.payload ++ fcs ∷ []

-- The bytes on the wire, with a given last byte.
abbrev pub wire : Frame → ℕ → List ℕ
wire f fcs = mt_rpc_sof ∷ length f.payload ∷ message f fcs

-- What becomes of a frame whose check byte is right: a synchronous response (type 3) goes to the
-- front of the queue and is announced if its subsystem is the awaited one, and is a fault if not; any
-- other frame goes to the back.
abbrev pub accepted : Frame → ℕ → Rpc → Outcome Rpc
accepted f fcs r =
    if f.cmd0 / 32 == 3
    then (if r.expected == f.cmd0 % 32
        then done (record r { srsp_sem = r.srsp_sem + 1; queue = add (message f fcs) 1 r.queue })
        else fault)
    else done (record r { queue = add (message f fcs) 0 r.queue })

-- The receipt of a frame with the check byte `fcs`: a failure that changes nothing if that byte is
-- wrong.
abbrev pub receipt : Frame → ℕ → Rpc → Outcome (Bool × Rpc)
receipt f fcs r =
    if fcs == fcs_of f then (accepted f fcs r >>= λ r'. done (true, r')) else done (false, r)

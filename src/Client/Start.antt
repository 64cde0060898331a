-- ===== src/Client/Start.antt =====
-- A session from the start of the program: `rpcOpen`, `rpcInitMq` and then the steps of a session.
use znp_host_framework.Base.{ℕ, Option, List}
use znp_host_framework.Rpc.Frame.{Frame}
use znp_host_framework.Rpc.Start.{Opens, rpc_open, rpc_init_mq}
use znp_host_framework.Mt.Host.{Host}
use znp_host_framework.Client.Session.{Session}
use znp_host_framework.Client.Log.{Log}

-- The state after `rpcOpen` and `rpcInitMq`, as the programs call them.
abbrev pub start : Opens → Option (List ℕ) → List ℕ → Host → Host
start opens path last_used h = record h {
  rpc = rpc_init_mq (rpc_open opens path last_used h.rpc).rpc;
}

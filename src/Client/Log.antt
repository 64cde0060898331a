-- ===== src/Client/Log.antt =====
-- What holds after every session: no request is under way, the wire has the frames that were sent, and
-- the callbacks called are those of the messages, in their order.
use znp_host_framework.Base.{◌≡◌, List, ◌++◌}
use znp_host_framework.Rpc.Frame.{Frame}
use znp_host_framework.Mt.Host.{MtEvent, Host, Env}
use znp_host_framework.Client.Session.{IsIdle, wires, calls_of, Session}

pub record Log (env : Env) (h : Host) (fs : List Frame) (es : List MtEvent) (h' : Host)
    : Type 0 where
  pub idle : IsIdle h'
  pub output : h'.rpc.port.output ≡ h.rpc.port.output ++ wires fs
  pub calls : h'.calls ≡ h.calls ++ calls_of env es

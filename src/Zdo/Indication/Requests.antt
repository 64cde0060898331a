-- ===== src/Zdo/Indication/Requests.antt =====
-- The request functions of framework/mt/Zdo/mtZdo.c about messages passed on, each with its
-- length and the statements that fill the command buffer.
use znp_host_framework.Base.{ℕ, [], ◌∷◌}
use znp_host_framework.Base.Bytes.{lo_byte, hi_byte}
use znp_host_framework.Rpc.{Outcome}
use znp_host_framework.Mt.Writer.{puts}
use znp_host_framework.Mt.Host.{Host, Env}
use znp_host_framework.Mt.Call.{mt_request, zdo_finish}
use znp_host_framework.Zdo.Indication.Formats.{MsgCbRegisterFormat, MsgCbRemoveFormat}
use znp_host_framework.Zdo.Requests.{zdo_sreq}

unfoldable pub zdo_msg_cb_register : Env → MsgCbRegisterFormat → Host → Outcome (ℕ × Host)
zdo_msg_cb_register env req h =
    mt_request env (zdo_finish env) zdo_sreq 0x3e (2)
      (λ c. puts (lo_byte req.cluster_id ∷ hi_byte req.cluster_id ∷ []) c) h

unfoldable pub zdo_msg_cb_remove : Env → MsgCbRemoveFormat → Host → Outcome (ℕ × Host)
zdo_msg_cb_remove env req h =
    mt_request env (zdo_finish env) zdo_sreq 0x3f (2)
      (λ c. puts (lo_byte req.cluster_id ∷ hi_byte req.cluster_id ∷ []) c) h

-- ===== src/Zdo/Indication/Payloads.antt =====
-- What the request functions of framework/mt/Zdo/mtZdo.c about messages passed on send: the
-- payload by the format, and that the function for it sends exactly this.
use znp_host_framework.Base.{ℕ, ◌≡◌, List, [], ◌∷◌, length, arith}
use znp_host_framework.Base.Bytes.{lo_byte, hi_byte}
use znp_host_framework.Mt.Host.{Host, Env}
use znp_host_framework.Mt.Call.{IsAllocator, transmit, zdo_finish}
use znp_host_framework.Mt.Fills.{puts-Fills, request-Fills}
use znp_host_framework.Zdo.Indication.Formats.{MsgCbRegisterFormat, MsgCbRemoveFormat}
use znp_host_framework.Zdo.Requests.{zdo_sreq}
use znp_host_framework.Zdo.Indication.Requests.{zdo_msg_cb_register, zdo_msg_cb_remove}

abbrev pub msg_cb_register_bytes : MsgCbRegisterFormat → List ℕ
msg_cb_register_bytes req = lo_byte req.cluster_id ∷ hi_byte req.cluster_id ∷ []

abbrev pub IsMsgCbRegister : MsgCbRegisterFormat → Type 0
IsMsgCbRegister req = Unit {0}

pub zdo_msg_cb_register-transmit :
    (env : Env) (req : MsgCbRegisterFormat) (h : Host)
    → IsAllocator env.malloc
    → IsMsgCbRegister req
    → zdo_msg_cb_register env req h
      ≡ transmit env
          (zdo_finish env)
          zdo_sreq
          0x3e
          (msg_cb_register_bytes req)
          h
          (env.malloc (length (msg_cb_register_bytes req)))
unfolding zdo_msg_cb_register
zdo_msg_cb_register-transmit env req h allocates ok =
    request-Fills env (zdo_finish env) zdo_sreq 0x3e (2) _ (msg_cb_register_bytes req) _ h allocates
      (puts-Fills _) (omega arith) (omega arith)

abbrev pub msg_cb_remove_bytes : MsgCbRemoveFormat → List ℕ
msg_cb_remove_bytes req = lo_byte req.cluster_id ∷ hi_byte req.cluster_id ∷ []

abbrev pub IsMsgCbRemove : MsgCbRemoveFormat → Type 0
IsMsgCbRemove req = Unit {0}

pub zdo_msg_cb_remove-transmit :
    (env : Env) (req : MsgCbRemoveFormat) (h : Host)
    → IsAllocator env.malloc
    → IsMsgCbRemove req
    → zdo_msg_cb_remove env req h
      ≡ transmit env
          (zdo_finish env)
          zdo_sreq
          0x3f
          (msg_cb_remove_bytes req)
          h
          (env.malloc (length (msg_cb_remove_bytes req)))
unfolding zdo_msg_cb_remove
zdo_msg_cb_remove-transmit env req h allocates ok =
    request-Fills env (zdo_finish env) zdo_sreq 0x3f (2) _ (msg_cb_remove_bytes req) _ h allocates
      (puts-Fills _) (omega arith) (omega arith)

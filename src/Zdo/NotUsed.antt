-- ===== src/Zdo/NotUsed.antt =====
-- `processMsgCbIncoming` of framework/mt/Zdo/mtZdo.c, on any message.
use znp_host_framework.Base.{ℕ, ◌≤◌, ◌≡◌, refl, List, [], ◌∷◌, ◌++◌, length, if◌then◌else◌}
use znp_host_framework.Base.Bytes.{lo_byte}
use znp_host_framework.Rpc.{done}
use znp_host_framework.Mt.Dispatch.{deliver-unread}
use znp_host_framework.Zdo.Events.{ZdoCallbacks, msg_cb_incoming}
use znp_host_framework.Zdo.Management.Responses.{BindingTableListItemFormat}
use znp_host_framework.Zdo.Indication.Responses.{MsgCbIncomingFormat}
use znp_host_framework.Zdo.Indication.Handlers.{process_msg_cb_incoming}
use znp_host_framework.Zdo.Indication.Reading.{
  IsMsgCbIncoming, msg_cb_incoming_front, process_msg_cb_incoming-Reads,
}
use znp_host_framework.Zdo.Messages.{payload_of, message_of}
use znp_host_framework.Zdo.Process.{zdo_areq_switch, zdo_process}

-- What the handler makes of a message.
abbrev pub with_low_byte : MsgCbIncomingFormat → MsgCbIncomingFormat
with_low_byte e = record e { not_used = lo_byte e.nwk_addr }

-- An incoming message, whatever its `NotUsed` byte, reaches its callback, if that is registered, with
-- all members as the message states them but `NotUsed`, in whose place stands the low byte of
-- `NwkAddr`. The other members fit their types, and the payload has at most 252 bytes.
pub zdo_process-with_low_byte :
    (cbs : ZdoCallbacks) (table : List BindingTableListItemFormat) (e : MsgCbIncomingFormat)
    (fcs : ℕ) (back srsp : List ℕ)
    → IsMsgCbIncoming (with_low_byte e)
    → length (payload_of (msg_cb_incoming e)) ≤ 252
    → zdo_process cbs table
        (message_of (msg_cb_incoming e) fcs ++ back)
        (length (message_of (msg_cb_incoming e) fcs))
        srsp
      ≡ done
          (if cbs.pfn_zdo_msg_cb_incoming then msg_cb_incoming (with_low_byte e) ∷ [] else [], srsp)
unfolding zdo_process zdo_areq_switch
zdo_process-with_low_byte cbs table e fcs back srsp ok short =
    rw
      (deliver-unread cbs.pfn_zdo_msg_cb_incoming msg_cb_incoming process_msg_cb_incoming 0x45 0xff
        (msg_cb_incoming_front e) e.not_used fcs back (with_low_byte e)
        (process_msg_cb_incoming-Reads (with_low_byte e) ok) short)
      refl

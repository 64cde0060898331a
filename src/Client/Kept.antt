-- ===== src/Client/Kept.antt =====
-- The size of `srspRpcBuff` once a message is handled.
use znp_host_framework.Base.{
  ℕ, ◌≤◌, ◌≡◌, refl, ◌∙◌, List, [], ◌∷◌, ◌++◌, length, drop, Bool, true, false, if◌then◌else◌, ◌==◌,
  arith, length-append, length-drop,
}
use znp_host_framework.Rpc.Frame.{message}
use znp_host_framework.Af.Events.{
  AfEvent, data_confirm, incoming_msg, incoming_msg_ext, data_retrieve_srsp, reflect_error,
}
use znp_host_framework.Sapi
use znp_host_framework.Sys
use znp_host_framework.Zdo
use znp_host_framework.Mt.Host.{MtEvent, af_event, sapi_event, sys_event, zdo_event}
use znp_host_framework.Client.Messages.{frame_of, kept}

pub length-kept_msg :
    (msg srsp : List ℕ)
    → length msg ≤ length srsp
    → length (msg ++ drop (length msg) srsp) ≡ length srsp
length-kept_msg msg srsp h =
    omega (arith, length-append msg (drop (length msg) srsp), length-drop (length msg) srsp, h)

length-kept_if :
    (b : Bool) (msg srsp : List ℕ)
    → length msg ≤ length srsp
    → length (if b then msg ++ drop (length msg) srsp else srsp) ≡ length srsp
length-kept_if true msg srsp h = length-kept_msg msg srsp h
length-kept_if false msg srsp h = refl

length-kept_af :
    (e : AfEvent) (fcs : ℕ) (srsp : List ℕ)
    → length (message (frame_of (af_event e)) fcs) ≤ length srsp
    → length (kept (af_event e) fcs srsp) ≡ length srsp
length-kept_af (data_confirm e) fcs srsp h = refl
length-kept_af (incoming_msg e) fcs srsp h = refl
length-kept_af (incoming_msg_ext e) fcs srsp h = refl
length-kept_af (data_retrieve_srsp e) fcs srsp h =
    length-kept_msg (message (frame_of (af_event (data_retrieve_srsp e))) fcs) srsp h
length-kept_af (reflect_error e) fcs srsp h = refl

kept_room :
    (e : MtEvent) (fcs : ℕ) (srsp : List ℕ)
    → length (frame_of e).payload ≤ 252
    → length srsp ≡ 256
    → length (message (frame_of e) fcs) ≤ length srsp
kept_room e fcs srsp short size =
    omega (arith, length-append (frame_of e).payload (fcs ∷ []), short, size)

-- Keeping a response does not change the size of the buffer.
pub length-kept :
    (e : MtEvent) (fcs : ℕ) (srsp : List ℕ)
    → length (frame_of e).payload ≤ 252
    → length srsp ≡ 256
    → length (kept e fcs srsp) ≡ 256
length-kept (af_event e) fcs srsp short size =
    length-kept_af e fcs srsp (kept_room (af_event e) fcs srsp short size) ∙ size
length-kept (sapi_event e) fcs srsp short size =
    length-kept_if (Sapi.Decoding.cmd0_of e == 0x66) (message (frame_of (sapi_event e)) fcs) srsp
      (kept_room (sapi_event e) fcs srsp short size)
    ∙ size
length-kept (sys_event e) fcs srsp short size =
    length-kept_if (Sys.Decoding.cmd0_of e == 0x61) (message (frame_of (sys_event e)) fcs) srsp
      (kept_room (sys_event e) fcs srsp short size)
    ∙ size
length-kept (zdo_event e) fcs srsp short size =
    length-kept_if (Zdo.Messages.cmd0_of e == 0x65) (message (frame_of (zdo_event e)) fcs) srsp
      (kept_room (zdo_event e) fcs srsp short size)
    ∙ size

-- ===== src/Sapi/Reset.antt =====
-- `zbSystemReset` of framework/mt/Sapi/mtSapi.c, the one asynchronous command of the interface.
use znp_host_framework.Base.{◌+◌, ◌-◌, ◌≡◌, ◌≢◌, refl, [], ◌∷◌, ◌++◌, length, arith}
use znp_host_framework.Rpc.{done}
use znp_host_framework.Rpc.Fcs.{xor_all}
use znp_host_framework.Rpc.Frame.{Frame}
use znp_host_framework.Rpc.Send.{rpc_send_frame}
use znp_host_framework.Rpc.Request.{send_begin-sent}
use znp_host_framework.Mt.Host.{Host, Env}
use znp_host_framework.Sapi.Requests.{zb_system_reset}

abbrev reset_frame : Frame
reset_frame = record { cmd0 = 0x46; cmd1 = 0x09; payload = [] }

-- When no other request holds the sending side, `zbSystemReset` writes the five bytes of the reset
-- command, returns 0 without waiting for a response, and leaves the rest of the state as it was. The
-- buffer of `rpcSendFrame` has 256 bytes.
pub zb_system_reset-sends :
    (env : Env) (h : Host)
    → length env.junk ≡ 256
    → h.rpc.rpc_sem ≢ 0
    → zb_system_reset env h
      ≡ done (
        0,
        record h {
          rpc = record h.rpc {
            port = record h.rpc.port {
              output = h.rpc.port.output ++ (0xfe ∷ 0 ∷ 0x46 ∷ 0x09 ∷ 0x4f ∷ []);
            };
          };
        },
      )
unfolding zb_system_reset rpc_send_frame xor_all
zb_system_reset-sends env h whole free =
    let restored : h.rpc.rpc_sem - 1 + 1 ≡ h.rpc.rpc_sem = omega arith in
    rw (send_begin-sent env.junk reset_frame h.rpc whole (omega arith) (omega arith) free, restored)
      refl

-- ===== src/Zdo/Network/Requests.antt =====
-- The request functions of framework/mt/Zdo/mtZdo.c about starting, joining and leaving a network, each with its
-- length and the statements that fill the command buffer.
use znp_host_framework.Base.{ℕ, [], ◌∷◌}
use znp_host_framework.Base.Bytes.{lo_byte, hi_byte}
use znp_host_framework.Rpc.{Outcome, ◌>>=◌}
use znp_host_framework.Mt.Writer.{puts, put_copy}
use znp_host_framework.Mt.Host.{Host, Env}
use znp_host_framework.Mt.Call.{mt_request, zdo_finish}
use znp_host_framework.Zdo.Network.Formats.{
  StartupFromAppFormat, AutoFindDestinationFormat, NwkDiscoveryReqFormat, JoinReqFormat,
}
use znp_host_framework.Zdo.Requests.{zdo_sreq}

unfoldable pub zdo_startup_from_app : Env → StartupFromAppFormat → Host → Outcome (ℕ × Host)
zdo_startup_from_app env req h =
    mt_request env (zdo_finish env) zdo_sreq 0x40 (2)
      (λ c. puts (lo_byte req.start_delay ∷ hi_byte req.start_delay ∷ []) c) h

unfoldable pub zdo_auto_find_destination :
    Env → AutoFindDestinationFormat → Host → Outcome (ℕ × Host)
zdo_auto_find_destination env req h =
    mt_request env (zdo_finish env) zdo_sreq 0x41 (1) (λ c. puts (req.endpoint ∷ []) c) h

unfoldable pub zdo_nwk_discovery_req : Env → NwkDiscoveryReqFormat → Host → Outcome (ℕ × Host)
zdo_nwk_discovery_req env req h =
    mt_request env (zdo_finish env) zdo_sreq 0x26 (5)
      (λ c. put_copy 4 req.scan_channels c >>= λ c. puts (req.scan_duration ∷ []) c) h

unfoldable pub zdo_join_req : Env → JoinReqFormat → Host → Outcome (ℕ × Host)
zdo_join_req env req h =
    mt_request env (zdo_finish env) zdo_sreq 0x27 (15)
      (λ c. puts (req.logical_channel ∷ lo_byte req.pan_id ∷ hi_byte req.pan_id ∷ []) c >>= λ c.
        put_copy 8 req.extended_pan_id c >>= λ c.
        puts
          (lo_byte req.chosen_parent
            ∷ hi_byte req.chosen_parent
            ∷ req.parent_depth
            ∷ req.stack_profile
            ∷ [])
          c)
      h

-- `zdoInit` starts with the delay `STARTDELAY`, which is 0.
unfoldable pub zdo_init : Env → Host → Outcome (ℕ × Host)
zdo_init env h =
    mt_request env (zdo_finish env) zdo_sreq 0x40 2 (λ c. puts (lo_byte 0 ∷ hi_byte 0 ∷ []) c) h

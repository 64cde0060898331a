-- ===== src/Zdo/Network/Payloads.antt =====
-- What the request functions of framework/mt/Zdo/mtZdo.c about starting, joining and leaving a network send: the
-- payload by the format, and that the function for it sends exactly this.
use znp_host_framework.Base.{ℕ, ◌≡◌, refl, List, [], ◌∷◌, ◌++◌, length, arith}
use znp_host_framework.Base.Bytes.{lo_byte, hi_byte}
use znp_host_framework.Mt.Host.{Host, Env}
use znp_host_framework.Mt.Call.{IsAllocator, transmit, zdo_finish}
use znp_host_framework.Mt.Fills.{puts-Fills, then-Fills, put_copy-Fills, request-Fills}
use znp_host_framework.Zdo.Network.Formats.{
  StartupFromAppFormat, AutoFindDestinationFormat, NwkDiscoveryReqFormat, JoinReqFormat,
}
use znp_host_framework.Zdo.Requests.{zdo_sreq}
use znp_host_framework.Zdo.Network.Requests.{
  zdo_startup_from_app, zdo_auto_find_destination, zdo_nwk_discovery_req, zdo_join_req, zdo_init,
}

abbrev pub startup_from_app_bytes : StartupFromAppFormat → List ℕ
startup_from_app_bytes req = lo_byte req.start_delay ∷ hi_byte req.start_delay ∷ []

abbrev pub IsStartupFromApp : StartupFromAppFormat → Type 0
IsStartupFromApp req = Unit {0}

pub zdo_startup_from_app-transmit :
    (env : Env) (req : StartupFromAppFormat) (h : Host)
    → IsAllocator env.malloc
    → IsStartupFromApp req
    → zdo_startup_from_app env req h
      ≡ transmit env
          (zdo_finish env)
          zdo_sreq
          0x40
          (startup_from_app_bytes req)
          h
          (env.malloc (length (startup_from_app_bytes req)))
unfolding zdo_startup_from_app
zdo_startup_from_app-transmit env req h allocates ok =
    request-Fills env (zdo_finish env) zdo_sreq 0x40 (2) _ (startup_from_app_bytes req) _ h
      allocates (puts-Fills _) (omega arith) (omega arith)

abbrev pub auto_find_destination_bytes : AutoFindDestinationFormat → List ℕ
auto_find_destination_bytes req = req.endpoint ∷ []

abbrev pub IsAutoFindDestination : AutoFindDestinationFormat → Type 0
IsAutoFindDestination req = Unit {0}

pub zdo_auto_find_destination-transmit :
    (env : Env) (req : AutoFindDestinationFormat) (h : Host)
    → IsAllocator env.malloc
    → IsAutoFindDestination req
    → zdo_auto_find_destination env req h
      ≡ transmit env
          (zdo_finish env)
          zdo_sreq
          0x41
          (auto_find_destination_bytes req)
          h
          (env.malloc (length (auto_find_destination_bytes req)))
unfolding zdo_auto_find_destination
zdo_auto_find_destination-transmit env req h allocates ok =
    request-Fills env (zdo_finish env) zdo_sreq 0x41 (1) _ (auto_find_destination_bytes req) _ h
      allocates (puts-Fills _) (omega arith) (omega arith)

abbrev pub nwk_discovery_req_bytes : NwkDiscoveryReqFormat → List ℕ
nwk_discovery_req_bytes req = (req.scan_channels ++ (req.scan_duration ∷ []))

abbrev pub IsNwkDiscoveryReq : NwkDiscoveryReqFormat → Type 0
IsNwkDiscoveryReq req = length req.scan_channels ≡ 4

pub zdo_nwk_discovery_req-transmit :
    (env : Env) (req : NwkDiscoveryReqFormat) (h : Host)
    → IsAllocator env.malloc
    → IsNwkDiscoveryReq req
    → zdo_nwk_discovery_req env req h
      ≡ transmit env
          (zdo_finish env)
          zdo_sreq
          0x26
          (nwk_discovery_req_bytes req)
          h
          (env.malloc (length (nwk_discovery_req_bytes req)))
unfolding zdo_nwk_discovery_req
zdo_nwk_discovery_req-transmit env req h allocates h_scan_channels =
    request-Fills env (zdo_finish env) zdo_sreq 0x26 (5) _ (nwk_discovery_req_bytes req) _ h
      allocates
      (then-Fills _ _ _ _ _ _ (put_copy-Fills 4 req.scan_channels h_scan_channels (omega arith))
        (puts-Fills _))
      (omega arith) (omega arith)

abbrev pub join_req_bytes : JoinReqFormat → List ℕ
join_req_bytes req =
    req.logical_channel
    ∷ lo_byte req.pan_id
    ∷ hi_byte req.pan_id
    ∷ (req.extended_pan_id
        ++ (lo_byte req.chosen_parent
            ∷ hi_byte req.chosen_parent
            ∷ req.parent_depth
            ∷ req.stack_profile
            ∷ []))

abbrev pub IsJoinReq : JoinReqFormat → Type 0
IsJoinReq req = length req.extended_pan_id ≡ 8

pub zdo_join_req-transmit :
    (env : Env) (req : JoinReqFormat) (h : Host)
    → IsAllocator env.malloc
    → IsJoinReq req
    → zdo_join_req env req h
      ≡ transmit env
          (zdo_finish env)
          zdo_sreq
          0x27
          (join_req_bytes req)
          h
          (env.malloc (length (join_req_bytes req)))
unfolding zdo_join_req
zdo_join_req-transmit env req h allocates h_extended_pan_id =
    request-Fills env (zdo_finish env) zdo_sreq 0x27 (15) _ (join_req_bytes req) _ h allocates
      (then-Fills _ _ _ _ _ _ (puts-Fills _) (
        then-Fills _ _ _ _ _ _
          (put_copy-Fills 8 req.extended_pan_id h_extended_pan_id (omega arith)) (puts-Fills _)))
      (omega arith) (omega arith)

pub zdo_init-transmit :
    (env : Env) (h : Host)
    → IsAllocator env.malloc
    → zdo_init env h ≡ transmit env (zdo_finish env) zdo_sreq 0x40 (0 ∷ 0 ∷ []) h (env.malloc 2)
unfolding zdo_init
zdo_init-transmit env h allocates =
    request-Fills env (zdo_finish env) zdo_sreq 0x40 2 _ (0 ∷ 0 ∷ []) _ h allocates (puts-Fills _)
      refl (omega arith)

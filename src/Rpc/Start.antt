-- ===== src/Rpc/Start.antt =====
-- `rpcOpen`, `rpcInitMq` and `rpcForceRun` of framework/rpc/rpc.c, with `rpcTransportOpen` of
-- framework/platform/gnu/rpcTransportUart.c: which device is opened and the state that a program
-- starts from. `open` is the operating system's.
use znp_host_framework.Base.{
  ℕ, ◌≤◌, ◌≡◌, refl, bit_xor, ltb, false, Option, none, some, List, [], ◌∷◌, ◌++◌, length,
  if◌then◌else◌, arith,
}
use znp_host_framework.Rpc.{Rpc, Outcome, done, ◌>>=◌, checked}
use znp_host_framework.Rpc.Transport.{rpc_transport_write, flatten}

-- `open`: the descriptor of the device at a path, or a failure.
abbrev pub Opens : Type 0
Opens = List ℕ → Option ℕ

-- `rpcTransportOpen` on a path, or on none, with `lastUsedDevicePath` before and after. A path is its
-- characters without the NUL; the settings of the port are left out.
unfoldable pub rpc_transport_open : Opens → Option (List ℕ) → List ℕ → Option ℕ × List ℕ
rpc_transport_open opens none last_used = (opens last_used, last_used)
rpc_transport_open opens (some path) last_used =
    if ltb 254 (length path) then (none, last_used) else (opens path, path)

-- What `rpcOpen` leaves: the descriptor, or `none` for -1, `lastUsedDevicePath` and the variables.
pub record Opened : Type 0 where
  pub fd : Option ℕ
  pub last_used : List ℕ
  pub rpc : Rpc

-- `rpcOpen` once `rpcTransportOpen` has returned
unfoldable pub init_sems : Option ℕ × List ℕ → Rpc → Opened
init_sems (none, last_used) r = record { fd = none; last_used = last_used; rpc = r }
init_sems (some fd, last_used) r = record {
  fd = some fd;
  last_used = last_used;
  rpc = record r { rpc_sem = 1; srsp_sem = 0 };
}

unfoldable pub rpc_open : Opens → Option (List ℕ) → List ℕ → Rpc → Opened
rpc_open opens path last_used r = init_sems (rpc_transport_open opens path last_used) r

-- `rpcInitMq`, whose queue is a new one
unfoldable pub rpc_init_mq : Rpc → Rpc
rpc_init_mq r = record r { queue = [] }

abbrev pub sb_force_boot : ℕ
sb_force_boot = 0xf8

abbrev pub sb_force_run : ℕ
sb_force_run = bit_xor sb_force_boot 0xff

unfoldable pub rpc_force_run : Rpc → Outcome Rpc
rpc_force_run r = do
  chunks ← checked (rpc_transport_write (sb_force_run ∷ []) 1)
  done (record r { port = record r.port { output = r.port.output ++ flatten chunks } })

short_path : (path : List ℕ) → length path ≤ 254 → ltb 254 (length path) ≡ false
short_path path h = ground arith

init_sems-last_used : (o : Option ℕ × List ℕ) (r : Rpc) → (init_sems o r).last_used ≡ o.1
unfolding init_sems
init_sems-last_used (none, last_used) r = refl
init_sems-last_used (some fd, last_used) r = refl

-- After an attempt to open the device at a path of at most 254 characters, whether it succeeded or
-- not, `rpcOpen` without a path does what `rpcOpen` with that path does: the same device is opened,
-- and the state is the same.
pub rpc_open-again :
    (opens later : Opens) (path last_used : List ℕ) (r r' : Rpc)
    → length path ≤ 254
    → rpc_open later none (rpc_open opens (some path) last_used r).last_used r'
      ≡ rpc_open later (some path) last_used r'
unfolding rpc_open rpc_transport_open
rpc_open-again opens later path last_used r r' h =
    rw (short_path path h, init_sems-last_used (opens path, path) r) refl

init_sems-success :
    (o : Option ℕ × List ℕ) (r : Rpc) (fd : ℕ)
    → (init_sems o r).fd ≡ some fd
    → (init_sems o r).rpc ≡ record r { rpc_sem = 1; srsp_sem = 0 }
unfolding init_sems
init_sems-success (none, last_used) r fd e = cc
init_sems-success (some fd', last_used) r fd e = refl

-- `rpcOpen` that succeeds keeps the port, and leaves one semaphore free and the other taken.
pub rpc_open-success :
    (opens : Opens) (path : Option (List ℕ)) (last_used : List ℕ) (r : Rpc) (fd : ℕ)
    → (rpc_open opens path last_used r).fd ≡ some fd
    → (rpc_open opens path last_used r).rpc ≡ record r { rpc_sem = 1; srsp_sem = 0 }
unfolding rpc_open
rpc_open-success opens path last_used r fd e =
    init_sems-success (rpc_transport_open opens path last_used) r fd e

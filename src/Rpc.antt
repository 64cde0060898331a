-- ===== src/Rpc.antt =====
-- framework/rpc/rpc.h and the state of framework/rpc/rpc.c: the constants of the frame format, what
-- the RPC layer keeps between calls, and how a call can end.
pub mod Fcs
pub mod Transport
pub mod Process
pub mod Reading
pub mod Frame
pub mod Receive
pub mod Send
pub mod Request
pub mod Exchange
pub mod Start
pub mod Sample
mod Tests
use znp_host_framework.Base.{ℕ, bit_and, List, Bool, Option, none, some}
use znp_host_framework.Queue.Deque.{Deque}

-- Start of frame.
abbrev pub mt_rpc_sof : ℕ
mt_rpc_sof = 0xfe

-- Cmd0: the command type in the high three bits, the subsystem in the low five.
abbrev pub mt_rpc_cmd_type_mask : ℕ
mt_rpc_cmd_type_mask = 0xe0

abbrev pub mt_rpc_subsystem_mask : ℕ
mt_rpc_subsystem_mask = 0x1f

abbrev pub rpc_max_len : ℕ
rpc_max_len = 256

-- Command types.
abbrev pub mt_rpc_cmd_sreq : ℕ
mt_rpc_cmd_sreq = 0x20

abbrev pub mt_rpc_cmd_areq : ℕ
mt_rpc_cmd_areq = 0x40

abbrev pub mt_rpc_cmd_srsp : ℕ
mt_rpc_cmd_srsp = 0x60

-- Subsystems.
abbrev pub mt_rpc_sys_sys : ℕ
mt_rpc_sys_sys = 1

abbrev pub mt_rpc_sys_af : ℕ
mt_rpc_sys_af = 4

abbrev pub mt_rpc_sys_zdo : ℕ
mt_rpc_sys_zdo = 5

abbrev pub mt_rpc_sys_sapi : ℕ
mt_rpc_sys_sapi = 6

-- Status codes.
abbrev pub mt_rpc_success : ℕ
mt_rpc_success = 0

abbrev pub mt_rpc_err_subsystem : ℕ
mt_rpc_err_subsystem = 1

-- One call of `read` on the serial port: it fails, or at most this many bytes are there.
pub data ReadEvent : Type 0 where
  fails : ReadEvent
  avail : ℕ → ReadEvent

-- The serial port as the process sees it: the bytes still to come, how the next calls of `read`
-- will go, and the bytes written so far.
pub record Port : Type 0 where
  pub input : List ℕ
  pub schedule : List ReadEvent
  pub output : List ℕ

-- The static variables of rpc.c: `rpcSem`, `srspSem`, `expectedSrspCmdId` and `rpcLlq`, and the
-- port.
pub record Rpc : Type 0 where
  pub rpc_sem : ℕ
  pub srsp_sem : ℕ
  pub expected : ℕ
  pub queue : Deque
  pub port : Port

-- A call returns, meets undefined behaviour, or waits for ever.
pub data Outcome {ℓ} (A : Type ℓ) : Type ℓ where
  done : A → Outcome A
  fault : Outcome A
  blocked : Outcome A

infixl 5 ◌>>=◌ ◌>>◌
abbrev pub ◌>>=◌ {ℓ κ} : {A : Type ℓ} {B : Type κ} → Outcome A → (A → Outcome B) → Outcome B
done a >>= f = f a
fault >>= f = fault
blocked >>= f = blocked

abbrev pub ◌>>◌ {ℓ} : {B : Type ℓ} → Outcome (Unit {0}) → Outcome B → Outcome B
m >> k = m >>= λ _. k

-- An access to an array: a fault out of range.
abbrev pub checked {ℓ} : {A : Type ℓ} → Option A → Outcome A
checked none = fault
checked (some a) = done a

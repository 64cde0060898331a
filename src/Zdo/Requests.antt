-- ===== src/Zdo/Requests.antt =====
-- What the request functions of framework/mt/Zdo/mtZdo.c share.
use znp_host_framework.Base.{ℕ, ◌+◌}
use znp_host_framework.Rpc.{mt_rpc_cmd_sreq, mt_rpc_sys_zdo}

-- `MT_RPC_CMD_SREQ | MT_RPC_SYS_ZDO`; the two have no bit in common
abbrev pub zdo_sreq : ℕ
zdo_sreq = mt_rpc_cmd_sreq + mt_rpc_sys_zdo

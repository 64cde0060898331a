-- ===== src/Mt/Parser.antt =====
-- `mtProcess` of framework/mt/mtParser.c: a message goes to its subsystem.
use znp_host_framework.Base.{ℕ, List, [], map, if◌then◌else◌, ◌==◌, get_elem?, bit_and}
use znp_host_framework.Rpc.{
  Outcome, done, ◌>>=◌, checked, mt_rpc_subsystem_mask, mt_rpc_sys_zdo, mt_rpc_sys_sys,
  mt_rpc_sys_af, mt_rpc_sys_sapi,
}
use znp_host_framework.Af.Process.{af_process}
use znp_host_framework.Sapi.Process.{sapi_process}
use znp_host_framework.Sys.Process.{sys_process}
use znp_host_framework.Zdo.Process.{zdo_process}
use znp_host_framework.Zdo.Management.Responses.{BindingTableListItemFormat}
use znp_host_framework.Mt.Host.{MtEvent, af_event, sapi_event, sys_event, zdo_event, MtCallbacks}

-- The calls of a subsystem among the calls of all.
abbrev pub tagged :
    {E : Type 0} → (E → MtEvent) → Outcome (List E × List ℕ) → Outcome (List MtEvent × List ℕ)
tagged f o = o >>= λ p. done (map f p.0, p.1)

unfoldable pub mt_process :
    MtCallbacks
    → List BindingTableListItemFormat
    → (rpc_buff : List ℕ) (rpc_len : ℕ) (srsp_rpc_buff : List ℕ) → Outcome (List MtEvent × List ℕ)
mt_process cbs table rpc_buff rpc_len srsp_rpc_buff = do
  cmd0 ← checked (get_elem? rpc_buff 0)
  let subsystem = bit_and cmd0 mt_rpc_subsystem_mask
  if subsystem == mt_rpc_sys_zdo
      then tagged zdo_event (zdo_process cbs.zdo table rpc_buff rpc_len srsp_rpc_buff)
      else if subsystem == mt_rpc_sys_sys
      then tagged sys_event (sys_process cbs.sys rpc_buff rpc_len srsp_rpc_buff)
      else if subsystem == mt_rpc_sys_af
      then tagged af_event (af_process cbs.af rpc_buff rpc_len srsp_rpc_buff)
      else if subsystem == mt_rpc_sys_sapi
      then tagged sapi_event (sapi_process cbs.sapi rpc_buff rpc_len srsp_rpc_buff)
      else done ([], srsp_rpc_buff)

-- ===== src/Client/Overflow.antt =====
-- Messages with more data than the struct of their callback has room for: one for each way in which
-- the subsystems of framework/mt read data.
use znp_host_framework.Base.{
  ℕ, ◌+◌, ◌^◌, ◌<◌, ◌≤◌, ◌≡◌, refl, List, [], ◌∷◌, ◌++◌, length, true, arith, length-append,
}
use znp_host_framework.Rpc.{fault}
use znp_host_framework.Rpc.Frame.{message}
use znp_host_framework.Zdo.Management.Responses.{BindingTableListItemFormat}
use znp_host_framework.Mt.Reader.{take_byte-Reads, take_word-Reads, take_wide-Reads}
use znp_host_framework.Mt.Lists.{made}
use znp_host_framework.Mt.Dispatch.{copy_srsp_lem}
use znp_host_framework.Mt.Faults.{
  Faults, here-Faults, there-Faults, take_data-Faults, take_if-Faults, deliver-Faults,
}
use znp_host_framework.Mt.Host.{MtEvent, af_event, sys_event, zdo_event, MtCallbacks}
use znp_host_framework.Mt.Parser.{mt_process}
use znp_host_framework.Af.Events.{IncomingMsgFormat, incoming_msg}
use znp_host_framework.Af.Process.{process_incoming_msg, af_process, af_process_areq}
use znp_host_framework.Sys.Events.{RamReadSrspFormat, ram_read_srsp}
use znp_host_framework.Sys.Handlers.{process_ram_read_srsp}
use znp_host_framework.Sys.Process.{sys_process, sys_process_srsp, sys_srsp_switch}
use znp_host_framework.Zdo.Address.Responses.{ActiveEpRspFormat}
use znp_host_framework.Zdo.Address.Handlers.{process_active_ep_rsp}
use znp_host_framework.Zdo.Events.{active_ep_rsp}
use znp_host_framework.Zdo.Process.{zdo_process, zdo_areq_switch}
use znp_host_framework.Client.Messages.{frame_of, is_registered}

-- A message to an endpoint, a part of the memory, or a list of endpoints.
pub data Bulk : Type 0 where
  data_in : IncomingMsgFormat → Bulk
  memory_in : RamReadSrspFormat → Bulk
  endpoints_in : ActiveEpRspFormat → Bulk

abbrev pub event_of : Bulk → MtEvent
event_of (data_in e) = af_event (incoming_msg e)
event_of (memory_in e) = sys_event (ram_read_srsp e)
event_of (endpoints_in e) = zdo_event (active_ep_rsp e)

-- The words fit their types, and the length is that of the data, and greater than the array of the
-- struct: 99 bytes, 128 bytes, or 77 endpoints.
abbrev pub IsOversized : Bulk → Type 0
IsOversized (data_in e) =
    (e.group_id < 65536)
    × (e.cluster_id < 65536)
    × (e.src_addr < 65536)
    × (e.time_stamp < 2 ^ 32)
    × (e.len ≡ length e.bytes)
    × (99 < e.len)
IsOversized (memory_in e) = (e.len ≡ length e.value) × (128 < e.len)
IsOversized (endpoints_in e) =
    (e.src_addr < 65536)
    × (e.nwk_addr < 65536)
    × (e.active_ep_count ≡ length e.active_ep_list)
    × (77 < e.active_ep_count)

process_incoming_msg-Faults :
    (e : IncomingMsgFormat) (n : ℕ)
    → 17 < n
    → IsOversized (data_in e)
    → Faults (process_incoming_msg n) (frame_of (af_event (incoming_msg e))).payload
unfolding process_incoming_msg
process_incoming_msg-Faults e n more (group, cluster, src, time, size, over) =
    there-Faults _ (take_word-Reads e.group_id group) (
      there-Faults _ (take_word-Reads e.cluster_id cluster) (
        there-Faults _ (take_word-Reads e.src_addr src) (
          there-Faults _ (take_byte-Reads e.src_endpoint) (
            there-Faults _ (take_byte-Reads e.dst_endpoint) (
              there-Faults _ (take_byte-Reads e.was_vroadcast) (
                there-Faults _ (take_byte-Reads e.link_quality) (
                  there-Faults _ (take_byte-Reads e.security_use) (
                    there-Faults _ (take_wide-Reads 4 e.time_stamp time) (
                      there-Faults _ (take_byte-Reads e.trans_seq_num) (
                        there-Faults _ (take_byte-Reads e.len) (
                          here-Faults _ _ e.bytes
                            (take_data-Faults n 17 e.len e.bytes 99 more size over))))))))))))

process_ram_read_srsp-Faults :
    (e : RamReadSrspFormat) (n : ℕ)
    → 2 < n
    → IsOversized (memory_in e)
    → Faults (process_ram_read_srsp n) (frame_of (sys_event (ram_read_srsp e))).payload
unfolding process_ram_read_srsp
process_ram_read_srsp-Faults e n more (size, over) = there-Faults _ (take_byte-Reads e.status) (
    there-Faults _ (take_byte-Reads e.len)
      (here-Faults _ _ e.value (take_if-Faults n 2 e.len e.value 128 more size over)))

process_active_ep_rsp-Faults :
    (e : ActiveEpRspFormat) (n : ℕ)
    → 6 < n
    → IsOversized (endpoints_in e)
    → Faults (process_active_ep_rsp n) (frame_of (zdo_event (active_ep_rsp e))).payload
unfolding process_active_ep_rsp
process_active_ep_rsp-Faults e n more (src, nwk, size, over) =
    there-Faults _ (take_word-Reads e.src_addr src) (
      there-Faults _ (take_byte-Reads e.status) (
        there-Faults _ (take_word-Reads e.nwk_addr nwk) (
          there-Faults _ (take_byte-Reads e.active_ep_count) (
            here-Faults _ _ e.active_ep_list
              (take_if-Faults n 6 e.active_ep_count e.active_ep_list 77 more size over)))))

size_of :
    (e : MtEvent) (fcs : ℕ) → length (message (frame_of e) fcs) ≡ 3 + length (frame_of e).payload
size_of e fcs = omega (arith, length-append (frame_of e).payload (fcs ∷ []))

-- A message to an endpoint with more than 99 bytes, a part of the memory of more than 128 bytes, or
-- more than 77 endpoints, with a callback registered for it, makes `mtProcess` write outside the array
-- of the struct for the callback, though the frame is complete and its length right: no handler
-- compares the length with the array. The words are to fit their types and the payload to have at most
-- 252 bytes; `srspRpcBuff` has 256 bytes.
pub mt_process-overflow :
    (cbs : MtCallbacks) (table : List BindingTableListItemFormat) (o : Bulk) (fcs : ℕ)
    (back srsp : List ℕ)
    → IsOversized o
    → is_registered cbs (event_of o) ≡ true
    → length (frame_of (event_of o)).payload ≤ 252
    → length srsp ≡ 256
    → mt_process cbs table
        (message (frame_of (event_of o)) fcs ++ back)
        (length (message (frame_of (event_of o)) fcs))
        srsp
      ≡ fault
unfolding mt_process af_process af_process_areq sys_process sys_process_srsp sys_srsp_switch
    zdo_process zdo_areq_switch
mt_process-overflow cbs table (data_in e) fcs back srsp over on short size =
    let ev = af_event (incoming_msg e) in
    let n = length (message (frame_of ev) fcs) in
    rw
      (deliver-Faults cbs.af.pfn_incoming_msg (process_incoming_msg n) 0x44 0x81
        (frame_of ev).payload fcs back on
        (process_incoming_msg-Faults e n (omega (arith, size_of ev fcs)) over) short)
      refl
mt_process-overflow cbs table (memory_in e) fcs back srsp over on short size =
    let ev = sys_event (ram_read_srsp e) in
    let msg = message (frame_of ev) fcs in
    rw
      (
        copy_srsp_lem srsp msg back (length msg) refl (omega (arith, size_of ev fcs, short, size)),
        deliver-Faults cbs.sys.pfn_sys_ram_read_srsp
            (made ram_read_srsp (process_ram_read_srsp (length msg))) 0x61 0x05
            (frame_of ev).payload fcs back on
            (here-Faults _ _ _
              (process_ram_read_srsp-Faults e (length msg) (omega (arith, size_of ev fcs)) over))
            short,
      )
      refl
mt_process-overflow cbs table (endpoints_in e) fcs back srsp over on short size =
    let ev = zdo_event (active_ep_rsp e) in
    let n = length (message (frame_of ev) fcs) in
    rw
      (deliver-Faults cbs.zdo.pfn_zdo_active_ep_rsp (made active_ep_rsp (process_active_ep_rsp n))
        0x45 0x85 (frame_of ev).payload fcs back on
        (here-Faults _ _ _ (process_active_ep_rsp-Faults e n (omega (arith, size_of ev fcs)) over))
        short)
      refl

-- ===== src/Zdo/Management/Reading.antt =====
-- The payload of each message of framework/mt/Zdo/mtZdo.h to the host about the management of a network,
-- and that its handler reads it.
use znp_host_framework.Base.{ℕ, ◌^◌, ◌<◌, ◌≤◌, ◌≡◌, List, [], ◌∷◌, ◌++◌, length}
use znp_host_framework.Base.Bytes.{lo_byte, hi_byte}
use znp_host_framework.Mt.Reader.{
  Reads, wide_bytes, chain, give-Reads, take_byte-Reads, take_word-Reads, take_wide-Reads,
}
use znp_host_framework.Mt.Lists.{list_bytes, Each, made-Reads, take_list-Reads, take_if-Reads}
use znp_host_framework.Zdo.Management.Table.{take_table-Reads}
use znp_host_framework.Zdo.Management.Responses.{BindingTableListItemFormat}
use znp_host_framework.Zdo.Management.Responses.{
  MgmtNwkDiscRspFormat, MgmtLqiRspFormat, MgmtRtgRspFormat, MgmtBindRspFormat, MgmtLeaveRspFormat,
  MgmtDirectJoinRspFormat, MgmtPermitJoinRspFormat, NetworkListItemFormat,
  NeighborLqiListItemFormat, RoutingTableListItemFormat,
}
use znp_host_framework.Zdo.Management.Handlers.{
  process_mgmt_nwk_disc_rsp, process_mgmt_lqi_rsp, process_mgmt_rtg_rsp, process_mgmt_bind_rsp,
  process_mgmt_leave_rsp, process_mgmt_direct_join_rsp, process_mgmt_permit_join_rsp,
  take_network_list_item, take_neighbor_lqi_list_item, take_routing_table_list_item,
}

abbrev pub network_list_item_bytes : NetworkListItemFormat → List ℕ
network_list_item_bytes e =
    (wide_bytes 8 e.pan_id
      ++ (e.logical_channel ∷ e.stack_prof_zig_ver ∷ e.beac_ord_sup_fram_ord ∷ e.permit_join ∷ []))

abbrev pub IsNetworkListItem : NetworkListItemFormat → Type 0
IsNetworkListItem e = e.pan_id < 2 ^ 64

take_network_list_item-Reads :
    (e : NetworkListItemFormat)
    → IsNetworkListItem e
    → Reads take_network_list_item (network_list_item_bytes e) e
unfolding take_network_list_item
take_network_list_item-Reads e h_pan_id = chain _ (take_wide-Reads 8 e.pan_id h_pan_id) (
    chain _ (take_byte-Reads e.logical_channel) (
      chain _ (take_byte-Reads e.stack_prof_zig_ver) (
        chain _ (take_byte-Reads e.beac_ord_sup_fram_ord)
          (chain _ (take_byte-Reads e.permit_join) (give-Reads _)))))

abbrev pub neighbor_lqi_list_item_bytes : NeighborLqiListItemFormat → List ℕ
neighbor_lqi_list_item_bytes e =
    (wide_bytes 8 e.extended_pan_id
      ++ ((wide_bytes 8 e.extended_address
          ++ (lo_byte e.network_address
              ∷ hi_byte e.network_address
              ∷ e.dev_typ_rx_on_when_idle_relat
              ∷ e.permit_joining
              ∷ e.depth
              ∷ e.lqi
              ∷ []))))

abbrev pub IsNeighborLqiListItem : NeighborLqiListItemFormat → Type 0
IsNeighborLqiListItem e =
    (e.extended_pan_id < 2 ^ 64) × (e.extended_address < 2 ^ 64) × (e.network_address < 65536)

take_neighbor_lqi_list_item-Reads :
    (e : NeighborLqiListItemFormat)
    → IsNeighborLqiListItem e
    → Reads take_neighbor_lqi_list_item (neighbor_lqi_list_item_bytes e) e
unfolding take_neighbor_lqi_list_item
take_neighbor_lqi_list_item-Reads e (h_extended_pan_id, h_extended_address, h_network_address) =
    chain _ (take_wide-Reads 8 e.extended_pan_id h_extended_pan_id) (
      chain _ (take_wide-Reads 8 e.extended_address h_extended_address) (
        chain _ (take_word-Reads e.network_address h_network_address) (
          chain _ (take_byte-Reads e.dev_typ_rx_on_when_idle_relat) (
            chain _ (take_byte-Reads e.permit_joining) (
              chain _ (take_byte-Reads e.depth)
                (chain _ (take_byte-Reads e.lqi) (give-Reads _)))))))

abbrev pub routing_table_list_item_bytes : RoutingTableListItemFormat → List ℕ
routing_table_list_item_bytes e =
    lo_byte e.dst_addr
    ∷ hi_byte e.dst_addr
    ∷ e.status
    ∷ lo_byte e.next_hop
    ∷ hi_byte e.next_hop
    ∷ []

abbrev pub IsRoutingTableListItem : RoutingTableListItemFormat → Type 0
IsRoutingTableListItem e = (e.dst_addr < 65536) × (e.next_hop < 65536)

take_routing_table_list_item-Reads :
    (e : RoutingTableListItemFormat)
    → IsRoutingTableListItem e
    → Reads take_routing_table_list_item (routing_table_list_item_bytes e) e
unfolding take_routing_table_list_item
take_routing_table_list_item-Reads e (h_dst_addr, h_next_hop) =
    chain _ (take_word-Reads e.dst_addr h_dst_addr) (
      chain _ (take_byte-Reads e.status)
        (chain _ (take_word-Reads e.next_hop h_next_hop) (give-Reads _)))

abbrev pub mgmt_nwk_disc_rsp_bytes : MgmtNwkDiscRspFormat → List ℕ
mgmt_nwk_disc_rsp_bytes e =
    lo_byte e.src_addr
    ∷ hi_byte e.src_addr
    ∷ e.status
    ∷ e.network_count
    ∷ e.start_index
    ∷ e.network_list_count
    ∷ list_bytes network_list_item_bytes e.network_list

abbrev pub IsMgmtNwkDiscRsp : MgmtNwkDiscRspFormat → Type 0
IsMgmtNwkDiscRsp e =
    (e.src_addr < 65536)
    × (e.network_list_count ≡ length e.network_list)
    × (e.network_list_count ≤ 72)
    × Each IsNetworkListItem e.network_list

pub process_mgmt_nwk_disc_rsp-Reads :
    (e : MgmtNwkDiscRspFormat) (n : ℕ)
    → 6 < n
    → IsMgmtNwkDiscRsp e
    → Reads (process_mgmt_nwk_disc_rsp n) (mgmt_nwk_disc_rsp_bytes e) e
unfolding process_mgmt_nwk_disc_rsp
process_mgmt_nwk_disc_rsp-Reads e n more
      (h_src_addr, size_network_list, room_network_list, all_network_list) =
    chain _ (take_word-Reads e.src_addr h_src_addr) (
      chain _ (take_byte-Reads e.status) (
        chain _ (take_byte-Reads e.network_count) (
          chain _ (take_byte-Reads e.start_index) (
            chain _ (take_byte-Reads e.network_list_count) (
              made-Reads _ _ _ e.network_list (
                take_if-Reads n 6 _ _ e.network_list more (
                  take_list-Reads take_network_list_item network_list_item_bytes IsNetworkListItem
                    take_network_list_item-Reads e.network_list_count e.network_list 72
                    size_network_list room_network_list all_network_list)))))))

abbrev pub mgmt_lqi_rsp_bytes : MgmtLqiRspFormat → List ℕ
mgmt_lqi_rsp_bytes e =
    lo_byte e.src_addr
    ∷ hi_byte e.src_addr
    ∷ e.status
    ∷ e.neighbor_table_entries
    ∷ e.start_index
    ∷ e.neighbor_lqi_list_count
    ∷ list_bytes neighbor_lqi_list_item_bytes e.neighbor_lqi_list

abbrev pub IsMgmtLqiRsp : MgmtLqiRspFormat → Type 0
IsMgmtLqiRsp e =
    (e.src_addr < 65536)
    × (e.neighbor_lqi_list_count ≡ length e.neighbor_lqi_list)
    × (e.neighbor_lqi_list_count ≤ 66)
    × Each IsNeighborLqiListItem e.neighbor_lqi_list

pub process_mgmt_lqi_rsp-Reads :
    (e : MgmtLqiRspFormat) (n : ℕ)
    → 6 < n
    → IsMgmtLqiRsp e
    → Reads (process_mgmt_lqi_rsp n) (mgmt_lqi_rsp_bytes e) e
unfolding process_mgmt_lqi_rsp
process_mgmt_lqi_rsp-Reads e n more
      (h_src_addr, size_neighbor_lqi_list, room_neighbor_lqi_list, all_neighbor_lqi_list) =
    chain _ (take_word-Reads e.src_addr h_src_addr) (
      chain _ (take_byte-Reads e.status) (
        chain _ (take_byte-Reads e.neighbor_table_entries) (
          chain _ (take_byte-Reads e.start_index) (
            chain _ (take_byte-Reads e.neighbor_lqi_list_count) (
              made-Reads _ _ _ e.neighbor_lqi_list (
                take_if-Reads n 6 _ _ e.neighbor_lqi_list more (
                  take_list-Reads take_neighbor_lqi_list_item neighbor_lqi_list_item_bytes
                    IsNeighborLqiListItem take_neighbor_lqi_list_item-Reads
                    e.neighbor_lqi_list_count e.neighbor_lqi_list 66 size_neighbor_lqi_list
                    room_neighbor_lqi_list all_neighbor_lqi_list)))))))

abbrev pub mgmt_rtg_rsp_bytes : MgmtRtgRspFormat → List ℕ
mgmt_rtg_rsp_bytes e =
    lo_byte e.src_addr
    ∷ hi_byte e.src_addr
    ∷ e.status
    ∷ e.routing_table_entries
    ∷ e.start_index
    ∷ e.routing_table_list_count
    ∷ list_bytes routing_table_list_item_bytes e.routing_table_list

abbrev pub IsMgmtRtgRsp : MgmtRtgRspFormat → Type 0
IsMgmtRtgRsp e =
    (e.src_addr < 65536)
    × (e.routing_table_list_count ≡ length e.routing_table_list)
    × (e.routing_table_list_count ≤ 75)
    × Each IsRoutingTableListItem e.routing_table_list

pub process_mgmt_rtg_rsp-Reads :
    (e : MgmtRtgRspFormat) (n : ℕ)
    → 6 < n
    → IsMgmtRtgRsp e
    → Reads (process_mgmt_rtg_rsp n) (mgmt_rtg_rsp_bytes e) e
unfolding process_mgmt_rtg_rsp
process_mgmt_rtg_rsp-Reads e n more
      (h_src_addr, size_routing_table_list, room_routing_table_list, all_routing_table_list) =
    chain _ (take_word-Reads e.src_addr h_src_addr) (
      chain _ (take_byte-Reads e.status) (
        chain _ (take_byte-Reads e.routing_table_entries) (
          chain _ (take_byte-Reads e.start_index) (
            chain _ (take_byte-Reads e.routing_table_list_count) (
              made-Reads _ _ _ e.routing_table_list (
                take_if-Reads n 6 _ _ e.routing_table_list more (
                  take_list-Reads take_routing_table_list_item routing_table_list_item_bytes
                    IsRoutingTableListItem take_routing_table_list_item-Reads
                    e.routing_table_list_count e.routing_table_list 75 size_routing_table_list
                    room_routing_table_list all_routing_table_list)))))))

abbrev pub mgmt_leave_rsp_bytes : MgmtLeaveRspFormat → List ℕ
mgmt_leave_rsp_bytes e = lo_byte e.src_addr ∷ hi_byte e.src_addr ∷ e.status ∷ []

abbrev pub IsMgmtLeaveRsp : MgmtLeaveRspFormat → Type 0
IsMgmtLeaveRsp e = e.src_addr < 65536

pub process_mgmt_leave_rsp-Reads :
    (e : MgmtLeaveRspFormat)
    → IsMgmtLeaveRsp e
    → Reads process_mgmt_leave_rsp (mgmt_leave_rsp_bytes e) e
unfolding process_mgmt_leave_rsp
process_mgmt_leave_rsp-Reads e h_src_addr =
    chain _ (take_word-Reads e.src_addr h_src_addr)
      (chain _ (take_byte-Reads e.status) (give-Reads _))

abbrev pub mgmt_direct_join_rsp_bytes : MgmtDirectJoinRspFormat → List ℕ
mgmt_direct_join_rsp_bytes e = lo_byte e.src_addr ∷ hi_byte e.src_addr ∷ e.status ∷ []

abbrev pub IsMgmtDirectJoinRsp : MgmtDirectJoinRspFormat → Type 0
IsMgmtDirectJoinRsp e = e.src_addr < 65536

pub process_mgmt_direct_join_rsp-Reads :
    (e : MgmtDirectJoinRspFormat)
    → IsMgmtDirectJoinRsp e
    → Reads process_mgmt_direct_join_rsp (mgmt_direct_join_rsp_bytes e) e
unfolding process_mgmt_direct_join_rsp
process_mgmt_direct_join_rsp-Reads e h_src_addr =
    chain _ (take_word-Reads e.src_addr h_src_addr)
      (chain _ (take_byte-Reads e.status) (give-Reads _))

abbrev pub mgmt_permit_join_rsp_bytes : MgmtPermitJoinRspFormat → List ℕ
mgmt_permit_join_rsp_bytes e = lo_byte e.src_addr ∷ hi_byte e.src_addr ∷ e.status ∷ []

abbrev pub IsMgmtPermitJoinRsp : MgmtPermitJoinRspFormat → Type 0
IsMgmtPermitJoinRsp e = e.src_addr < 65536

pub process_mgmt_permit_join_rsp-Reads :
    (e : MgmtPermitJoinRspFormat)
    → IsMgmtPermitJoinRsp e
    → Reads process_mgmt_permit_join_rsp (mgmt_permit_join_rsp_bytes e) e
unfolding process_mgmt_permit_join_rsp
process_mgmt_permit_join_rsp-Reads e h_src_addr =
    chain _ (take_word-Reads e.src_addr h_src_addr)
      (chain _ (take_byte-Reads e.status) (give-Reads _))

-- A binding table without entries.
abbrev pub mgmt_bind_rsp_bytes : MgmtBindRspFormat → List ℕ
mgmt_bind_rsp_bytes e =
    lo_byte e.src_addr
    ∷ hi_byte e.src_addr
    ∷ e.status
    ∷ e.binding_table_entries
    ∷ e.start_index
    ∷ e.binding_table_list_count
    ∷ []

abbrev pub IsMgmtBindRsp : List BindingTableListItemFormat → MgmtBindRspFormat → Type 0
IsMgmtBindRsp table e =
    (e.src_addr < 65536) × (e.binding_table_list_count ≡ 0) × (table ≡ e.binding_table_list)

pub process_mgmt_bind_rsp-Reads :
    (table : List BindingTableListItemFormat) (e : MgmtBindRspFormat) (n : ℕ)
    → IsMgmtBindRsp table e
    → Reads (process_mgmt_bind_rsp table n) (mgmt_bind_rsp_bytes e) e
unfolding process_mgmt_bind_rsp
process_mgmt_bind_rsp-Reads table e n (h_src_addr, none_left, same) =
    chain _ (take_word-Reads e.src_addr h_src_addr) (
      chain _ (take_byte-Reads e.status) (
        chain _ (take_byte-Reads e.binding_table_entries) (
          chain _ (take_byte-Reads e.start_index) (
            chain _ (take_byte-Reads e.binding_table_list_count) (
              made-Reads _ _ _ e.binding_table_list (
                take_table-Reads n e.binding_table_list_count table e.binding_table_list none_left
                  same))))))

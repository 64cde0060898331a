-- ===== src/Zdo/Management/Handlers.antt =====
-- The handlers of framework/mt/Zdo/mtZdo.c for messages about the management of a network:
-- what each makes of a message from `msgIdx = 2` on.
use znp_host_framework.Base.{ℕ, List}
use znp_host_framework.Mt.Reader.{Reader, give, read_then, take_byte, take_word, take_wide}
use znp_host_framework.Mt.Lists.{take_list, take_if}
use znp_host_framework.Zdo.Management.Table.{take_table}
use znp_host_framework.Zdo.Management.Responses.{BindingTableListItemFormat}
use znp_host_framework.Zdo.Management.Responses.{
  MgmtNwkDiscRspFormat, MgmtLqiRspFormat, MgmtRtgRspFormat, MgmtBindRspFormat, MgmtLeaveRspFormat,
  MgmtDirectJoinRspFormat, MgmtPermitJoinRspFormat, NetworkListItemFormat,
  NeighborLqiListItemFormat, RoutingTableListItemFormat,
}

unfoldable pub take_network_list_item : Reader NetworkListItemFormat
take_network_list_item = read_then (take_wide 8 0 0) λ pan_id.
    read_then take_byte λ logical_channel. read_then take_byte λ stack_prof_zig_ver.
      read_then take_byte λ beac_ord_sup_fram_ord. read_then take_byte λ permit_join. give (record {
        pan_id = pan_id;
        logical_channel = logical_channel;
        stack_prof_zig_ver = stack_prof_zig_ver;
        beac_ord_sup_fram_ord = beac_ord_sup_fram_ord;
        permit_join = permit_join;
      })

unfoldable pub take_neighbor_lqi_list_item : Reader NeighborLqiListItemFormat
take_neighbor_lqi_list_item = read_then (take_wide 8 0 0) λ extended_pan_id.
    read_then (take_wide 8 0 0) λ extended_address. read_then take_word λ network_address.
      read_then take_byte λ dev_typ_rx_on_when_idle_relat. read_then take_byte λ permit_joining.
        read_then take_byte λ depth. read_then take_byte λ lqi. give (record {
          extended_pan_id = extended_pan_id;
          extended_address = extended_address;
          network_address = network_address;
          dev_typ_rx_on_when_idle_relat = dev_typ_rx_on_when_idle_relat;
          permit_joining = permit_joining;
          depth = depth;
          lqi = lqi;
        })

unfoldable pub take_routing_table_list_item : Reader RoutingTableListItemFormat
take_routing_table_list_item = read_then take_word λ dst_addr. read_then take_byte λ status.
    read_then take_word
      λ next_hop. give (record { dst_addr = dst_addr; status = status; next_hop = next_hop })

unfoldable pub process_mgmt_nwk_disc_rsp : ℕ → Reader MgmtNwkDiscRspFormat
process_mgmt_nwk_disc_rsp rpc_len = read_then take_word λ src_addr. read_then take_byte λ status.
    read_then take_byte λ network_count. read_then take_byte λ start_index.
      read_then take_byte λ network_list_count.
        read_then (take_if rpc_len 6 (take_list take_network_list_item network_list_count 72))
          λ network_list. give (record {
            src_addr = src_addr;
            status = status;
            network_count = network_count;
            start_index = start_index;
            network_list_count = network_list_count;
            network_list = network_list;
          })

unfoldable pub process_mgmt_lqi_rsp : ℕ → Reader MgmtLqiRspFormat
process_mgmt_lqi_rsp rpc_len = read_then take_word λ src_addr. read_then take_byte λ status.
    read_then take_byte λ neighbor_table_entries. read_then take_byte λ start_index.
      read_then take_byte λ neighbor_lqi_list_count.
        read_then
          (take_if rpc_len 6 (take_list take_neighbor_lqi_list_item neighbor_lqi_list_count 66))
          λ neighbor_lqi_list. give (record {
            src_addr = src_addr;
            status = status;
            neighbor_table_entries = neighbor_table_entries;
            start_index = start_index;
            neighbor_lqi_list_count = neighbor_lqi_list_count;
            neighbor_lqi_list = neighbor_lqi_list;
          })

unfoldable pub process_mgmt_rtg_rsp : ℕ → Reader MgmtRtgRspFormat
process_mgmt_rtg_rsp rpc_len = read_then take_word λ src_addr. read_then take_byte λ status.
    read_then take_byte λ routing_table_entries. read_then take_byte λ start_index.
      read_then take_byte λ routing_table_list_count.
        read_then
          (take_if rpc_len 6 (take_list take_routing_table_list_item routing_table_list_count 75))
          λ routing_table_list. give (record {
            src_addr = src_addr;
            status = status;
            routing_table_entries = routing_table_entries;
            start_index = start_index;
            routing_table_list_count = routing_table_list_count;
            routing_table_list = routing_table_list;
          })

-- The array is what it was before if the message is too short for entries.
unfoldable pub process_mgmt_bind_rsp :
    List BindingTableListItemFormat → ℕ → Reader MgmtBindRspFormat
process_mgmt_bind_rsp table rpc_len = read_then take_word λ src_addr. read_then take_byte λ status.
    read_then take_byte λ binding_table_entries. read_then take_byte λ start_index.
      read_then take_byte λ binding_table_list_count.
        read_then (take_table rpc_len binding_table_list_count table) λ binding_table_list.
          give (record {
            src_addr = src_addr;
            status = status;
            binding_table_entries = binding_table_entries;
            start_index = start_index;
            binding_table_list_count = binding_table_list_count;
            binding_table_list = binding_table_list;
          })

unfoldable pub process_mgmt_leave_rsp : Reader MgmtLeaveRspFormat
process_mgmt_leave_rsp =
    read_then take_word λ src_addr.
      read_then take_byte λ status. give (record { src_addr = src_addr; status = status })

unfoldable pub process_mgmt_direct_join_rsp : Reader MgmtDirectJoinRspFormat
process_mgmt_direct_join_rsp =
    read_then take_word λ src_addr.
      read_then take_byte λ status. give (record { src_addr = src_addr; status = status })

unfoldable pub process_mgmt_permit_join_rsp : Reader MgmtPermitJoinRspFormat
process_mgmt_permit_join_rsp =
    read_then take_word λ src_addr.
      read_then take_byte λ status. give (record { src_addr = src_addr; status = status })

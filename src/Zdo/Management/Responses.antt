-- ===== src/Zdo/Management/Responses.antt =====
-- The messages of framework/mt/Zdo/mtZdo.h to the host about the management of a network.
use znp_host_framework.Base.{ℕ, List}

pub record NetworkListItemFormat : Type 0 where
  pub pan_id : ℕ
  pub logical_channel : ℕ
  pub stack_prof_zig_ver : ℕ
  pub beac_ord_sup_fram_ord : ℕ
  pub permit_join : ℕ

pub record NeighborLqiListItemFormat : Type 0 where
  pub extended_pan_id : ℕ
  pub extended_address : ℕ
  pub network_address : ℕ
  pub dev_typ_rx_on_when_idle_relat : ℕ
  pub permit_joining : ℕ
  pub depth : ℕ
  pub lqi : ℕ

pub record RoutingTableListItemFormat : Type 0 where
  pub dst_addr : ℕ
  pub status : ℕ
  pub next_hop : ℕ

pub record BindingTableListItemFormat : Type 0 where
  pub src_ieee_addr : ℕ
  pub src_endpoint : ℕ
  pub cluster_id : ℕ
  pub dst_addr_mode : ℕ
  pub dst_ieee_addr : ℕ
  pub dst_endpoint : ℕ

pub record MgmtNwkDiscRspFormat : Type 0 where
  pub src_addr : ℕ
  pub status : ℕ
  pub network_count : ℕ
  pub start_index : ℕ
  pub network_list_count : ℕ
  pub network_list : List NetworkListItemFormat

pub record MgmtLqiRspFormat : Type 0 where
  pub src_addr : ℕ
  pub status : ℕ
  pub neighbor_table_entries : ℕ
  pub start_index : ℕ
  pub neighbor_lqi_list_count : ℕ
  pub neighbor_lqi_list : List NeighborLqiListItemFormat

pub record MgmtRtgRspFormat : Type 0 where
  pub src_addr : ℕ
  pub status : ℕ
  pub routing_table_entries : ℕ
  pub start_index : ℕ
  pub routing_table_list_count : ℕ
  pub routing_table_list : List RoutingTableListItemFormat

pub record MgmtBindRspFormat : Type 0 where
  pub src_addr : ℕ
  pub status : ℕ
  pub binding_table_entries : ℕ
  pub start_index : ℕ
  pub binding_table_list_count : ℕ
  pub binding_table_list : List BindingTableListItemFormat

pub record MgmtLeaveRspFormat : Type 0 where
  pub src_addr : ℕ
  pub status : ℕ

pub record MgmtDirectJoinRspFormat : Type 0 where
  pub src_addr : ℕ
  pub status : ℕ

pub record MgmtPermitJoinRspFormat : Type 0 where
  pub src_addr : ℕ
  pub status : ℕ

-- ===== src/Af/Formats.antt =====
-- The structs of framework/mt/Af/mtAf.h that the request functions take. An array is a list.
use znp_host_framework.Base.{ℕ, List}

pub record RegisterFormat : Type 0 where
  pub end_point : ℕ
  pub app_prof_id : ℕ
  pub app_device_id : ℕ
  pub app_dev_ver : ℕ
  pub latency_req : ℕ
  pub app_num_in_clusters : ℕ
  pub app_in_cluster_list : List ℕ
  pub app_num_out_clusters : ℕ
  pub app_out_cluster_list : List ℕ

pub record DataRequestFormat : Type 0 where
  pub dst_addr : ℕ
  pub dst_endpoint : ℕ
  pub src_endpoint : ℕ
  pub cluster_id : ℕ
  pub trans_id : ℕ
  pub options : ℕ
  pub radius : ℕ
  pub len : ℕ
  pub bytes : List ℕ

pub record DataRequestExtFormat : Type 0 where
  pub dst_addr_mode : ℕ
  pub dst_addr : List ℕ
  pub dst_endpoint : ℕ
  pub dst_pan_id : ℕ
  pub src_endpoint : ℕ
  pub cluster_id : ℕ
  pub trans_id : ℕ
  pub options : ℕ
  pub radius : ℕ
  pub len : ℕ
  pub bytes : List ℕ

pub record DataRequestSrcRtgFormat : Type 0 where
  pub dst_addr : ℕ
  pub dst_endpoint : ℕ
  pub src_endpoint : ℕ
  pub cluster_id : ℕ
  pub trans_id : ℕ
  pub options : ℕ
  pub radius : ℕ
  pub relay_count : ℕ
  pub relay_list : List ℕ
  pub len : ℕ
  pub bytes : List ℕ

pub record InterPanCtlFormat : Type 0 where
  pub command : ℕ
  pub bytes : List ℕ

pub record DataStoreFormat : Type 0 where
  pub index : ℕ
  pub len : ℕ
  pub bytes : List ℕ

pub record DataRetrieveFormat : Type 0 where
  pub time_stamp : List ℕ
  pub index : ℕ
  pub len : ℕ

pub record ApsfConfigSetFormat : Type 0 where
  pub endpoint : ℕ
  pub frame_delay : ℕ
  pub window_size : ℕ

-- ===== src/Zdo/Tests.antt =====
-- The ZDO interface at work.
use znp_host_framework.Base.{ℕ, ◌≡◌, refl, some, [], ◌∷◌, ◌++◌, replicate, length-replicate, arith}
use znp_host_framework.Rpc.{done, fault}
use znp_host_framework.Mt.Sent.{sent_request}
use znp_host_framework.Zdo.Sent.{frame, zdo_request-sent_request}
use znp_host_framework.Mt.Sample.{memory_of-IsAllocator, quiet, idle, everything}
use znp_host_framework.Mt.Call.{zdo_finish}
use znp_host_framework.Zdo.Binding.Formats.{BindReqFormat, UnbindReqFormat}
use znp_host_framework.Zdo.Binding.Requests.{zdo_unbind_req}
use znp_host_framework.Zdo.Binding.Bind.{zdo_unbind_req-overflow}
use znp_host_framework.Zdo.Encoding.{bind_req, zdo_request}
use znp_host_framework.Zdo.Management.Handlers.{process_mgmt_bind_rsp}
use znp_host_framework.Zdo.Management.Scatter.{shared, process_mgmt_bind_rsp-scatter}
use znp_host_framework.Zdo.Management.Responses.{
  BindingTableListItemFormat, RoutingTableListItemFormat, MgmtRtgRspFormat,
}
use znp_host_framework.Zdo.Events.{mgmt_rtg_rsp, msg_cb_incoming}
use znp_host_framework.Zdo.Indication.Responses.{MsgCbIncomingFormat}
use znp_host_framework.Zdo.Messages.{message_of}
use znp_host_framework.Zdo.NotUsed.{zdo_process-with_low_byte}
use znp_host_framework.Zdo.Process.{zdo_process}
use znp_host_framework.Zdo.Decoding.{zdo_process-event}

abbrev light : BindReqFormat
light = record {
  dst_addr = 0x1234;
  src_address = 1 ∷ 2 ∷ 3 ∷ 4 ∷ 5 ∷ 6 ∷ 7 ∷ 8 ∷ [];
  src_endpoint = 9;
  cluster_id = 6;
  dst_addr_mode = 3;
  dst_address = 8 ∷ 7 ∷ 6 ∷ 5 ∷ 4 ∷ 3 ∷ 2 ∷ 1 ∷ [];
  dst_endpoint = 10;
}

zdo_request-sent_request_example :
    zdo_request quiet (bind_req light) idle
    ≡ sent_request quiet (zdo_finish quiet) (frame (bind_req light)) idle (some (replicate 23 0xcd))
zdo_request-sent_request_example =
    zdo_request-sent_request quiet (bind_req light) idle memory_of-IsAllocator (refl, refl)
      (omega arith) (length-replicate {A = ℕ} 256 0xaa) (omega arith)

abbrev no_light : UnbindReqFormat
no_light = record {
  dst_addr = 0x1234;
  src_address = light.src_address;
  src_endpoint = 9;
  cluster_id = 6;
  dst_addr_mode = 3;
  dst_address = light.dst_address;
  dst_endpoint = 10;
}

zdo_unbind_req-overflow_example : zdo_unbind_req quiet no_light idle ≡ fault
zdo_unbind_req-overflow_example =
    zdo_unbind_req-overflow quiet no_light idle (replicate 16 0xcd) refl refl refl refl refl

abbrev route : RoutingTableListItemFormat
route = record { dst_addr = 0x1234; status = 0; next_hop = 0x5678 }

abbrev routes : MgmtRtgRspFormat
routes = record {
  src_addr = 0;
  status = 0;
  routing_table_entries = 1;
  start_index = 0;
  routing_table_list_count = 1;
  routing_table_list = route ∷ [];
}

zdo_process-event_example :
    zdo_process everything.zdo []
      (0x45 ∷ 0xb2 ∷ 0 ∷ 0 ∷ 0 ∷ 1 ∷ 0 ∷ 1 ∷ 0x34 ∷ 0x12 ∷ 0 ∷ 0x78 ∷ 0x56 ∷ 0x5a ∷ 9 ∷ [])
      14
      (replicate 256 0)
    ≡ done (mgmt_rtg_rsp routes ∷ [], replicate 256 0)
zdo_process-event_example =
    zdo_process-event everything.zdo [] (mgmt_rtg_rsp routes) 0x5a (9 ∷ []) (replicate 256 0)
      (omega arith, refl, omega arith, ((omega arith, omega arith), tt)) (omega arith)
      (length-replicate {A = ℕ} 256 0)

abbrev blank : BindingTableListItemFormat
blank = record {
  src_ieee_addr = 0;
  src_endpoint = 0;
  cluster_id = 0;
  dst_addr_mode = 0;
  dst_ieee_addr = 0;
  dst_endpoint = 0;
}

-- An entry from 0x0807060504030201, endpoint 9, to 0x1817161514131211, endpoint 10.
process_mgmt_bind_rsp-scatter_example :
    process_mgmt_bind_rsp
      (replicate 9 blank)
      30
      (0x45 ∷ 0xb3 ∷ 0x34 ∷ 0x12 ∷ 0 ∷ 1 ∷ 0 ∷ 1 ∷ 1 ∷ 2 ∷ 3 ∷ 4 ∷ 5 ∷ 6 ∷ 7 ∷ 8 ∷ 9 ∷ 6 ∷ 3 ∷ 17
        ∷ 18 ∷ 19 ∷ 20 ∷ 21 ∷ 22 ∷ 23 ∷ 24 ∷ 10 ∷ 0x5a ∷ [])
      2
    ≡ done (
      record {
        src_addr = 0x1234;
        status = 0;
        binding_table_entries = 1;
        start_index = 0;
        binding_table_list_count = 1;
        binding_table_list =
            record blank { src_ieee_addr = 1; dst_ieee_addr = 17 }
            ∷ shared blank 2 18 8
            ∷ shared blank 3 19 16
            ∷ shared blank 4 20 24
            ∷ shared blank 5 21 32
            ∷ shared blank 6 22 40
            ∷ shared blank 7 23 48
            ∷ shared blank 8 24 56
            ∷ record blank {
              src_endpoint = 9;
              cluster_id = 6;
              dst_addr_mode = 3;
              dst_endpoint = 10;
            }
            ∷ [];
      },
      28,
    )
process_mgmt_bind_rsp-scatter_example =
    process_mgmt_bind_rsp-scatter blank blank blank blank blank blank blank blank blank [] 30 0x45
      0xb3 0x1234 0 1 0 1 2 3 4 5 6 7 8 9 6 3 17 18 19 20 21 22 23 24 10 (0x5a ∷ []) (omega arith)
      (omega arith) (omega arith)

-- A message from 0x1234 with `NotUsed` 1.
abbrev incoming : MsgCbIncomingFormat
incoming = record {
  src_addr = 0x1234;
  was_broadcast = 0;
  cluster_id = 0x0006;
  security_use = 0;
  seq_num = 5;
  mac_dst_addr = 0;
  status = 0;
  ext_addr = 0x0102;
  nwk_addr = 0x5678;
  not_used = 1;
}

zdo_process-with_low_byte_example :
    zdo_process everything.zdo [] (message_of (msg_cb_incoming incoming) 0x5a ++ 7 ∷ []) 24 []
    ≡ done (msg_cb_incoming (record incoming { not_used = 0x78 }) ∷ [], [])
zdo_process-with_low_byte_example =
    zdo_process-with_low_byte everything.zdo [] incoming 0x5a (7 ∷ []) []
      (omega arith, omega arith, omega arith, omega arith, omega arith, refl) (omega arith)

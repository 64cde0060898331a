-- ===== src/Af/Tests.antt =====
-- The application framework interface at work.
use znp_host_framework.Base.{
  ℕ, ◌≡◌, refl, some, [], ◌∷◌, ◌++◌, replicate, length-replicate, true, false, arith, inl, inr,
}
use znp_host_framework.Rpc.{done}
use znp_host_framework.Mt.Sent.{sent_request}
use znp_host_framework.Af.Sent.{frame, af_request-sent_request}
use znp_host_framework.Mt.Sample.{memory_of-IsAllocator, quiet, idle}
use znp_host_framework.Mt.Call.{mt_finish}
use znp_host_framework.Af.Formats.{RegisterFormat}
use znp_host_framework.Af.Encoding.{register, af_request, encode}
use znp_host_framework.Af.Events.{IncomingMsgExtFormat, incoming_msg_ext, AfCallbacks}
use znp_host_framework.Af.Process.{af_process}
use znp_host_framework.Af.Decoding.{payload_of, message_of, af_process-event}

abbrev endpoint_8 : RegisterFormat
endpoint_8 = record {
  end_point = 8;
  app_prof_id = 0x0104;
  app_device_id = 0x0100;
  app_dev_ver = 1;
  latency_req = 0;
  app_num_in_clusters = 2;
  app_in_cluster_list = 0x0006 ∷ 0x0008 ∷ 0 ∷ [];
  app_num_out_clusters = 1;
  app_out_cluster_list = 0x0402 ∷ [];
}

register_payload :
    encode (register endpoint_8) ≡ 8 ∷ 4 ∷ 1 ∷ 0 ∷ 1 ∷ 1 ∷ 0 ∷ 2 ∷ 6 ∷ 0 ∷ 8 ∷ 0 ∷ 1 ∷ 2 ∷ 4 ∷ []
register_payload = refl

af_request-sent_request_example :
    af_request quiet (register endpoint_8) idle
    ≡ sent_request quiet
        (mt_finish quiet)
        (frame (register endpoint_8))
        idle
        (some (replicate 15 0xcd))
af_request-sent_request_example =
    af_request-sent_request quiet (register endpoint_8) idle memory_of-IsAllocator
      (omega arith, omega arith, omega arith) (omega arith) (length-replicate {A = ℕ} 256 0xaa)
      (omega arith)

-- A message from the short address 0x1234 with two bytes of data.
abbrev incoming : IncomingMsgExtFormat
incoming = record {
  group_id = 0;
  cluster_id = 0x0006;
  src_addr_mode = 2;
  src_addr = 0x1234;
  src_endpoint = 1;
  src_pan_id = 0xabcd;
  dst_endpoint = 8;
  was_vroadcast = 0;
  link_quality = 200;
  security_use = 0;
  time_stamp = 0x00010203;
  trans_seq_num = 7;
  len = 2;
  bytes = 0x11 ∷ 0x22 ∷ [];
}

incoming_payload :
    payload_of (incoming_msg_ext incoming)
    ≡ 0 ∷ 0 ∷ 6 ∷ 0 ∷ 2 ∷ 0x34 ∷ 0x12 ∷ 0 ∷ 0 ∷ 0 ∷ 0 ∷ 0 ∷ 0 ∷ 1 ∷ 0xcd ∷ 0xab ∷ 8 ∷ 0 ∷ 200 ∷ 0
      ∷ 3 ∷ 2 ∷ 1 ∷ 0 ∷ 7 ∷ 2 ∷ 0x11 ∷ 0x22 ∷ []
incoming_payload = refl

abbrev only_ext : AfCallbacks
only_ext = record {
  pfn_data_confirm = false;
  pfn_incoming_msg = false;
  pfn_incoming_msg_ext = true;
  pfn_data_retrieve_srsp = false;
  pfn_reflect_error = false;
}

af_process-event_example :
    af_process only_ext
      (message_of (incoming_msg_ext incoming) 0x5a ++ replicate 4 9)
      31
      (replicate 256 0)
    ≡ done (incoming_msg_ext incoming ∷ [], replicate 256 0)
af_process-event_example =
    af_process-event only_ext (incoming_msg_ext incoming) 0x5a (replicate 4 9) (replicate 256 0)
      (
        omega arith,
        omega arith,
        omega arith,
        omega arith,
        refl,
        omega arith,
        inr (inl (refl, omega arith)),
      )
      (length-replicate {A = ℕ} 256 0)

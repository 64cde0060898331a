-- ===== src/Sapi/Tests.antt =====
-- The simple application interface at work.
use znp_host_framework.Base.{
  ℕ, ◌≡◌, refl, some, [], ◌∷◌, replicate, length-replicate, true, false, arith,
}
use znp_host_framework.Mt.Host.{Host}
use znp_host_framework.Rpc.{done, ◌>>=◌}
use znp_host_framework.Mt.Sent.{sent_request}
use znp_host_framework.Sapi.Sent.{frame, sapi_request-sent_request}
use znp_host_framework.Mt.Sample.{memory_of-IsAllocator, quiet, idle, idle_rpc}
use znp_host_framework.Mt.Call.{send_frame, mt_finish}
use znp_host_framework.Sapi.Formats.{SendDataReqFormat, WriteConfigurationFormat}
use znp_host_framework.Sapi.Requests.{sapi_sreq, zb_write_configuration, zb_system_reset}
use znp_host_framework.Sapi.Encoding.{send_data, sapi_request, zb_write_configuration-transmit}
use znp_host_framework.Sapi.Reset.{zb_system_reset-sends}
use znp_host_framework.Sapi.Events.{ReceiveDataIndFormat, receive_data_ind, SapiCallbacks}
use znp_host_framework.Sapi.Process.{sapi_process}
use znp_host_framework.Sapi.Decoding.{sapi_process-event}

abbrev hello : SendDataReqFormat
hello = record {
  destination = 0x1234;
  command_id = 2;
  handle = 3;
  ack = 1;
  radius = 4;
  len = 2;
  bytes = 0x68 ∷ 0x69 ∷ 0 ∷ [];
}

sapi_request-sent_request_example :
    sapi_request quiet (send_data hello) idle
    ≡ sent_request quiet (mt_finish quiet) (frame (send_data hello)) idle (some (replicate 10 0xcd))
sapi_request-sent_request_example =
    sapi_request-sent_request quiet (send_data hello) idle memory_of-IsAllocator
      (omega arith, omega arith) (omega arith) (length-replicate {A = ℕ} 256 0xaa) (omega arith)

-- The option to start from the default state.
abbrev startup_option : WriteConfigurationFormat
startup_option = record { config_id = 3; len = 1; value = 2 ∷ 0 ∷ [] }

-- The last byte that is sent is what was in the memory.
zb_write_configuration-transmit_example :
    zb_write_configuration quiet startup_option idle
    ≡ (send_frame quiet sapi_sreq 0x05 (3 ∷ 1 ∷ 2 ∷ 0xcd ∷ []) 4 idle >>= λ x. mt_finish quiet x)
zb_write_configuration-transmit_example =
    zb_write_configuration-transmit quiet startup_option idle (0xcd ∷ 0xcd ∷ 0xcd ∷ 0xcd ∷ []) refl
      refl (omega arith) (omega arith)

abbrev received : ReceiveDataIndFormat
received = record { source = 0x1234; command = 2; len = 2; bytes = 0x68 ∷ 0x69 ∷ [] }

abbrev only_data : SapiCallbacks
only_data = record {
  pfn_read_configuration_srsp = false;
  pfn_get_device_info_srsp = false;
  pfn_find_device_cnf = false;
  pfn_send_data_cnf = false;
  pfn_receive_data_ind = true;
  pfn_allow_bind_cnf = false;
  pfn_bind_cnf = false;
  pfn_start_cnf = false;
}

sapi_process-event_example :
    sapi_process only_data
      (0x46 ∷ 0x87 ∷ 0x34 ∷ 0x12 ∷ 2 ∷ 0 ∷ 2 ∷ 0 ∷ 0x68 ∷ 0x69 ∷ 0x5a ∷ 7 ∷ 7 ∷ [])
      11
      (replicate 256 0)
    ≡ done (receive_data_ind received ∷ [], replicate 256 0)
sapi_process-event_example =
    sapi_process-event only_data (receive_data_ind received) 0x5a (7 ∷ 7 ∷ []) (replicate 256 0)
      (omega arith, omega arith, refl, omega arith) (length-replicate {A = ℕ} 256 0)

-- The state with the reset command written.
abbrev idle_reset : Host
idle_reset = record idle {
  rpc = record idle_rpc {
    port = record { input = []; schedule = []; output = 0xfe ∷ 0 ∷ 0x46 ∷ 0x09 ∷ 0x4f ∷ [] };
  };
}

zb_system_reset-sends_example : zb_system_reset quiet idle ≡ done (0, idle_reset)
zb_system_reset-sends_example =
    zb_system_reset-sends quiet idle (length-replicate {A = ℕ} 256 0xaa)
      (λ e. absurd (omega (arith, e)))

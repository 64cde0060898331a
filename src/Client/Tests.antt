-- ===== src/Client/Tests.antt =====
-- Requests and their responses, from the function that is called to the callback.
use znp_host_framework.Base.{
  ℕ, ◌≡◌, refl, [], ◌∷◌, ◌++◌, true, replicate, length, ◌≤◌, length-replicate, arith,
}
use znp_host_framework.Rpc.{Port, avail, done, fault, mt_rpc_err_subsystem}
use znp_host_framework.Rpc.Frame.{Frame, fcs_of, message, wire}
use znp_host_framework.Rpc.Reading.{part, whole}
use znp_host_framework.Mt.Sample.{memory_of-IsAllocator, quiet, idle, idle_rpc, everything}
use znp_host_framework.Mt.Host.{MtEvent, Host, sys_event, zdo_event}
use znp_host_framework.Mt.Parser.{mt_process}
use znp_host_framework.Mt.Client.{rpc_wait_mq_client_msg}
use znp_host_framework.Sys.Events.{ping_srsp}
use znp_host_framework.Sys.Encoding.{ping}
use znp_host_framework.Zdo.Events.{state_change_ind, active_ep_rsp}
use znp_host_framework.Zdo.Address.Responses.{ActiveEpRspFormat}
use znp_host_framework.Client.Overflow.{endpoints_in, mt_process-overflow}
use znp_host_framework.Zdo.Encoding.{ZdoRequest, startup_from_app, zdo_request}
use znp_host_framework.Client.Messages.{frame_of}
use znp_host_framework.Client.Process.{mt_process-event, rpc_wait_mq_client_msg-event}
use znp_host_framework.Client.Exchange.{listening, deaf, exchanged, answered, IsReady}
use znp_host_framework.Client.Calls.{sys_call, call, request_frame, call-answered}
use znp_host_framework.Client.Session.{Session}
use znp_host_framework.Client.Log.{Log}
use znp_host_framework.Client.Status.{
  zdo_frame, status_response, kept_response, zdo_request-status, zdo_request-timeout,
}

-- The device has started as a coordinator.
abbrev started : MtEvent
started = zdo_event (state_change_ind 9)

mt_process-event_example :
    mt_process everything [] (0x45 ∷ 0xc0 ∷ 9 ∷ 0x5a ∷ 7 ∷ []) 4 (replicate 256 0)
    ≡ done (started ∷ [], replicate 256 0)
mt_process-event_example =
    mt_process-event everything [] started 0x5a (7 ∷ []) (replicate 256 0) tt (omega arith)
      (length-replicate {A = ℕ} 256 0)

abbrev pong : MtEvent
pong = sys_event (ping_srsp (record { capabilities = 0x0659 }))

-- A host with a message in its queue.
abbrev waiting_host : Host
waiting_host = record idle { rpc = record idle_rpc { queue = (0x45 ∷ 0xc0 ∷ 9 ∷ 0x5a ∷ []) ∷ [] } }

rpc_wait_mq_client_msg-event_example :
    rpc_wait_mq_client_msg quiet waiting_host ≡ done (true, record idle { calls = started ∷ [] })
rpc_wait_mq_client_msg-event_example =
    rpc_wait_mq_client_msg-event quiet waiting_host waiting_host.rpc started 0x5a [] refl refl
      (length-replicate {A = ℕ} 257 0xbb) tt (omega arith) (length-replicate {A = ℕ} 256 0)

abbrev empty_port : Port
empty_port = record { input = []; schedule = []; output = [] }

-- A host to whose port a frame comes.
abbrev host_with : Frame → Host
host_with g = record idle {
  rpc = record idle_rpc {
    port = record {
      input = wire g (fcs_of g) ++ [];
      schedule = avail 1 ∷ avail 1 ∷ avail 9 ∷ [];
      output = [];
    };
  };
}

host_with-IsReady : (g : Frame) → length g.payload ≤ 6 → IsReady quiet (host_with g) g empty_port
host_with-IsReady g short = record {
  junk_size = length-replicate {A = ℕ} 256 0xaa;
  frame_size = length-replicate {A = ℕ} 257 0xbb;
  srsp_size = length-replicate {A = ℕ} 256 0;
  one = refl;
  zero_sem = refl;
  arrives = record {
    a = 1;
    b = 1;
    s = avail 9 ∷ [];
    pos_a = omega arith;
    pos_b = omega arith;
    input_is = refl;
    schedule_is = refl;
    delivers = part 9 (omega arith) (omega arith) (whole (omega (arith, short)));
    output_is = refl;
  };
}

call-answered_example :
    call (listening quiet) (sys_call ping) (host_with (frame_of pong))
    ≡ done (
      0,
      answered quiet (request_frame (sys_call ping)) pong empty_port (host_with (frame_of pong)),
    )
call-answered_example =
    call-answered quiet (sys_call ping) (host_with (frame_of pong)) pong empty_port []
      memory_of-IsAllocator tt refl (record { byte = omega arith; short = omega arith })
      (record { byte = omega arith; short = omega arith })
      (record { request = refl; response = refl; subsystem = refl }) (omega arith)
      (host_with-IsReady (frame_of pong) (omega arith))

-- Start the device, with a delay of 100.
abbrev startup : ZdoRequest
startup = startup_from_app (record { start_delay = 100 })

-- The response has the status 1.
abbrev new_network : Frame
new_network = status_response startup 1

zdo_request-status_example :
    zdo_request (listening quiet) startup (host_with new_network)
    ≡ done (
      1,
      record idle {
        rpc = exchanged (zdo_frame startup) empty_port (host_with new_network).rpc;
        srsp_rpc_buff = kept_response new_network (replicate 256 0);
      },
    )
zdo_request-status_example =
    zdo_request-status quiet startup (host_with new_network) 1 empty_port (replicate 2 0xcd)
      memory_of-IsAllocator tt refl (omega arith) (λ e. absurd (omega (arith, e)))
      (host_with-IsReady new_network (omega arith))

zdo_request-timeout_example :
    zdo_request (deaf quiet) startup idle
    ≡ done (
      mt_rpc_err_subsystem,
      record idle {
        rpc = record idle_rpc {
          port = record idle_rpc.port {
            output = wire (zdo_frame startup) (fcs_of (zdo_frame startup));
          };
        };
      },
    )
zdo_request-timeout_example =
    zdo_request-timeout quiet startup idle (replicate 2 0xcd) memory_of-IsAllocator tt refl
      (omega arith) (length-replicate {A = ℕ} 256 0xaa) refl refl

abbrev before_ping : Host
before_ping = host_with (frame_of pong)

abbrev after_ping : Host
after_ping = answered quiet (request_frame (sys_call ping)) pong empty_port before_ping

abbrev after_startup : Host
after_startup = record after_ping {
  rpc = record after_ping.rpc {
    expected = 0xff;
    port = record after_ping.rpc.port {
      output = after_ping.rpc.port.output ++ wire (zdo_frame startup) (fcs_of (zdo_frame startup));
    };
  };
}

-- What an earlier use of the port has left.
abbrev used_host : Host
used_host = record before_ping {
  rpc = record before_ping.rpc { rpc_sem = 0; srsp_sem = 2; queue = (0x45 ∷ 0xc0 ∷ []) ∷ [] };
}

-- A response with 78 endpoints.
abbrev many : ActiveEpRspFormat
many = record {
  src_addr = 0x1234;
  status = 0;
  nwk_addr = 0x1234;
  active_ep_count = 78;
  active_ep_list = replicate 78 8;
}

mt_process-overflow_example :
    mt_process everything []
      (message (frame_of (zdo_event (active_ep_rsp many))) 0x5a ++ [])
      87
      (replicate 256 0)
    ≡ fault
mt_process-overflow_example =
    mt_process-overflow everything [] (endpoints_in many) 0x5a [] (replicate 256 0)
      (omega arith, omega arith, refl, omega arith) refl (omega arith)
      (length-replicate {A = ℕ} 256 0)

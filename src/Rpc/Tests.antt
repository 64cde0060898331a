-- ===== src/Rpc/Tests.antt =====
-- The RPC layer at work on `SYS_PING` and its response.
use znp_host_framework.Base.{
  none, ℕ, ◌≡◌, ◌≢◌, refl, List, [], ◌∷◌, ◌++◌, true, some, arith, take, replicate,
}
use znp_host_framework.Base.Bytes.{overwrite}
use znp_host_framework.Rpc.{
  Port, Rpc, ReadEvent, fails, avail, done, fault, mt_rpc_success, mt_rpc_err_subsystem,
}
use znp_host_framework.Rpc.Fcs.{calc_fcs, fcs_loop, xor_all, calc_fcs-ne}
use znp_host_framework.Rpc.Frame.{Frame, fcs_of, message, wire, receipt}
use znp_host_framework.Rpc.Transport.{
  rpc_transport_read, rpc_transport_write, write_loop, flatten, AreSmall,
  rpc_transport_write-flatten,
}
use znp_host_framework.Rpc.Process.{
  read_one_at, read_one, after_read, read_round, read_loop, print_loop, print_rpc_msg, enqueue,
  dispatch, process_frame, process_len, process_sof, rpc_process,
}
use znp_host_framework.Rpc.Reading.{Delivers, whole, part, again}
use znp_host_framework.Rpc.Receive.{rpc_process-receipt}
use znp_host_framework.Rpc.Send.{rpc_sem_wait, build_frame, send_begin, rpc_send_frame}
use znp_host_framework.Rpc.Request.{sent, send_begin-sent, send_begin-silent}
use znp_host_framework.Rpc.Exchange.{
  IsSendable, Delivery, IsResponse, rpc_thread, send_begin-rpc_process, rpc_send_frame-response,
  rpc_send_frame-timeout, rpc_send_frame-stale,
}
use znp_host_framework.Rpc.Sample.{tty, one_device}
use znp_host_framework.Rpc.Start.{rpc_open, rpc_force_run, rpc_open-again}

abbrev ping : Frame
ping = record { cmd0 = 0x21; cmd1 = 1; payload = [] }

abbrev pong : Frame
pong = record { cmd0 = 0x61; cmd1 = 1; payload = 0x59 ∷ 6 ∷ [] }

-- Two single bytes, three bytes of the frame, a failed read, and the rest.
abbrev pieces : List ReadEvent
pieces = avail 1 ∷ avail 1 ∷ avail 3 ∷ fails ∷ avail 9 ∷ []

abbrev idle : Rpc
idle = record {
  rpc_sem = 1;
  srsp_sem = 0;
  expected = 0xff;
  queue = [];
  port = record { input = wire pong (fcs_of pong) ++ []; schedule = pieces; output = [] };
}

abbrev empty_port : Port
empty_port = record { input = []; schedule = []; output = [] }

abbrev junk : List ℕ
junk = replicate 256 0xaa

-- The response is read while its subsystem is awaited.
receive_pong :
    rpc_process junk (record idle { expected = 1 })
    ≡ done (
      true,
      record idle {
        expected = 1;
        srsp_sem = 1;
        queue = (0x61 ∷ 1 ∷ 0x59 ∷ 6 ∷ 0x3d ∷ []) ∷ [];
        port = empty_port;
      },
    )
unfolding rpc_process process_sof process_len process_frame dispatch enqueue print_rpc_msg
    print_loop read_loop read_round after_read read_one read_one_at rpc_transport_read calc_fcs
    fcs_loop overwrite xor_all
receive_pong = refl

-- A request is written with its header and check sequence.
send_ping :
    send_begin junk 0x21 1 [] 0 idle
    ≡ done (record idle {
      rpc_sem = 0;
      expected = 1;
      port = record idle.port { output = 0xfe ∷ 0 ∷ 0x21 ∷ 1 ∷ 0x20 ∷ [] };
    })
unfolding send_begin build_frame rpc_sem_wait rpc_transport_write write_loop flatten print_rpc_msg
    print_loop calc_fcs fcs_loop overwrite
send_ping = refl

pieces-Delivers : Delivers (avail 3 ∷ fails ∷ avail 9 ∷ []) 5 0 []
pieces-Delivers = part 3 (omega arith) (omega arith) (
    again (omega arith) (omega arith) (omega arith)
      (part 9 (omega arith) (omega arith) (whole refl)))

pong-Delivery : Delivery idle.port (wire pong (fcs_of pong)) 2 empty_port
pong-Delivery = record {
  a = 1;
  b = 1;
  s = avail 3 ∷ fails ∷ avail 9 ∷ [];
  pos_a = omega arith;
  pos_b = omega arith;
  input_is = refl;
  schedule_is = refl;
  delivers = pieces-Delivers;
  output_is = refl;
}

ping-IsSendable : IsSendable ping
ping-IsSendable = record { byte = omega arith; short = omega arith }

pong-IsSendable : IsSendable pong
pong-IsSendable = record { byte = omega arith; short = omega arith }

pong-IsResponse : IsResponse ping pong
pong-IsResponse = record { request = refl; response = refl; subsystem = refl }

calc_fcs-ne_example : calc_fcs ((1 ∷ 2 ∷ 3 ∷ []) ++ []) 3 ≢ calc_fcs ((1 ∷ 6 ∷ 3 ∷ []) ++ 9 ∷ []) 3
calc_fcs-ne_example =
    calc_fcs-ne (1 ∷ []) (3 ∷ []) [] (9 ∷ []) 2 6 (omega arith) (omega arith) (omega arith)
      (omega arith) (omega arith) (omega arith)

rpc_transport_write-flatten_example :
    (chunks : List (List ℕ)) × (rpc_transport_write junk 20 ≡ some chunks)
    × (flatten chunks ≡ take 20 junk)
    × AreSmall chunks
rpc_transport_write-flatten_example =
    rpc_transport_write-flatten junk 20 (omega arith) (omega arith)

-- With a wrong check byte.
rpc_process-receipt_example :
    rpc_process junk (record idle { port = record idle.port { input = wire pong 7 ++ 5 ∷ [] } })
    ≡ receipt pong 7 (record idle { port = record empty_port { input = 5 ∷ [] } })
rpc_process-receipt_example =
    rpc_process-receipt junk pong 7 (5 ∷ []) (avail 3 ∷ fails ∷ avail 9 ∷ []) [] refl (omega arith)
      (omega arith) pieces-Delivers
      (record idle { port = record idle.port { input = wire pong 7 ++ 5 ∷ [] } }) 1 1 (omega arith)
      (omega arith) refl refl

send_begin-sent_example : send_begin junk 0x61 1 (0x59 ∷ 6 ∷ []) 2 idle ≡ done (sent pong idle)
send_begin-sent_example =
    send_begin-sent junk pong idle refl (omega arith) (omega arith) (omega arith)

abbrev long : Frame
long = record { cmd0 = 0x21; cmd1 = 1; payload = replicate 251 3 }

send_begin-silent_example :
    (r' : Rpc) × (send_begin junk 0x21 1 (replicate 251 3) 251 idle ≡ done r')
    × (r'.port ≡ idle.port)
send_begin-silent_example = send_begin-silent junk long idle refl refl (omega arith) (omega arith)

send_begin-rpc_process_example :
    rpc_process junk (record idle { expected = 1 })
    ≡ done (
      true,
      record idle {
        expected = 1;
        srsp_sem = 1;
        queue = message pong (fcs_of pong) ∷ [];
        port = empty_port;
      },
    )
send_begin-rpc_process_example =
    send_begin-rpc_process junk refl pong idle (sent pong idle) (record idle { expected = 1 })
      empty_port pong-IsSendable (omega arith) refl send_begin-sent_example pong-Delivery

-- A response that nobody waits for.
rpc_process-unexpected : rpc_process junk idle ≡ fault
unfolding xor_all
rpc_process-unexpected =
    rpc_process-receipt junk pong (fcs_of pong) [] (avail 3 ∷ fails ∷ avail 9 ∷ []) [] refl
      (omega arith) (omega arith) pieces-Delivers idle 1 1 (omega arith) (omega arith) refl refl

rpc_send_frame-response_example :
    rpc_send_frame junk (rpc_thread junk) done 0x21 1 [] 0 idle
    ≡ done (
      mt_rpc_success,
      record idle {
        queue = message pong (fcs_of pong) ∷ [];
        port = record empty_port { output = wire ping (fcs_of ping) };
      },
    )
rpc_send_frame-response_example =
    rpc_send_frame-response junk refl ping pong empty_port ping-IsSendable pong-IsSendable
      pong-IsResponse idle refl refl pong-Delivery

rpc_send_frame-timeout_example :
    rpc_send_frame junk done done 0x21 1 [] 0 idle
    ≡ done (
      mt_rpc_err_subsystem,
      record idle { port = record idle.port { output = wire ping (fcs_of ping) } },
    )
rpc_send_frame-timeout_example =
    rpc_send_frame-timeout junk refl ping ping-IsSendable refl idle refl refl

rpc_send_frame-stale_example :
    (r1 r2 : Rpc) × (rpc_send_frame junk done (rpc_thread junk) 0x21 1 [] 0 idle
      ≡ done (mt_rpc_err_subsystem, r1))
    × (rpc_send_frame junk done done 0x21 1 [] 0 r1 ≡ done (mt_rpc_success, r2))
    × (r1.queue ≡ message pong (fcs_of pong) ∷ [])
    × (r2.queue ≡ r1.queue)
rpc_send_frame-stale_example =
    rpc_send_frame-stale junk refl ping pong empty_port ping-IsSendable pong-IsSendable
      pong-IsResponse idle ping ping-IsSendable refl refl refl pong-Delivery

rpc_open-again_example :
    rpc_open one_device none
      (rpc_open one_device (some tty) [] idle).last_used
      (record idle { rpc_sem = 0 })
    ≡ rpc_open one_device (some tty) [] (record idle { rpc_sem = 0 })
rpc_open-again_example =
    rpc_open-again one_device one_device tty [] idle (record idle { rpc_sem = 0 }) (omega arith)

rpc_force_run_test :
    rpc_force_run idle
    ≡ done (record idle { port = record idle.port { output = idle.port.output ++ 7 ∷ [] } })
unfolding rpc_force_run rpc_transport_write write_loop flatten
rpc_force_run_test = refl

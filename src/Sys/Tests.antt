-- ===== src/Sys/Tests.antt =====
-- The SYS interface at work.
use znp_host_framework.Base.{ℕ, ◌≡◌, refl, some, [], ◌∷◌, replicate, length-replicate, arith}
use znp_host_framework.Rpc.{done, ◌>>=◌}
use znp_host_framework.Mt.Sample.{memory_of-IsAllocator, quiet, idle, everything}
use znp_host_framework.Mt.Call.{send_frame, transmit, mt_finish}
use znp_host_framework.Sys.Formats.{OsalNvWriteFormat, RamWriteFormat}
use znp_host_framework.Sys.Requests.{sys_sreq, sys_ram_write}
use znp_host_framework.Sys.Payloads.Memory.{sys_ram_write-transmit}
use znp_host_framework.Sys.Encoding.{osal_nv_write, sys_request, sys_request-transmit}
use znp_host_framework.Sys.Events.{GetTimeSrspFormat, get_time_srsp}
use znp_host_framework.Sys.Process.{sys_process}
use znp_host_framework.Sys.Decoding.{kept, sys_process-event}

-- The startup option of the device.
abbrev option : OsalNvWriteFormat
option = record { id = 3; offset = 0; len = 1; value = 2 ∷ 0 ∷ [] }

sys_request-transmit_example :
    sys_request quiet (osal_nv_write option) idle
    ≡ transmit quiet
        (mt_finish quiet)
        0x21
        0x09
        (3 ∷ 0 ∷ 0 ∷ 1 ∷ 2 ∷ [])
        idle
        (some (replicate 5 0xcd))
sys_request-transmit_example =
    sys_request-transmit quiet (osal_nv_write option) idle memory_of-IsAllocator
      (omega arith, omega arith)

abbrev patch : RamWriteFormat
patch = record { address = 0x1234; len = 1; value = 7 ∷ 0 ∷ [] }

-- The last byte that is sent is what was in the memory.
sys_ram_write-transmit_example : sys_ram_write quiet patch idle ≡ (
    send_frame quiet sys_sreq 0x06 (0x34 ∷ 0x12 ∷ 1 ∷ 7 ∷ 0xcd ∷ []) 5 idle >>= λ x.
    mt_finish quiet x)
sys_ram_write-transmit_example =
    sys_ram_write-transmit quiet patch idle (replicate 5 0xcd) refl refl (omega arith) (omega arith)

abbrev noon : GetTimeSrspFormat
noon = record {
  utc_time = 0x01020304;
  hour = 12;
  minute = 0;
  second = 0;
  month = 5;
  day = 17;
  year = 2015;
}

sys_process-event_example :
    sys_process everything.sys
      (0x61 ∷ 0x11 ∷ 4 ∷ 3 ∷ 2 ∷ 1 ∷ 12 ∷ 0 ∷ 0 ∷ 5 ∷ 17 ∷ 0xdf ∷ 7 ∷ 0x5a ∷ 9 ∷ [])
      14
      (replicate 256 0)
    ≡ done (get_time_srsp noon ∷ [], kept (get_time_srsp noon) 0x5a (replicate 256 0))
sys_process-event_example =
    sys_process-event everything.sys (get_time_srsp noon) 0x5a (9 ∷ []) (replicate 256 0)
      (omega arith, omega arith) (omega arith) (length-replicate {A = ℕ} 256 0)

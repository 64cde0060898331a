-- ===== src/Sys/Payloads/Device.antt =====
-- What the request functions of framework/mt/Sys/mtSys.c about the device, its timers and its pins send: the
-- payload by the format, and that the function for it sends exactly this.
use znp_host_framework.Base.{ℕ, ◌≡◌, List, [], ◌∷◌, ◌++◌, length, arith}
use znp_host_framework.Base.Bytes.{lo_byte, hi_byte}
use znp_host_framework.Mt.Host.{Host, Env}
use znp_host_framework.Mt.Call.{IsAllocator, transmit, mt_finish}
use znp_host_framework.Mt.Fills.{puts-Fills, then-Fills, put_copy-Fills, request-Fills}
use znp_host_framework.Sys.Formats.{
  ResetReqFormat, OsalStartTimerFormat, OsalStopTimerFormat, StackTuneFormat, AdcReadFormat,
  GpioFormat, SetTimeFormat, SetTxPowerFormat,
}
use znp_host_framework.Sys.Requests.{
  sys_sreq, sys_areq, sys_reset_req, sys_osal_start_timer, sys_osal_stop_timer, sys_stack_tune,
  sys_adc_read, sys_gpio, sys_set_time, sys_set_tx_power,
}

abbrev pub reset_req_bytes : ResetReqFormat → List ℕ
reset_req_bytes req = req.type ∷ []

abbrev pub IsResetReq : ResetReqFormat → Type 0
IsResetReq req = Unit {0}

pub sys_reset_req-transmit :
    (env : Env) (req : ResetReqFormat) (h : Host)
    → IsAllocator env.malloc
    → IsResetReq req
    → sys_reset_req env req h
      ≡ transmit env
          (mt_finish env)
          sys_areq
          0x00
          (reset_req_bytes req)
          h
          (env.malloc (length (reset_req_bytes req)))
unfolding sys_reset_req
sys_reset_req-transmit env req h allocates ok =
    request-Fills env (mt_finish env) sys_areq 0x00 (1) _ (reset_req_bytes req) _ h allocates
      (puts-Fills _) (omega arith) (omega arith)

abbrev pub osal_start_timer_bytes : OsalStartTimerFormat → List ℕ
osal_start_timer_bytes req = req.id ∷ lo_byte req.timeout ∷ hi_byte req.timeout ∷ []

abbrev pub IsOsalStartTimer : OsalStartTimerFormat → Type 0
IsOsalStartTimer req = Unit {0}

pub sys_osal_start_timer-transmit :
    (env : Env) (req : OsalStartTimerFormat) (h : Host)
    → IsAllocator env.malloc
    → IsOsalStartTimer req
    → sys_osal_start_timer env req h
      ≡ transmit env
          (mt_finish env)
          sys_sreq
          0x0a
          (osal_start_timer_bytes req)
          h
          (env.malloc (length (osal_start_timer_bytes req)))
unfolding sys_osal_start_timer
sys_osal_start_timer-transmit env req h allocates ok =
    request-Fills env (mt_finish env) sys_sreq 0x0a (3) _ (osal_start_timer_bytes req) _ h allocates
      (puts-Fills _) (omega arith) (omega arith)

abbrev pub osal_stop_timer_bytes : OsalStopTimerFormat → List ℕ
osal_stop_timer_bytes req = req.id ∷ []

abbrev pub IsOsalStopTimer : OsalStopTimerFormat → Type 0
IsOsalStopTimer req = Unit {0}

pub sys_osal_stop_timer-transmit :
    (env : Env) (req : OsalStopTimerFormat) (h : Host)
    → IsAllocator env.malloc
    → IsOsalStopTimer req
    → sys_osal_stop_timer env req h
      ≡ transmit env
          (mt_finish env)
          sys_sreq
          0x0b
          (osal_stop_timer_bytes req)
          h
          (env.malloc (length (osal_stop_timer_bytes req)))
unfolding sys_osal_stop_timer
sys_osal_stop_timer-transmit env req h allocates ok =
    request-Fills env (mt_finish env) sys_sreq 0x0b (1) _ (osal_stop_timer_bytes req) _ h allocates
      (puts-Fills _) (omega arith) (omega arith)

abbrev pub stack_tune_bytes : StackTuneFormat → List ℕ
stack_tune_bytes req = req.operation ∷ req.value ∷ []

abbrev pub IsStackTune : StackTuneFormat → Type 0
IsStackTune req = Unit {0}

pub sys_stack_tune-transmit :
    (env : Env) (req : StackTuneFormat) (h : Host)
    → IsAllocator env.malloc
    → IsStackTune req
    → sys_stack_tune env req h
      ≡ transmit env
          (mt_finish env)
          sys_sreq
          0x0f
          (stack_tune_bytes req)
          h
          (env.malloc (length (stack_tune_bytes req)))
unfolding sys_stack_tune
sys_stack_tune-transmit env req h allocates ok =
    request-Fills env (mt_finish env) sys_sreq 0x0f (2) _ (stack_tune_bytes req) _ h allocates
      (puts-Fills _) (omega arith) (omega arith)

abbrev pub adc_read_bytes : AdcReadFormat → List ℕ
adc_read_bytes req = req.channel ∷ req.resolution ∷ []

abbrev pub IsAdcRead : AdcReadFormat → Type 0
IsAdcRead req = Unit {0}

pub sys_adc_read-transmit :
    (env : Env) (req : AdcReadFormat) (h : Host)
    → IsAllocator env.malloc
    → IsAdcRead req
    → sys_adc_read env req h
      ≡ transmit env
          (mt_finish env)
          sys_sreq
          0x0d
          (adc_read_bytes req)
          h
          (env.malloc (length (adc_read_bytes req)))
unfolding sys_adc_read
sys_adc_read-transmit env req h allocates ok =
    request-Fills env (mt_finish env) sys_sreq 0x0d (2) _ (adc_read_bytes req) _ h allocates
      (puts-Fills _) (omega arith) (omega arith)

abbrev pub gpio_bytes : GpioFormat → List ℕ
gpio_bytes req = req.operation ∷ req.value ∷ []

abbrev pub IsGpio : GpioFormat → Type 0
IsGpio req = Unit {0}

pub sys_gpio-transmit :
    (env : Env) (req : GpioFormat) (h : Host)
    → IsAllocator env.malloc
    → IsGpio req
    → sys_gpio env req h
      ≡ transmit env
          (mt_finish env)
          sys_sreq
          0x0e
          (gpio_bytes req)
          h
          (env.malloc (length (gpio_bytes req)))
unfolding sys_gpio
sys_gpio-transmit env req h allocates ok =
    request-Fills env (mt_finish env) sys_sreq 0x0e (2) _ (gpio_bytes req) _ h allocates
      (puts-Fills _) (omega arith) (omega arith)

abbrev pub set_time_bytes : SetTimeFormat → List ℕ
set_time_bytes req =
    (req.utc_time
      ++ (req.hour
          ∷ req.minute
          ∷ req.second
          ∷ req.month
          ∷ req.day
          ∷ lo_byte req.year
          ∷ hi_byte req.year
          ∷ []))

abbrev pub IsSetTime : SetTimeFormat → Type 0
IsSetTime req = length req.utc_time ≡ 4

pub sys_set_time-transmit :
    (env : Env) (req : SetTimeFormat) (h : Host)
    → IsAllocator env.malloc
    → IsSetTime req
    → sys_set_time env req h
      ≡ transmit env
          (mt_finish env)
          sys_sreq
          0x10
          (set_time_bytes req)
          h
          (env.malloc (length (set_time_bytes req)))
unfolding sys_set_time
sys_set_time-transmit env req h allocates h_utc_time =
    request-Fills env (mt_finish env) sys_sreq 0x10 (11) _ (set_time_bytes req) _ h allocates
      (then-Fills _ _ _ _ _ _ (put_copy-Fills 4 req.utc_time h_utc_time (omega arith))
        (puts-Fills _))
      (omega arith) (omega arith)

abbrev pub set_tx_power_bytes : SetTxPowerFormat → List ℕ
set_tx_power_bytes req = req.tx_power ∷ []

abbrev pub IsSetTxPower : SetTxPowerFormat → Type 0
IsSetTxPower req = Unit {0}

pub sys_set_tx_power-transmit :
    (env : Env) (req : SetTxPowerFormat) (h : Host)
    → IsAllocator env.malloc
    → IsSetTxPower req
    → sys_set_tx_power env req h
      ≡ transmit env
          (mt_finish env)
          sys_sreq
          0x14
          (set_tx_power_bytes req)
          h
          (env.malloc (length (set_tx_power_bytes req)))
unfolding sys_set_tx_power
sys_set_tx_power-transmit env req h allocates ok =
    request-Fills env (mt_finish env) sys_sreq 0x14 (1) _ (set_tx_power_bytes req) _ h allocates
      (puts-Fills _) (omega arith) (omega arith)

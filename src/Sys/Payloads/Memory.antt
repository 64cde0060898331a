-- ===== src/Sys/Payloads/Memory.antt =====
-- What the request functions of framework/mt/Sys/mtSys.c about its memory and its non-volatile items send: the
-- payload by the format, and that the function for it sends exactly this.
use znp_host_framework.Base.{ℕ, ◌+◌, ◌≤◌, ◌≡◌, List, [], ◌∷◌, ◌++◌, length, drop, take, arith, some}
use znp_host_framework.Base.Bytes.{lo_byte, hi_byte}
use znp_host_framework.Rpc.{◌>>=◌}
use znp_host_framework.Mt.Host.{Host, Env}
use znp_host_framework.Mt.Call.{IsAllocator, send_frame, transmit, mt_finish}
use znp_host_framework.Mt.Fills.{
  puts-Fills, then-Fills, put_array-Fills, put_copy-Fills, request-Fills, request-spare,
}
use znp_host_framework.Sys.Formats.{
  SetExtAddrFormat, RamReadFormat, OsalNvReadFormat, OsalNvWriteFormat, OsalNvItemInitFormat,
  OsalNvDeleteFormat, OsalNvLengthFormat, RamWriteFormat,
}
use znp_host_framework.Sys.Requests.{
  sys_sreq, sys_set_ext_addr, sys_ram_read, sys_osal_nv_read, sys_osal_nv_write,
  sys_osal_nv_item_init, sys_osal_nv_delete, sys_osal_nv_length, sys_ram_write,
}

abbrev pub set_ext_addr_bytes : SetExtAddrFormat → List ℕ
set_ext_addr_bytes req = req.ext_addr

abbrev pub IsSetExtAddr : SetExtAddrFormat → Type 0
IsSetExtAddr req = length req.ext_addr ≡ 8

pub sys_set_ext_addr-transmit :
    (env : Env) (req : SetExtAddrFormat) (h : Host)
    → IsAllocator env.malloc
    → IsSetExtAddr req
    → sys_set_ext_addr env req h
      ≡ transmit env
          (mt_finish env)
          sys_sreq
          0x03
          (set_ext_addr_bytes req)
          h
          (env.malloc (length (set_ext_addr_bytes req)))
unfolding sys_set_ext_addr
sys_set_ext_addr-transmit env req h allocates h_ext_addr =
    request-Fills env (mt_finish env) sys_sreq 0x03 (8) _ (set_ext_addr_bytes req) _ h allocates
      (put_copy-Fills 8 req.ext_addr h_ext_addr (omega arith)) (omega arith) (omega arith)

abbrev pub ram_read_bytes : RamReadFormat → List ℕ
ram_read_bytes req = lo_byte req.address ∷ hi_byte req.address ∷ req.len ∷ []

abbrev pub IsRamRead : RamReadFormat → Type 0
IsRamRead req = Unit {0}

pub sys_ram_read-transmit :
    (env : Env) (req : RamReadFormat) (h : Host)
    → IsAllocator env.malloc
    → IsRamRead req
    → sys_ram_read env req h
      ≡ transmit env
          (mt_finish env)
          sys_sreq
          0x05
          (ram_read_bytes req)
          h
          (env.malloc (length (ram_read_bytes req)))
unfolding sys_ram_read
sys_ram_read-transmit env req h allocates ok =
    request-Fills env (mt_finish env) sys_sreq 0x05 (3) _ (ram_read_bytes req) _ h allocates
      (puts-Fills _) (omega arith) (omega arith)

abbrev pub osal_nv_read_bytes : OsalNvReadFormat → List ℕ
osal_nv_read_bytes req = lo_byte req.id ∷ hi_byte req.id ∷ req.offset ∷ []

abbrev pub IsOsalNvRead : OsalNvReadFormat → Type 0
IsOsalNvRead req = Unit {0}

pub sys_osal_nv_read-transmit :
    (env : Env) (req : OsalNvReadFormat) (h : Host)
    → IsAllocator env.malloc
    → IsOsalNvRead req
    → sys_osal_nv_read env req h
      ≡ transmit env
          (mt_finish env)
          sys_sreq
          0x08
          (osal_nv_read_bytes req)
          h
          (env.malloc (length (osal_nv_read_bytes req)))
unfolding sys_osal_nv_read
sys_osal_nv_read-transmit env req h allocates ok =
    request-Fills env (mt_finish env) sys_sreq 0x08 (3) _ (osal_nv_read_bytes req) _ h allocates
      (puts-Fills _) (omega arith) (omega arith)

abbrev pub osal_nv_write_bytes : OsalNvWriteFormat → List ℕ
osal_nv_write_bytes req =
    lo_byte req.id ∷ hi_byte req.id ∷ req.offset ∷ req.len ∷ take req.len req.value

abbrev pub IsOsalNvWrite : OsalNvWriteFormat → Type 0
IsOsalNvWrite req = (req.len ≤ length req.value) × (4 + req.len ≤ 256)

pub sys_osal_nv_write-transmit :
    (env : Env) (req : OsalNvWriteFormat) (h : Host)
    → IsAllocator env.malloc
    → IsOsalNvWrite req
    → sys_osal_nv_write env req h
      ≡ transmit env
          (mt_finish env)
          sys_sreq
          0x09
          (osal_nv_write_bytes req)
          h
          (env.malloc (length (osal_nv_write_bytes req)))
unfolding sys_osal_nv_write
sys_osal_nv_write-transmit env req h allocates (h_value, short) =
    request-Fills env (mt_finish env) sys_sreq 0x09 (4 + req.len) _ (osal_nv_write_bytes req) _ h
      allocates (then-Fills _ _ _ _ _ _ (puts-Fills _) (put_array-Fills req.len req.value h_value))
      (omega arith) short

abbrev pub osal_nv_item_init_bytes : OsalNvItemInitFormat → List ℕ
osal_nv_item_init_bytes req =
    lo_byte req.id
    ∷ hi_byte req.id
    ∷ lo_byte req.item_len
    ∷ hi_byte req.item_len
    ∷ req.init_len
    ∷ take req.init_len req.init_data

abbrev pub IsOsalNvItemInit : OsalNvItemInitFormat → Type 0
IsOsalNvItemInit req = (req.init_len ≤ length req.init_data) × (5 + req.init_len ≤ 256)

pub sys_osal_nv_item_init-transmit :
    (env : Env) (req : OsalNvItemInitFormat) (h : Host)
    → IsAllocator env.malloc
    → IsOsalNvItemInit req
    → sys_osal_nv_item_init env req h
      ≡ transmit env
          (mt_finish env)
          sys_sreq
          0x07
          (osal_nv_item_init_bytes req)
          h
          (env.malloc (length (osal_nv_item_init_bytes req)))
unfolding sys_osal_nv_item_init
sys_osal_nv_item_init-transmit env req h allocates (h_init_data, short) =
    request-Fills env (mt_finish env) sys_sreq 0x07 (5 + req.init_len) _
      (osal_nv_item_init_bytes req) _ h allocates
      (then-Fills _ _ _ _ _ _ (puts-Fills _)
        (put_array-Fills req.init_len req.init_data h_init_data))
      (omega arith) short

abbrev pub osal_nv_delete_bytes : OsalNvDeleteFormat → List ℕ
osal_nv_delete_bytes req =
    lo_byte req.id ∷ hi_byte req.id ∷ lo_byte req.item_len ∷ hi_byte req.item_len ∷ []

abbrev pub IsOsalNvDelete : OsalNvDeleteFormat → Type 0
IsOsalNvDelete req = Unit {0}

pub sys_osal_nv_delete-transmit :
    (env : Env) (req : OsalNvDeleteFormat) (h : Host)
    → IsAllocator env.malloc
    → IsOsalNvDelete req
    → sys_osal_nv_delete env req h
      ≡ transmit env
          (mt_finish env)
          sys_sreq
          0x12
          (osal_nv_delete_bytes req)
          h
          (env.malloc (length (osal_nv_delete_bytes req)))
unfolding sys_osal_nv_delete
sys_osal_nv_delete-transmit env req h allocates ok =
    request-Fills env (mt_finish env) sys_sreq 0x12 (4) _ (osal_nv_delete_bytes req) _ h allocates
      (puts-Fills _) (omega arith) (omega arith)

abbrev pub osal_nv_length_bytes : OsalNvLengthFormat → List ℕ
osal_nv_length_bytes req = lo_byte req.id ∷ hi_byte req.id ∷ []

abbrev pub IsOsalNvLength : OsalNvLengthFormat → Type 0
IsOsalNvLength req = Unit {0}

pub sys_osal_nv_length-transmit :
    (env : Env) (req : OsalNvLengthFormat) (h : Host)
    → IsAllocator env.malloc
    → IsOsalNvLength req
    → sys_osal_nv_length env req h
      ≡ transmit env
          (mt_finish env)
          sys_sreq
          0x13
          (osal_nv_length_bytes req)
          h
          (env.malloc (length (osal_nv_length_bytes req)))
unfolding sys_osal_nv_length
sys_osal_nv_length-transmit env req h allocates ok =
    request-Fills env (mt_finish env) sys_sreq 0x13 (2) _ (osal_nv_length_bytes req) _ h allocates
      (puts-Fills _) (omega arith) (omega arith)

-- `sysRamWrite` sends one byte more than it writes: when `malloc` gives it a block of the size asked
-- for, the payload is the format followed by the last byte of the block as it was found. The length is
-- to be within the array, and the block at most 256 bytes.
pub sys_ram_write-transmit :
    (env : Env) (req : RamWriteFormat) (h : Host) (block : List ℕ)
    → env.malloc (4 + req.len) ≡ some block
    → length block ≡ 4 + req.len
    → req.len ≤ length req.value
    → 4 + req.len ≤ 256
    → sys_ram_write env req h ≡ (
        send_frame env sys_sreq 0x06
          ((lo_byte req.address ∷ hi_byte req.address ∷ req.len ∷ take req.len req.value)
            ++ drop (3 + req.len) block)
          (4 + req.len)
          h
        >>= λ x. mt_finish env x)
unfolding sys_ram_write
sys_ram_write-transmit env req h block gives size within short =
    request-spare env (mt_finish env) sys_sreq 0x06 (4 + req.len) _
      (lo_byte req.address ∷ hi_byte req.address ∷ req.len ∷ take req.len req.value) (3 + req.len) h
      block gives size
      (then-Fills _ _ _ _ _ _ (puts-Fills _) (put_array-Fills req.len req.value within))
      (omega arith) short

-- ===== src/Zdo/Binding/Reading.antt =====
-- The payload of each message of framework/mt/Zdo/mtZdo.h to the host about bindings and link keys,
-- and that its handler reads it.
use znp_host_framework.Base.{ℕ, ◌^◌, ◌<◌, ◌≡◌, List, [], ◌∷◌, ◌++◌, length, arith}
use znp_host_framework.Base.Bytes.{lo_byte, hi_byte}
use znp_host_framework.Mt.Reader.{
  Reads, wide_bytes, chain, give-Reads, take_byte-Reads, take_word-Reads, take_wide-Reads,
  take_bytes_of,
}
use znp_host_framework.Mt.Lists.{made-Reads}
use znp_host_framework.Zdo.Binding.Responses.{
  EndDeviceBindRspFormat, BindRspFormat, UnbindRspFormat, GetLinkKeySrspFormat,
}
use znp_host_framework.Zdo.Binding.Handlers.{
  process_end_device_bind_rsp, process_bind_rsp, process_unbind_rsp, process_get_link_key,
}

abbrev pub end_device_bind_rsp_bytes : EndDeviceBindRspFormat → List ℕ
end_device_bind_rsp_bytes e = lo_byte e.src_addr ∷ hi_byte e.src_addr ∷ e.status ∷ []

abbrev pub IsEndDeviceBindRsp : EndDeviceBindRspFormat → Type 0
IsEndDeviceBindRsp e = e.src_addr < 65536

pub process_end_device_bind_rsp-Reads :
    (e : EndDeviceBindRspFormat)
    → IsEndDeviceBindRsp e
    → Reads process_end_device_bind_rsp (end_device_bind_rsp_bytes e) e
unfolding process_end_device_bind_rsp
process_end_device_bind_rsp-Reads e h_src_addr =
    chain _ (take_word-Reads e.src_addr h_src_addr)
      (chain _ (take_byte-Reads e.status) (give-Reads _))

abbrev pub bind_rsp_bytes : BindRspFormat → List ℕ
bind_rsp_bytes e = lo_byte e.src_addr ∷ hi_byte e.src_addr ∷ e.status ∷ []

abbrev pub IsBindRsp : BindRspFormat → Type 0
IsBindRsp e = e.src_addr < 65536

pub process_bind_rsp-Reads :
    (e : BindRspFormat) → IsBindRsp e → Reads process_bind_rsp (bind_rsp_bytes e) e
unfolding process_bind_rsp
process_bind_rsp-Reads e h_src_addr =
    chain _ (take_word-Reads e.src_addr h_src_addr)
      (chain _ (take_byte-Reads e.status) (give-Reads _))

abbrev pub unbind_rsp_bytes : UnbindRspFormat → List ℕ
unbind_rsp_bytes e = lo_byte e.src_addr ∷ hi_byte e.src_addr ∷ e.status ∷ []

abbrev pub IsUnbindRsp : UnbindRspFormat → Type 0
IsUnbindRsp e = e.src_addr < 65536

pub process_unbind_rsp-Reads :
    (e : UnbindRspFormat) → IsUnbindRsp e → Reads process_unbind_rsp (unbind_rsp_bytes e) e
unfolding process_unbind_rsp
process_unbind_rsp-Reads e h_src_addr =
    chain _ (take_word-Reads e.src_addr h_src_addr)
      (chain _ (take_byte-Reads e.status) (give-Reads _))

abbrev pub get_link_key_srsp_bytes : GetLinkKeySrspFormat → List ℕ
get_link_key_srsp_bytes e = e.status ∷ (wide_bytes 8 e.ieee_addr ++ (e.link_key_data))

abbrev pub IsGetLinkKeySrsp : GetLinkKeySrspFormat → Type 0
IsGetLinkKeySrsp e = (e.ieee_addr < 2 ^ 64) × (length e.link_key_data ≡ 16)

pub process_get_link_key-Reads :
    (e : GetLinkKeySrspFormat)
    → IsGetLinkKeySrsp e
    → Reads process_get_link_key (get_link_key_srsp_bytes e) e
unfolding process_get_link_key
process_get_link_key-Reads e (h_ieee_addr, h_link_key_data) = chain _ (take_byte-Reads e.status) (
    chain _ (take_wide-Reads 8 e.ieee_addr h_ieee_addr) (
      made-Reads _ _ _ e.link_key_data
        (take_bytes_of 16 e.link_key_data 16 (omega (arith, h_link_key_data)) (omega arith))))

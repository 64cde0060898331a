-- ===== src/Zdo/Binding/Handlers.antt =====
-- The handlers of framework/mt/Zdo/mtZdo.c for messages about bindings and link keys:
-- what each makes of a message from `msgIdx = 2` on.
use znp_host_framework.Mt.Reader.{
  Reader, give, read_then, take_byte, take_word, take_wide, take_bytes,
}
use znp_host_framework.Zdo.Binding.Responses.{
  EndDeviceBindRspFormat, BindRspFormat, UnbindRspFormat, GetLinkKeySrspFormat,
}

unfoldable pub process_end_device_bind_rsp : Reader EndDeviceBindRspFormat
process_end_device_bind_rsp =
    read_then take_word λ src_addr.
      read_then take_byte λ status. give (record { src_addr = src_addr; status = status })

unfoldable pub process_bind_rsp : Reader BindRspFormat
process_bind_rsp =
    read_then take_word λ src_addr.
      read_then take_byte λ status. give (record { src_addr = src_addr; status = status })

unfoldable pub process_unbind_rsp : Reader UnbindRspFormat
process_unbind_rsp =
    read_then take_word λ src_addr.
      read_then take_byte λ status. give (record { src_addr = src_addr; status = status })

unfoldable pub process_get_link_key : Reader GetLinkKeySrspFormat
process_get_link_key = read_then take_byte λ status. read_then (take_wide 8 0 0) λ ieee_addr.
    read_then (take_bytes 16 16) λ link_key_data.
      give (record { status = status; ieee_addr = ieee_addr; link_key_data = link_key_data })

-- ===== src/Zdo/Address/Handlers.antt =====
-- The handlers of framework/mt/Zdo/mtZdo.c for messages about the addresses and endpoints of devices:
-- what each makes of a message from `msgIdx = 2` on.
use znp_host_framework.Base.{ℕ, if◌then◌else◌, ◌==◌}
use znp_host_framework.Mt.Reader.{
  Reader, give, read_then, take_byte, take_word, take_wide, take_bytes,
}
use znp_host_framework.Mt.Lists.{take_list, take_if}
use znp_host_framework.Zdo.Address.Responses.{
  NwkAddrRspFormat, IeeeAddrRspFormat, ActiveEpRspFormat, ServerDiscRspFormat,
}

unfoldable pub process_nwk_addr_rsp : ℕ → Reader NwkAddrRspFormat
process_nwk_addr_rsp rpc_len = read_then take_byte λ status.
    read_then (take_wide 8 0 0) λ ieee_addr. read_then take_word λ nwk_addr.
      read_then take_byte λ start_index. read_then take_byte λ num_assoc_dev.
        read_then (take_if rpc_len 13 (take_list take_word num_assoc_dev 70)) λ assoc_dev_list.
          give (record {
            status = status;
            ieee_addr = ieee_addr;
            nwk_addr = nwk_addr;
            start_index = start_index;
            num_assoc_dev = num_assoc_dev;
            assoc_dev_list = assoc_dev_list;
          })

unfoldable pub process_ieee_addr_rsp : ℕ → Reader IeeeAddrRspFormat
process_ieee_addr_rsp rpc_len = read_then take_byte λ status.
    read_then (take_wide 8 0 0) λ ieee_addr. read_then take_word λ nwk_addr.
      read_then take_byte λ index. read_then take_byte λ num_assoc_dev.
        read_then (take_if rpc_len 13 (take_list take_word num_assoc_dev 70)) λ assoc_dev_list.
          give (record {
            status = status;
            ieee_addr = ieee_addr;
            nwk_addr = nwk_addr;
            start_index = if num_assoc_dev == 0 then 0 else index;
            num_assoc_dev = num_assoc_dev;
            assoc_dev_list = assoc_dev_list;
          })

unfoldable pub process_active_ep_rsp : ℕ → Reader ActiveEpRspFormat
process_active_ep_rsp rpc_len = read_then take_word λ src_addr. read_then take_byte λ status.
    read_then take_word λ nwk_addr. read_then take_byte λ active_ep_count.
      read_then (take_if rpc_len 6 (take_bytes active_ep_count 77)) λ active_ep_list. give (record {
        src_addr = src_addr;
        status = status;
        nwk_addr = nwk_addr;
        active_ep_count = active_ep_count;
        active_ep_list = active_ep_list;
      })

unfoldable pub process_server_disc_rsp : Reader ServerDiscRspFormat
process_server_disc_rsp = read_then take_word λ src_addr. read_then take_byte λ status.
    read_then take_word λ server_mask.
      give (record { src_addr = src_addr; status = status; server_mask = server_mask })

-- ===== src/Zdo/Network/Handlers.antt =====
-- The handlers of framework/mt/Zdo/mtZdo.c for messages about starting, joining and leaving a network:
-- what each makes of a message from `msgIdx = 2` on.
use znp_host_framework.Base.{ℕ}
use znp_host_framework.Mt.Reader.{Reader, give, read_then, take_byte, take_word, take_wide}
use znp_host_framework.Mt.Lists.{take_list, take_if}
use znp_host_framework.Zdo.Network.Responses.{
  EndDeviceAnnceIndFormat, BeaconNotifyIndFormat, JoinCnfFormat, NwkDiscoveryCnfFormat,
  LeaveIndFormat, BeaconListItemFormat,
}

unfoldable pub take_beacon_list_item : Reader BeaconListItemFormat
take_beacon_list_item = read_then take_word λ src_addr. read_then take_word λ pan_id.
    read_then take_byte λ logical_channel. read_then take_byte λ permit_joining.
      read_then take_byte λ router_cap. read_then take_byte λ dev_cap.
        read_then take_byte λ protocol_ver. read_then take_byte λ stack_prof.
          read_then take_byte λ lqi. read_then take_byte λ depth. read_then take_byte λ update_id.
            read_then (take_wide 8 0 0) λ extended_pan_id. give (record {
              src_addr = src_addr;
              pan_id = pan_id;
              logical_channel = logical_channel;
              permit_joining = permit_joining;
              router_cap = router_cap;
              dev_cap = dev_cap;
              protocol_ver = protocol_ver;
              stack_prof = stack_prof;
              lqi = lqi;
              depth = depth;
              update_id = update_id;
              extended_pan_id = extended_pan_id;
            })

unfoldable pub process_end_device_annce_ind : Reader EndDeviceAnnceIndFormat
process_end_device_annce_ind = read_then take_word λ src_addr. read_then take_word λ nwk_addr.
    read_then (take_wide 8 0 0) λ ieee_addr. read_then take_byte λ capabilities. give (record {
      src_addr = src_addr;
      nwk_addr = nwk_addr;
      ieee_addr = ieee_addr;
      capabilities = capabilities;
    })

unfoldable pub process_beacon_notify_ind : ℕ → Reader BeaconNotifyIndFormat
process_beacon_notify_ind rpc_len = read_then take_byte λ beacon_count.
    read_then (take_if rpc_len 1 (take_list take_beacon_list_item beacon_count 21))
      λ beacon_list. give (record { beacon_count = beacon_count; beacon_list = beacon_list })

unfoldable pub process_join_cnf : Reader JoinCnfFormat
process_join_cnf = read_then take_byte λ status. read_then take_word λ dev_addr.
    read_then take_word λ parent_addr.
      give (record { status = status; dev_addr = dev_addr; parent_addr = parent_addr })

unfoldable pub process_nwk_discovery_cnf : Reader NwkDiscoveryCnfFormat
process_nwk_discovery_cnf = read_then take_byte λ status. give (record { status = status })

unfoldable pub process_leave_ind : Reader LeaveIndFormat
process_leave_ind = read_then take_word λ src_addr. read_then (take_wide 8 0 0) λ ext_addr.
    read_then take_byte λ request. read_then take_byte λ remove. read_then take_byte λ rejoin.
      give (record {
        src_addr = src_addr;
        ext_addr = ext_addr;
        request = request;
        remove = remove;
        rejoin = rejoin;
      })

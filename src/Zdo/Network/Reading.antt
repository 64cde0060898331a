-- ===== src/Zdo/Network/Reading.antt =====
-- The payload of each message of framework/mt/Zdo/mtZdo.h to the host about starting, joining and leaving a network,
-- and that its handler reads it.
use znp_host_framework.Base.{ℕ, ◌^◌, ◌<◌, ◌≤◌, ◌≡◌, List, [], ◌∷◌, ◌++◌, length}
use znp_host_framework.Base.Bytes.{lo_byte, hi_byte}
use znp_host_framework.Mt.Reader.{
  Reads, wide_bytes, chain, give-Reads, take_byte-Reads, take_word-Reads, take_wide-Reads,
}
use znp_host_framework.Mt.Lists.{list_bytes, Each, made-Reads, take_list-Reads, take_if-Reads}
use znp_host_framework.Zdo.Network.Responses.{
  EndDeviceAnnceIndFormat, BeaconNotifyIndFormat, JoinCnfFormat, NwkDiscoveryCnfFormat,
  LeaveIndFormat, BeaconListItemFormat,
}
use znp_host_framework.Zdo.Network.Handlers.{
  process_end_device_annce_ind, process_beacon_notify_ind, process_join_cnf,
  process_nwk_discovery_cnf, process_leave_ind, take_beacon_list_item,
}

abbrev pub beacon_list_item_bytes : BeaconListItemFormat → List ℕ
beacon_list_item_bytes e =
    lo_byte e.src_addr
    ∷ hi_byte e.src_addr
    ∷ lo_byte e.pan_id
    ∷ hi_byte e.pan_id
    ∷ e.logical_channel
    ∷ e.permit_joining
    ∷ e.router_cap
    ∷ e.dev_cap
    ∷ e.protocol_ver
    ∷ e.stack_prof
    ∷ e.lqi
    ∷ e.depth
    ∷ e.update_id
    ∷ wide_bytes 8 e.extended_pan_id

abbrev pub IsBeaconListItem : BeaconListItemFormat → Type 0
IsBeaconListItem e = (e.src_addr < 65536) × (e.pan_id < 65536) × (e.extended_pan_id < 2 ^ 64)

take_beacon_list_item-Reads :
    (e : BeaconListItemFormat)
    → IsBeaconListItem e
    → Reads take_beacon_list_item (beacon_list_item_bytes e) e
unfolding take_beacon_list_item
take_beacon_list_item-Reads e (h_src_addr, h_pan_id, h_extended_pan_id) =
    chain _ (take_word-Reads e.src_addr h_src_addr) (
      chain _ (take_word-Reads e.pan_id h_pan_id) (
        chain _ (take_byte-Reads e.logical_channel) (
          chain _ (take_byte-Reads e.permit_joining) (
            chain _ (take_byte-Reads e.router_cap) (
              chain _ (take_byte-Reads e.dev_cap) (
                chain _ (take_byte-Reads e.protocol_ver) (
                  chain _ (take_byte-Reads e.stack_prof) (
                    chain _ (take_byte-Reads e.lqi) (
                      chain _ (take_byte-Reads e.depth) (
                        chain _ (take_byte-Reads e.update_id) (
                          chain _ (take_wide-Reads 8 e.extended_pan_id h_extended_pan_id)
                            (give-Reads _))))))))))))

abbrev pub end_device_annce_ind_bytes : EndDeviceAnnceIndFormat → List ℕ
end_device_annce_ind_bytes e =
    lo_byte e.src_addr
    ∷ hi_byte e.src_addr
    ∷ lo_byte e.nwk_addr
    ∷ hi_byte e.nwk_addr
    ∷ (wide_bytes 8 e.ieee_addr ++ (e.capabilities ∷ []))

abbrev pub IsEndDeviceAnnceInd : EndDeviceAnnceIndFormat → Type 0
IsEndDeviceAnnceInd e = (e.src_addr < 65536) × (e.nwk_addr < 65536) × (e.ieee_addr < 2 ^ 64)

pub process_end_device_annce_ind-Reads :
    (e : EndDeviceAnnceIndFormat)
    → IsEndDeviceAnnceInd e
    → Reads process_end_device_annce_ind (end_device_annce_ind_bytes e) e
unfolding process_end_device_annce_ind
process_end_device_annce_ind-Reads e (h_src_addr, h_nwk_addr, h_ieee_addr) =
    chain _ (take_word-Reads e.src_addr h_src_addr) (
      chain _ (take_word-Reads e.nwk_addr h_nwk_addr) (
        chain _ (take_wide-Reads 8 e.ieee_addr h_ieee_addr)
          (chain _ (take_byte-Reads e.capabilities) (give-Reads _))))

abbrev pub beacon_notify_ind_bytes : BeaconNotifyIndFormat → List ℕ
beacon_notify_ind_bytes e = e.beacon_count ∷ list_bytes beacon_list_item_bytes e.beacon_list

abbrev pub IsBeaconNotifyInd : BeaconNotifyIndFormat → Type 0
IsBeaconNotifyInd e =
    (e.beacon_count ≡ length e.beacon_list)
    × (e.beacon_count ≤ 21)
    × Each IsBeaconListItem e.beacon_list

pub process_beacon_notify_ind-Reads :
    (e : BeaconNotifyIndFormat) (n : ℕ)
    → 1 < n
    → IsBeaconNotifyInd e
    → Reads (process_beacon_notify_ind n) (beacon_notify_ind_bytes e) e
unfolding process_beacon_notify_ind
process_beacon_notify_ind-Reads e n more (size_beacon_list, room_beacon_list, all_beacon_list) =
    chain _ (take_byte-Reads e.beacon_count) (
      made-Reads _ _ _ e.beacon_list (
        take_if-Reads n 1 _ _ e.beacon_list more (
          take_list-Reads take_beacon_list_item beacon_list_item_bytes IsBeaconListItem
            take_beacon_list_item-Reads e.beacon_count e.beacon_list 21 size_beacon_list
            room_beacon_list all_beacon_list)))

abbrev pub join_cnf_bytes : JoinCnfFormat → List ℕ
join_cnf_bytes e =
    e.status
    ∷ lo_byte e.dev_addr
    ∷ hi_byte e.dev_addr
    ∷ lo_byte e.parent_addr
    ∷ hi_byte e.parent_addr
    ∷ []

abbrev pub IsJoinCnf : JoinCnfFormat → Type 0
IsJoinCnf e = (e.dev_addr < 65536) × (e.parent_addr < 65536)

pub process_join_cnf-Reads :
    (e : JoinCnfFormat) → IsJoinCnf e → Reads process_join_cnf (join_cnf_bytes e) e
unfolding process_join_cnf
process_join_cnf-Reads e (h_dev_addr, h_parent_addr) = chain _ (take_byte-Reads e.status) (
    chain _ (take_word-Reads e.dev_addr h_dev_addr)
      (chain _ (take_word-Reads e.parent_addr h_parent_addr) (give-Reads _)))

abbrev pub nwk_discovery_cnf_bytes : NwkDiscoveryCnfFormat → List ℕ
nwk_discovery_cnf_bytes e = e.status ∷ []

abbrev pub IsNwkDiscoveryCnf : NwkDiscoveryCnfFormat → Type 0
IsNwkDiscoveryCnf e = Unit {0}

pub process_nwk_discovery_cnf-Reads :
    (e : NwkDiscoveryCnfFormat)
    → IsNwkDiscoveryCnf e
    → Reads process_nwk_discovery_cnf (nwk_discovery_cnf_bytes e) e
unfolding process_nwk_discovery_cnf
process_nwk_discovery_cnf-Reads e ok = chain _ (take_byte-Reads e.status) (give-Reads _)

abbrev pub leave_ind_bytes : LeaveIndFormat → List ℕ
leave_ind_bytes e =
    lo_byte e.src_addr
    ∷ hi_byte e.src_addr
    ∷ (wide_bytes 8 e.ext_addr ++ (e.request ∷ e.remove ∷ e.rejoin ∷ []))

abbrev pub IsLeaveInd : LeaveIndFormat → Type 0
IsLeaveInd e = (e.src_addr < 65536) × (e.ext_addr < 2 ^ 64)

pub process_leave_ind-Reads :
    (e : LeaveIndFormat) → IsLeaveInd e → Reads process_leave_ind (leave_ind_bytes e) e
unfolding process_leave_ind
process_leave_ind-Reads e (h_src_addr, h_ext_addr) =
    chain _ (take_word-Reads e.src_addr h_src_addr) (
      chain _ (take_wide-Reads 8 e.ext_addr h_ext_addr) (
        chain _ (take_byte-Reads e.request)
          (chain _ (take_byte-Reads e.remove) (chain _ (take_byte-Reads e.rejoin) (give-Reads _)))))

-- ===== src/Zdo/Address/Reading.antt =====
-- The payload of each message of framework/mt/Zdo/mtZdo.h to the host about the addresses and endpoints of devices,
-- and that its handler reads it.
use znp_host_framework.Base.{
  ℕ, ◌^◌, ◌<◌, ◌≤◌, ◌≡◌, List, [], ◌∷◌, ◌++◌, length, if◌then◌else◌, ◌==◌, arith,
}
use znp_host_framework.Base.Bytes.{lo_byte, hi_byte}
use znp_host_framework.Mt.Reader.{
  Reads, wide_bytes, chain, give-Reads, take_byte-Reads, take_word-Reads, take_wide-Reads,
  take_bytes_of,
}
use znp_host_framework.Mt.Lists.{
  list_bytes, word_pair, Each, IsWord, made-Reads, take_words-Reads, take_if-Reads,
}
use znp_host_framework.Zdo.Address.Responses.{
  NwkAddrRspFormat, IeeeAddrRspFormat, ActiveEpRspFormat, ServerDiscRspFormat,
}
use znp_host_framework.Zdo.Address.Handlers.{
  process_nwk_addr_rsp, process_ieee_addr_rsp, process_active_ep_rsp, process_server_disc_rsp,
}

index-lem : (n s : ℕ) → (n ≡ 0 → s ≡ 0) → (if n == 0 then 0 else s) ≡ s
index-lem n s h = ground (arith, h)

abbrev pub nwk_addr_rsp_bytes : NwkAddrRspFormat → List ℕ
nwk_addr_rsp_bytes e =
    e.status
    ∷ (wide_bytes 8 e.ieee_addr
        ++ (lo_byte e.nwk_addr
            ∷ hi_byte e.nwk_addr
            ∷ e.start_index
            ∷ e.num_assoc_dev
            ∷ list_bytes word_pair e.assoc_dev_list))

abbrev pub IsNwkAddrRsp : NwkAddrRspFormat → Type 0
IsNwkAddrRsp e =
    (e.ieee_addr < 2 ^ 64)
    × (e.nwk_addr < 65536)
    × (e.num_assoc_dev ≡ length e.assoc_dev_list)
    × (e.num_assoc_dev ≤ 70)
    × Each IsWord e.assoc_dev_list

pub process_nwk_addr_rsp-Reads :
    (e : NwkAddrRspFormat) (n : ℕ)
    → 13 < n
    → IsNwkAddrRsp e
    → Reads (process_nwk_addr_rsp n) (nwk_addr_rsp_bytes e) e
unfolding process_nwk_addr_rsp
process_nwk_addr_rsp-Reads e n more
      (h_ieee_addr, h_nwk_addr, size_assoc_dev_list, room_assoc_dev_list, all_assoc_dev_list) =
    chain _ (take_byte-Reads e.status) (
      chain _ (take_wide-Reads 8 e.ieee_addr h_ieee_addr) (
        chain _ (take_word-Reads e.nwk_addr h_nwk_addr) (
          chain _ (take_byte-Reads e.start_index) (
            chain _ (take_byte-Reads e.num_assoc_dev) (
              made-Reads _ _ _ e.assoc_dev_list (
                take_if-Reads n 13 _ _ e.assoc_dev_list more (
                  take_words-Reads e.num_assoc_dev e.assoc_dev_list 70 size_assoc_dev_list
                    room_assoc_dev_list all_assoc_dev_list)))))))

abbrev pub ieee_addr_rsp_bytes : IeeeAddrRspFormat → List ℕ
ieee_addr_rsp_bytes e =
    e.status
    ∷ (wide_bytes 8 e.ieee_addr
        ++ (lo_byte e.nwk_addr
            ∷ hi_byte e.nwk_addr
            ∷ e.start_index
            ∷ e.num_assoc_dev
            ∷ list_bytes word_pair e.assoc_dev_list))

abbrev pub IsIeeeAddrRsp : IeeeAddrRspFormat → Type 0
IsIeeeAddrRsp e =
    (e.ieee_addr < 2 ^ 64)
    × (e.nwk_addr < 65536)
    × (e.num_assoc_dev ≡ 0 → e.start_index ≡ 0)
    × (e.num_assoc_dev ≡ length e.assoc_dev_list)
    × (e.num_assoc_dev ≤ 70)
    × Each IsWord e.assoc_dev_list

pub process_ieee_addr_rsp-Reads :
    (e : IeeeAddrRspFormat) (n : ℕ)
    → 13 < n
    → IsIeeeAddrRsp e
    → Reads (process_ieee_addr_rsp n) (ieee_addr_rsp_bytes e) e
unfolding process_ieee_addr_rsp
process_ieee_addr_rsp-Reads e n more
      (
        h_ieee_addr, h_nwk_addr, h_index, size_assoc_dev_list, room_assoc_dev_list,
        all_assoc_dev_list,
      ) =
    chain _ (take_byte-Reads e.status) (
      chain _ (take_wide-Reads 8 e.ieee_addr h_ieee_addr) (
        chain _ (take_word-Reads e.nwk_addr h_nwk_addr) (
          chain _ (take_byte-Reads e.start_index) (
            chain _ (take_byte-Reads e.num_assoc_dev) (
              rw (index-lem e.num_assoc_dev e.start_index h_index) (
                made-Reads _ _ _ e.assoc_dev_list (
                  take_if-Reads n 13 _ _ e.assoc_dev_list more (
                    take_words-Reads e.num_assoc_dev e.assoc_dev_list 70 size_assoc_dev_list
                      room_assoc_dev_list all_assoc_dev_list))))))))

abbrev pub active_ep_rsp_bytes : ActiveEpRspFormat → List ℕ
active_ep_rsp_bytes e =
    lo_byte e.src_addr
    ∷ hi_byte e.src_addr
    ∷ e.status
    ∷ lo_byte e.nwk_addr
    ∷ hi_byte e.nwk_addr
    ∷ e.active_ep_count
    ∷ e.active_ep_list

abbrev pub IsActiveEpRsp : ActiveEpRspFormat → Type 0
IsActiveEpRsp e =
    (e.src_addr < 65536)
    × (e.nwk_addr < 65536)
    × (e.active_ep_count ≡ length e.active_ep_list)
    × (e.active_ep_count ≤ 77)

pub process_active_ep_rsp-Reads :
    (e : ActiveEpRspFormat) (n : ℕ)
    → 6 < n
    → IsActiveEpRsp e
    → Reads (process_active_ep_rsp n) (active_ep_rsp_bytes e) e
unfolding process_active_ep_rsp
process_active_ep_rsp-Reads e n more
      (h_src_addr, h_nwk_addr, size_active_ep_list, room_active_ep_list) =
    chain _ (take_word-Reads e.src_addr h_src_addr) (
      chain _ (take_byte-Reads e.status) (
        chain _ (take_word-Reads e.nwk_addr h_nwk_addr) (
          chain _ (take_byte-Reads e.active_ep_count) (
            made-Reads _ _ _ e.active_ep_list (
              take_if-Reads n 6 _ _ e.active_ep_list more (
                take_bytes_of e.active_ep_count e.active_ep_list 77 size_active_ep_list
                  room_active_ep_list))))))

abbrev pub server_disc_rsp_bytes : ServerDiscRspFormat → List ℕ
server_disc_rsp_bytes e =
    lo_byte e.src_addr
    ∷ hi_byte e.src_addr
    ∷ e.status
    ∷ lo_byte e.server_mask
    ∷ hi_byte e.server_mask
    ∷ []

abbrev pub IsServerDiscRsp : ServerDiscRspFormat → Type 0
IsServerDiscRsp e = (e.src_addr < 65536) × (e.server_mask < 65536)

pub process_server_disc_rsp-Reads :
    (e : ServerDiscRspFormat)
    → IsServerDiscRsp e
    → Reads process_server_disc_rsp (server_disc_rsp_bytes e) e
unfolding process_server_disc_rsp
process_server_disc_rsp-Reads e (h_src_addr, h_server_mask) =
    chain _ (take_word-Reads e.src_addr h_src_addr) (
      chain _ (take_byte-Reads e.status)
        (chain _ (take_word-Reads e.server_mask h_server_mask) (give-Reads _)))

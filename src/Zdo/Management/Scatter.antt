-- ===== src/Zdo/Management/Scatter.antt =====
-- What `processMgmtBindRsp` of framework/mt/Zdo/mtZdo.c makes of a table with one entry.
use znp_host_framework.Base.{ℕ, ◌*◌, ◌^◌, ◌<◌, ◌≡◌, refl, List, ◌∷◌, lt→ltb, arith, bit_or}
use znp_host_framework.Base.Bits.{bit_or_shift}
use znp_host_framework.Base.Bytes.{lo_byte, hi_byte, build_uint16_lem}
use znp_host_framework.Rpc.{done}
use znp_host_framework.Mt.Reader.{take_byte, take_word}
use znp_host_framework.Zdo.Management.Responses.{BindingTableListItemFormat}
use znp_host_framework.Zdo.Management.Table.{
  change, take_src_ieee_addr, take_dst_ieee_addr, take_binding, take_bindings, take_table,
}
use znp_host_framework.Zdo.Management.Handlers.{process_mgmt_bind_rsp}

-- An entry that gets a byte of each address, at bit `k`.
abbrev pub shared : BindingTableListItemFormat → (src dst k : ℕ) → BindingTableListItemFormat
shared x src dst k = record x {
  src_ieee_addr = bit_or x.src_ieee_addr (src * 2 ^ k);
  dst_ieee_addr = bit_or x.dst_ieee_addr (dst * 2 ^ k);
}

-- A response with one entry, in a table that had at least nine before: the first entry of the table
-- gets only the lowest byte of the source address, has the lowest byte of the destination address
-- added to its own, and keeps its endpoints, cluster and mode; each other byte of the two addresses is
-- added to the addresses of one of the next seven entries; and the endpoints, cluster and mode of the
-- message go to the ninth, whose destination address becomes 0. The address of the sender and the first
-- byte are to fit their types, and the length of the message is to be more than 6.
pub process_mgmt_bind_rsp-scatter :
    (x0 x1 x2 x3 x4 x5 x6 x7 x8 : BindingTableListItemFormat)
    (rest : List BindingTableListItemFormat) (n cmd0 cmd1 src_addr status entries start_index : ℕ)
    (s0 s1 s2 s3 s4 s5 s6 s7 src_endpoint cluster_id dst_addr_mode : ℕ)
    (d0 d1 d2 d3 d4 d5 d6 d7 dst_endpoint : ℕ) (back : List ℕ)
    → 6 < n
    → src_addr < 65536
    → s0 < 256
    → process_mgmt_bind_rsp
        (x0 ∷ x1 ∷ x2 ∷ x3 ∷ x4 ∷ x5 ∷ x6 ∷ x7 ∷ x8 ∷ rest)
        n
        (cmd0
          ∷ cmd1
          ∷ lo_byte src_addr
          ∷ hi_byte src_addr
          ∷ status
          ∷ entries
          ∷ start_index
          ∷ 1
          ∷ s0
          ∷ s1
          ∷ s2
          ∷ s3
          ∷ s4
          ∷ s5
          ∷ s6
          ∷ s7
          ∷ src_endpoint
          ∷ cluster_id
          ∷ dst_addr_mode
          ∷ d0
          ∷ d1
          ∷ d2
          ∷ d3
          ∷ d4
          ∷ d5
          ∷ d6
          ∷ d7
          ∷ dst_endpoint
          ∷ back)
        2
      ≡ done (
        record {
          src_addr = src_addr;
          status = status;
          binding_table_entries = entries;
          start_index = start_index;
          binding_table_list_count = 1;
          binding_table_list =
              record x0 { src_ieee_addr = s0; dst_ieee_addr = bit_or x0.dst_ieee_addr (d0 * 2 ^ 0) }
              ∷ shared x1 s1 d1 8
              ∷ shared x2 s2 d2 16
              ∷ shared x3 s3 d3 24
              ∷ shared x4 s4 d4 32
              ∷ shared x5 s5 d5 40
              ∷ shared x6 s6 d6 48
              ∷ shared x7 s7 d7 56
              ∷ record x8 {
                src_endpoint = src_endpoint;
                cluster_id = cluster_id;
                dst_addr_mode = dst_addr_mode;
                dst_ieee_addr = 0;
                dst_endpoint = dst_endpoint;
              }
              ∷ rest;
        },
        28,
      )
unfolding process_mgmt_bind_rsp take_table take_bindings take_binding take_src_ieee_addr
    take_dst_ieee_addr change take_byte take_word
process_mgmt_bind_rsp-scatter x0 x1 x2 x3 x4 x5 x6 x7 x8 rest n cmd0 cmd1 src_addr status entries
      start_index s0 s1 s2 s3 s4 s5 s6 s7 src_endpoint cluster_id dst_addr_mode d0 d1 d2 d3 d4 d5 d6
      d7 dst_endpoint back more bound byte =
    let low : bit_or 0 (s0 * 2 ^ 0) ≡ s0 = omega (arith, bit_or_shift 0 0 s0 (omega arith)) in
    rw (build_uint16_lem src_addr bound, lt→ltb _ _ more, low) refl

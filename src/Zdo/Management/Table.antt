-- ===== src/Zdo/Management/Table.antt =====
-- The loop of `processMgmtBindRsp` over the entries of a binding table. The index `i` of the loops
-- over the bytes of an address hides the index of the loop over the entries, so that each byte goes
-- to another entry, and what follows an address goes to entry 8.
use znp_host_framework.Base.{
  ℕ, zero, suc, ◌+◌, ◌*◌, ◌^◌, ◌≡◌, List, [], ◌∷◌, ltb, if◌then◌else◌, bit_or, true, false,
}
use znp_host_framework.Rpc.{Outcome, done, fault, ◌>>=◌}
use znp_host_framework.Mt.Reader.{Reader, Reads, give, read_then, take_byte, give-Reads}
use znp_host_framework.Zdo.Management.Responses.{BindingTableListItemFormat}

-- A write to the members of an entry of the array.
unfoldable pub change :
    (BindingTableListItemFormat → BindingTableListItemFormat)
    → ℕ
    → List BindingTableListItemFormat
    → Outcome (List BindingTableListItemFormat)
change f i [] = fault
change f zero (x ∷ xs) = done (f x ∷ xs)
change f (suc i) (x ∷ xs) = change f i xs >>= λ ys. done (x ∷ ys)

abbrev pub set_entry :
    (BindingTableListItemFormat → BindingTableListItemFormat)
    → ℕ
    → List BindingTableListItemFormat
    → Reader (List BindingTableListItemFormat)
set_entry f i table buf idx = change f i table >>= λ t. done (t, idx)

-- `for (i = 0; i < 8; i++) BindingTableList[i].SrcIEEEAddr |= rpcBuff[msgIdx++] << (i * 8);` with `n`
-- rounds left
unfoldable pub take_src_ieee_addr :
    (n i : ℕ) → List BindingTableListItemFormat → Reader (List BindingTableListItemFormat)
take_src_ieee_addr zero i table = give table
take_src_ieee_addr (suc n) i table = read_then take_byte λ x.
    read_then
      (set_entry (λ e. record e { src_ieee_addr = bit_or e.src_ieee_addr (x * 2 ^ (i * 8)) }) i
        table)
      λ t. take_src_ieee_addr n (i + 1) t

unfoldable pub take_dst_ieee_addr :
    (n i : ℕ) → List BindingTableListItemFormat → Reader (List BindingTableListItemFormat)
take_dst_ieee_addr zero i table = give table
take_dst_ieee_addr (suc n) i table = read_then take_byte λ x.
    read_then
      (set_entry (λ e. record e { dst_ieee_addr = bit_or e.dst_ieee_addr (x * 2 ^ (i * 8)) }) i
        table)
      λ t. take_dst_ieee_addr n (i + 1) t

-- A round of the outer loop.
unfoldable pub take_binding :
    ℕ → List BindingTableListItemFormat → Reader (List BindingTableListItemFormat)
take_binding i table = read_then (set_entry (λ e. record e { src_ieee_addr = 0 }) i table) λ t.
    read_then (take_src_ieee_addr 8 0 t) λ t. read_then take_byte λ src_endpoint.
      read_then (set_entry (λ e. record e { src_endpoint = src_endpoint }) 8 t) λ t.
        read_then take_byte λ cluster_id.
          read_then (set_entry (λ e. record e { cluster_id = cluster_id }) 8 t) λ t.
            read_then take_byte λ dst_addr_mode.
              read_then (set_entry (λ e. record e { dst_addr_mode = dst_addr_mode }) 8 t) λ t.
                read_then (set_entry (λ e. record e { dst_ieee_addr = 0 }) 8 t) λ t.
                  read_then (take_dst_ieee_addr 8 0 t) λ t.
                    read_then take_byte
                      λ dst_endpoint. set_entry (λ e. record e { dst_endpoint = dst_endpoint }) 8 t

unfoldable pub take_bindings :
    (n i : ℕ) → List BindingTableListItemFormat → Reader (List BindingTableListItemFormat)
take_bindings zero i table = give table
take_bindings (suc n) i table = read_then (take_binding i table) λ t. take_bindings n (i + 1) t

-- The array `BindingTableList`, which holds `table` at first.
unfoldable pub take_table :
    (rpc_len count : ℕ) → List BindingTableListItemFormat → Reader (List BindingTableListItemFormat)
take_table rpc_len count table = if ltb 6 rpc_len then take_bindings count 0 table else give table

pub take_table-Reads :
    (n count : ℕ) (table same : List BindingTableListItemFormat)
    → count ≡ 0
    → table ≡ same
    → Reads (take_table n count table) [] same
unfolding take_table take_bindings
take_table-Reads n count table same e h =
    rw (e, h)
      (elim (ltb 6 n) as (λ b. Reads (if b then give same else give same) [] same) [
        | true ↦ give-Reads same
        | false ↦ give-Reads same
      ])

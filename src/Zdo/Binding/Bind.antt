-- ===== src/Zdo/Binding/Bind.antt =====
-- What `zdoBindReq` and `zdoUnbindReq` of framework/mt/Zdo/mtZdo.c send.
use znp_host_framework.Base.{
  ℕ, ◌+◌, ◌≤◌, ◌≡◌, refl, List, [], ◌∷◌, ◌++◌, length, drop, take, length-drop, if◌then◌else◌, ◌==◌,
  arith, length-append, some,
}
use znp_host_framework.Base.Bytes.{lo_byte, hi_byte}
use znp_host_framework.Rpc.{done, fault, ◌>>=◌}
use znp_host_framework.Mt.Writer.{put_copy}
use znp_host_framework.Mt.Host.{Host, Env}
use znp_host_framework.Mt.Call.{IsAllocator, mt_with, mt_request, transmit, zdo_finish}
use znp_host_framework.Mt.Fills.{
  Fills, puts-Fills, skip-Fills, then-Fills, put_copy-Fills, put_copy-Fills_prefix, put_copy-fault,
  request-Fills,
}
use mathlib.Core.List.{append-nil}
use mathlib.Core.Path.{subst}
use znp_host_framework.Base.{Bool-cases, inl, inr, ◌≢◌}
use znp_host_framework.Mt.Writer.{Fits, puts-Writes, put_copy-Writes}
use znp_host_framework.Zdo.Binding.Formats.{BindReqFormat, UnbindReqFormat}
use znp_host_framework.Zdo.Requests.{zdo_sreq}
use znp_host_framework.Zdo.Binding.Requests.{
  zdo_bind_req, zdo_unbind_req, addrmd, end_p, put_endpoint,
}

-- The destination: an extended address with an endpoint, or the short address of a group.
abbrev pub destination_bytes : (mode : ℕ) (dst_address : List ℕ) (dst_endpoint : ℕ) → List ℕ
destination_bytes mode dst_address dst_endpoint =
    if mode == 3 then take 8 dst_address ++ dst_endpoint ∷ [] else take 2 dst_address

destination-Fills :
    (mode : ℕ) (dst_address : List ℕ) (dst_endpoint : ℕ)
    → length dst_address ≡ 8
    → Fills
        (λ c.
          put_copy (addrmd mode) dst_address c >>= λ c. put_endpoint (end_p mode) dst_endpoint c)
        (destination_bytes mode dst_address dst_endpoint)
        (addrmd mode + end_p mode)
unfolding put_endpoint
destination-Fills mode dst_address dst_endpoint eight = elim (Bool-cases (mode == 3)) [
  | inl e ↦ rw e (
      then-Fills _ _ _ _ _ _
        (put_copy-Fills_prefix 8 dst_address (omega (arith, eight)) (omega arith))
        (puts-Fills (dst_endpoint ∷ [])))
  | inr e ↦ rw e (
      subst (λ xs. Fills (λ c. put_copy 2 dst_address c >>= λ c. done c) xs 2)
        (append-nil (take 2 dst_address))
        (then-Fills (λ c. put_copy 2 dst_address c) (λ c. done c) (take 2 dst_address) [] 2 0
          (put_copy-Fills_prefix 2 dst_address (omega (arith, eight)) (omega arith)) skip-Fills))
]

abbrev pub bind_req_bytes : BindReqFormat → List ℕ
bind_req_bytes req =
    lo_byte req.dst_addr
    ∷ hi_byte req.dst_addr
    ∷ (req.src_address
        ++ (req.src_endpoint
            ∷ lo_byte req.cluster_id
            ∷ hi_byte req.cluster_id
            ∷ req.dst_addr_mode
            ∷ destination_bytes req.dst_addr_mode req.dst_address req.dst_endpoint))

abbrev pub unbind_req_bytes : UnbindReqFormat → List ℕ
unbind_req_bytes req =
    lo_byte req.dst_addr
    ∷ hi_byte req.dst_addr
    ∷ (req.src_address
        ++ (req.src_endpoint
            ∷ lo_byte req.cluster_id
            ∷ hi_byte req.cluster_id
            ∷ req.dst_addr_mode
            ∷ destination_bytes req.dst_addr_mode req.dst_address req.dst_endpoint))

abbrev pub IsBindReq : BindReqFormat → Type 0
IsBindReq req = (length req.src_address ≡ 8) × (length req.dst_address ≡ 8)

-- Not with an extended destination.
abbrev pub IsUnbindReq : UnbindReqFormat → Type 0
IsUnbindReq req =
    (length req.src_address ≡ 8) × (length req.dst_address ≡ 8) × (req.dst_addr_mode ≢ 3)

addrmd-le : (mode : ℕ) → addrmd mode + end_p mode ≤ 9
addrmd-le mode = ground arith

addrmd-short : (mode : ℕ) → mode ≢ 3 → addrmd mode + end_p mode ≡ 2
addrmd-short mode h = ground (arith, h)

pub zdo_bind_req-transmit :
    (env : Env) (req : BindReqFormat) (h : Host)
    → IsAllocator env.malloc
    → IsBindReq req
    → zdo_bind_req env req h
      ≡ transmit env
          (zdo_finish env)
          zdo_sreq
          0x21
          (bind_req_bytes req)
          h
          (env.malloc (length (bind_req_bytes req)))
unfolding zdo_bind_req
zdo_bind_req-transmit env req h allocates (src_eight, dst_eight) =
    request-Fills env (zdo_finish env) zdo_sreq 0x21
      (14 + addrmd req.dst_addr_mode + end_p req.dst_addr_mode) _ (bind_req_bytes req) _ h allocates
      (then-Fills _ _ _ _ _ _ (puts-Fills _) (
        then-Fills _ _ _ _ _ _ (put_copy-Fills 8 req.src_address src_eight (omega arith)) (
          then-Fills _ _ _ _ _ _ (puts-Fills _)
            (destination-Fills req.dst_addr_mode req.dst_address req.dst_endpoint dst_eight))))
      (omega arith) (omega (arith, addrmd-le req.dst_addr_mode))

pub zdo_unbind_req-transmit :
    (env : Env) (req : UnbindReqFormat) (h : Host)
    → IsAllocator env.malloc
    → IsUnbindReq req
    → zdo_unbind_req env req h
      ≡ transmit env
          (zdo_finish env)
          zdo_sreq
          0x22
          (unbind_req_bytes req)
          h
          (env.malloc (length (unbind_req_bytes req)))
unfolding zdo_unbind_req
zdo_unbind_req-transmit env req h allocates (src_eight, dst_eight, short) =
    request-Fills env (zdo_finish env) zdo_sreq 0x22 16 _ (unbind_req_bytes req) _ h allocates
      (then-Fills _ _ _ _ _ _ (puts-Fills _) (
        then-Fills _ _ _ _ _ _ (put_copy-Fills 8 req.src_address src_eight (omega arith)) (
          then-Fills _ _ _ _ _ _ (puts-Fills _)
            (destination-Fills req.dst_addr_mode req.dst_address req.dst_endpoint dst_eight))))
      (omega (arith, addrmd-short req.dst_addr_mode short)) (omega arith)

-- With an extended destination (mode 3), `zdoUnbindReq` writes outside the 16 bytes that it has
-- allocated, as soon as `malloc` gives it them: its length, unlike that of `zdoBindReq`, does not count
-- the longer address and the endpoint. Both addresses are the arrays of 8 bytes of the struct.
pub zdo_unbind_req-overflow :
    (env : Env) (req : UnbindReqFormat) (h : Host) (block : List ℕ)
    → env.malloc 16 ≡ some block
    → length block ≡ 16
    → length req.src_address ≡ 8
    → length req.dst_address ≡ 8
    → req.dst_addr_mode ≡ 3
    → zdo_unbind_req env req h ≡ fault
unfolding zdo_unbind_req mt_request mt_with
zdo_unbind_req-overflow env req h block gives size src_eight dst_eight extended =
    let a = lo_byte req.dst_addr ∷ hi_byte req.dst_addr ∷ [] in
    let b =
      req.src_endpoint ∷ lo_byte req.cluster_id ∷ hi_byte req.cluster_id ∷ req.dst_addr_mode ∷ [] in
    let rest = drop (length req.src_address) (drop 2 block) in
    let long : addrmd req.dst_addr_mode ≡ 8 = rw extended refl in
    let left : length rest ≡ 6 = omega (
      arith,
      length-drop (length req.src_address) (drop 2 block),
      length-drop 2 block,
      size,
      src_eight,
    ) in
    let fits_a : Fits 2 [] block = record { room = omega (arith, size); small = omega arith } in
    let fits_src : Fits (length req.src_address) a (drop 2 block) = record {
      room = omega (arith, length-drop 2 block, size, src_eight);
      small = omega (arith, src_eight);
    } in
    let fits_b : Fits 4 (a ++ req.src_address) rest = record {
      room = omega (arith, left);
      small = omega (arith, length-append a req.src_address, src_eight);
    } in
    rw
      (
        gives,
        (puts-Writes a).writes [] block fits_a,
        (put_copy-Writes 8 req.src_address src_eight (omega arith)).writes a (drop 2 block)
            fits_src,
        (puts-Writes b).writes (a ++ req.src_address) rest fits_b,
        long,
      )
      (rw
        (put_copy-fault 8 req.dst_address ((a ++ req.src_address) ++ b) (drop 4 rest)
          (omega (arith, dst_eight)) (omega (arith, length-drop 4 rest, left))
          (omega (
            arith,
            length-append (a ++ req.src_address) b,
            length-append a req.src_address,
            src_eight,
          )))
        refl)

-- ===== src/Rpc/Transport.antt =====
-- framework/platform/gnu/rpcTransportUart.c: reading and writing the serial port. `read` and
-- `write` are the operating system's: how a `read` goes is the port's schedule.
use mathlib.Core.List.{append-nil}
use znp_host_framework.Base.{
  refl, suc==zero, sym, ap, ◌∙◌, le→leb, leb→le, take-add, drop-add, ℕ, zero, suc, ◌+◌, ◌-◌, ◌%◌,
  ◌≤◌, ◌≡◌, Option, none, some, List, [], ◌∷◌, ◌++◌, leb, if◌then◌else◌, length, take, drop, min,
  arith, true, ◌==◌, Bool-cases, inl, inr, ◌<◌, length-take, length-drop,
}
use znp_host_framework.Rpc.{ReadEvent, fails, avail}

-- What `read(fd, buf, len)` gives: the return value as the `uint8_t` that `rpcTransportRead` keeps
-- (-1 becomes 255), the bytes stored, and the bytes still to come.
pub record Got : Type 0 where
  pub ret : ℕ
  pub bytes : List ℕ
  pub rest : List ℕ

-- `rpcTransportRead` at one event of the schedule
unfoldable pub rpc_transport_read : ReadEvent → List ℕ → ℕ → Got
rpc_transport_read fails input len = record { ret = 255; bytes = []; rest = input }
rpc_transport_read (avail k) input len = record {
  ret = length (take (min k len) input) % 256;
  bytes = take (min k len) input;
  rest = drop (min k len) input;
}

-- The bytes `buf[i .. i + n)`; `none` if they are not all there.
abbrev pub slice : List ℕ → ℕ → ℕ → Option (List ℕ)
slice buf i n = if leb (i + n) (length buf) then some (take n (drop i buf)) else none

-- The loop of `rpcTransportWrite`: eight bytes, or what remains, to each call of `write`. The
-- result is the list of what the calls are given. One round of fuel for each byte is more than enough.
unfoldable pub write_loop : ℕ → List ℕ → (remain offset : ℕ) → Option (List (List ℕ))
write_loop zero buf remain offset = some []
write_loop (suc fuel) buf remain offset =
    let sub = if leb 8 remain then 8 else remain in
    let rest = write_loop fuel buf (remain - 8) (offset + 8) in
    if remain == 0 then some [] else elim (slice buf offset sub) [
      | none ↦ none
      | some chunk ↦ elim rest [ none ↦ none | some chunks ↦ some (chunk ∷ chunks) ]
    ]

-- `rpcTransportWrite`, whose `len` is a byte
unfoldable pub rpc_transport_write : List ℕ → ℕ → Option (List (List ℕ))
rpc_transport_write buf len = write_loop (len % 256) buf (len % 256) 0

unfoldable pub flatten : List (List ℕ) → List ℕ
flatten [] = []
flatten (c ∷ cs) = c ++ flatten cs

-- Each call of `write` is given between one and eight bytes.
abbrev pub AreSmall : List (List ℕ) → Type 0
AreSmall [] = Unit
AreSmall (c ∷ cs) = (0 < length c) × (length c ≤ 8) × AreSmall cs

length-slice : (buf : List ℕ) (i n : ℕ) → i + n ≤ length buf → length (take n (drop i buf)) ≡ n
length-slice buf i n h = omega (arith, length-take n (drop i buf), length-drop i buf)

write_loop-zero : (fuel : ℕ) (buf : List ℕ) (offset : ℕ) → write_loop fuel buf 0 offset ≡ some []
unfolding write_loop
write_loop-zero zero buf offset = refl
write_loop-zero (suc fuel) buf offset = refl

first_chunk : {n : ℕ} (xs : List ℕ) → 8 ≤ n → take 8 xs ++ take (n - 8) (drop 8 xs) ≡ take n xs
first_chunk {n} xs h =
    let e : n ≡ 8 + (n - 8) = omega arith in
    sym (take-add 8 (n - 8) xs) ∙ ap (λ k. take k xs) (sym e)

write_loop_lem :
    (fuel : ℕ) (buf : List ℕ) (remain offset : ℕ)
    → remain ≤ fuel
    → offset + remain ≤ length buf
    → (chunks : List (List ℕ)) × (write_loop fuel buf remain offset ≡ some chunks)
      × (flatten chunks ≡ take remain (drop offset buf))
      × AreSmall chunks
unfolding write_loop flatten
write_loop_lem zero buf zero offset h room = ([], refl, refl, tt)
write_loop_lem zero buf (suc remain) offset h room = absurd (omega arith)
write_loop_lem (suc fuel) buf zero offset h room = ([], refl, refl, tt)
write_loop_lem (suc fuel) buf (suc remain) offset h room = elim (Bool-cases (leb 8 (suc remain))) [
  | inl e ↦
      let more = leb→le 8 (suc remain) e in
      let (chunks, run, all, small) =
        write_loop_lem fuel buf (suc remain - 8) (offset + 8) (omega arith) (omega arith) in
      let fits : leb (offset + 8) (length buf) ≡ true = le→leb _ _ (omega arith) in
      let size = length-slice buf offset 8 (omega arith) in
      (
        take 8 (drop offset buf) ∷ chunks,
        rw (suc==zero remain, e, fits, run) refl,
        rw (all, drop-add) (first_chunk (drop offset buf) more),
        (omega (arith, size), omega (arith, size), small),
      )
  | inr e ↦
      let fits : leb (offset + suc remain) (length buf) ≡ true = le→leb _ _ room in
      let size = length-slice buf offset (suc remain) room in
      let last : suc remain - 8 ≡ 0 = ground arith in
      (
        take (suc remain) (drop offset buf) ∷ [],
        rw (suc==zero remain, e, fits, last, write_loop-zero fuel buf (offset + 8)) refl,
        append-nil _,
        (omega (arith, size), ground (arith, size), tt),
      )
]

-- For a buffer of at least `len` bytes, `len` below 256, the calls of `write` together are given
-- the first `len` bytes in order, in pieces of one to eight bytes.
pub rpc_transport_write-flatten :
    (buf : List ℕ) (len : ℕ)
    → len ≤ length buf
    → len < 256
    → (chunks : List (List ℕ)) × (rpc_transport_write buf len ≡ some chunks)
      × (flatten chunks ≡ take len buf)
      × AreSmall chunks
unfolding rpc_transport_write
rpc_transport_write-flatten buf len room small =
    let same : len % 256 ≡ len = omega arith in
    rw same (write_loop_lem len buf len 0 (omega arith) (omega arith))

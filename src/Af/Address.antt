-- ===== src/Af/Address.antt =====
-- The loop over the source address in `processIncomingMsgExt` of framework/mt/Af/mtAf.c.
use mathlib.Core.List.{append_assoc}
use mathlib.Core.Path.{fun_ext, subst}
use znp_host_framework.Base.{
  ℕ, zero, suc, ◌+◌, ◌*◌, ◌/◌, ◌%◌, ◌^◌, ◌<◌, ◌≤◌, ◌≡◌, ◌≢◌, refl, sym, ap, ◌∙◌, List, [], ◌∷◌,
  ◌++◌, length, false, bit_or, arith, ◌⊎◌, inl, inr, length-append,
}
use znp_host_framework.Base.Bits.{bit_or_shift}
use znp_host_framework.Mt.Reader.{
  Reads, read_then, take_byte, take_wide, wide_bytes, chain, give-Reads, take_byte-Reads,
  take_wide-Reads,
}
use znp_host_framework.Af.Process.{in_src_addr, take_src_addr}

-- The mode of an address and its value: a long one has mode 3, a short one mode 2, and without an
-- address the value is 0.
abbrev pub IsAddress : (mode v : ℕ) → Type 0
IsAddress mode v =
    ((mode ≡ 3) × (v < 2 ^ 64)) ⊎ ((mode ≡ 2) × (v < 65536)) ⊎ ((mode ≢ 3) × (mode ≢ 2) × (v ≡ 0))

long-take_wide : (n i acc : ℕ) → take_src_addr 3 n i acc ≡ take_wide n (i * 8) acc
unfolding take_src_addr take_wide
long-take_wide zero i acc = refl
long-take_wide (suc n) i acc =
    let next : (i + 1) * 8 ≡ i * 8 + 8 = omega arith in
    ap (λ k. read_then take_byte k)
      (fun_ext λ x.
        long-take_wide n (i + 1) (bit_or acc (x * 2 ^ (i * 8)))
        ∙ ap (λ k. take_wide n k (bit_or acc (x * 2 ^ (i * 8)))) next)

-- The bytes that are not part of the address are passed over.
skip-Reads :
    (mode i acc : ℕ) (xs : List ℕ)
    → ((j : ℕ) → i ≤ j → in_src_addr mode j ≡ false)
    → Reads (take_src_addr mode (length xs) i acc) xs acc
unfolding take_src_addr
skip-Reads mode i acc [] outside = give-Reads acc
skip-Reads mode i acc (x ∷ xs) outside = record {
  reads = λ front back h.
      let here = outside i (omega arith) in
      let grown = length-append front (x ∷ []) in
      let rest = skip-Reads mode (i + 1) acc xs (λ j le. outside j (omega (arith, le))) in
      let next : (length front % 256 + 1) % 256 ≡ length (front ++ x ∷ []) % 256 =
        omega (arith, grown) in
      let end : length (front ++ x ∷ []) + length xs ≡ length front + length (x ∷ xs) =
        omega (arith, grown) in
      rw (here, next, ← append_assoc front (x ∷ []) (xs ++ back))
        (rest.reads (front ++ x ∷ []) back (omega (arith, end, h)) ∙ rw end refl);
}

length-wide_bytes : (n v : ℕ) → length (wide_bytes n v) ≡ n
length-wide_bytes zero v = refl
length-wide_bytes (suc n) v = let e = length-wide_bytes n (v / 256) in omega arith

skip_wide :
    (mode i acc n v : ℕ)
    → ((j : ℕ) → i ≤ j → in_src_addr mode j ≡ false)
    → Reads (take_src_addr mode n i acc) (wide_bytes n v) acc
skip_wide mode i acc n v outside =
    subst (λ k. Reads (take_src_addr mode k i acc) (wide_bytes n v) acc) (length-wide_bytes n v)
      (skip-Reads mode i acc (wide_bytes n v) outside)

short_outside : (j : ℕ) → 2 ≤ j → in_src_addr 2 j ≡ false
short_outside j h = ground arith

none_outside : (mode j : ℕ) → mode ≢ 3 → mode ≢ 2 → in_src_addr mode j ≡ false
none_outside mode j ne3 ne2 = ground arith

short-Reads : (v : ℕ) → v < 65536 → Reads (take_src_addr 2 8 0 0) (wide_bytes 8 v) v
unfolding take_src_addr
short-Reads v h =
    let lo = v % 256 in
    let hi = v / 256 % 256 in
    let first : bit_or 0 (lo * 2 ^ (0 * 8)) ≡ lo =
      omega (arith, bit_or_shift 0 0 lo (omega arith)) in
    let both : bit_or (bit_or 0 (lo * 2 ^ (0 * 8))) (hi * 2 ^ (1 * 8)) ≡ v =
      rw first (omega (arith, bit_or_shift 8 lo hi (omega arith))) in
    chain _ (take_byte-Reads lo) (
      chain _ (take_byte-Reads hi) (
        subst (λ a. Reads (take_src_addr 2 6 2 a) (wide_bytes 6 (v / 256 / 256)) v) (sym both)
          (skip_wide 2 2 v 6 (v / 256 / 256) short_outside)))

pub take_src_addr-Reads :
    (mode v : ℕ) → IsAddress mode v → Reads (take_src_addr mode 8 0 0) (wide_bytes 8 v) v
take_src_addr-Reads mode v (inl (is, bound)) =
    rw (is, long-take_wide 8 0 0) (take_wide-Reads 8 v bound)
take_src_addr-Reads mode v (inr (inl (is, bound))) = rw is (short-Reads v bound)
take_src_addr-Reads mode v (inr (inr (ne3, ne2, is))) =
    rw is (skip_wide mode 0 0 8 0 (λ j le. none_outside mode j ne3 ne2))

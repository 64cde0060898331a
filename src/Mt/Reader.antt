-- ===== src/Mt/Reader.antt =====
-- The way every handler of framework/mt takes a message apart: `rpcBuff[msgIdx++]`, with a byte for
-- the index, alone, two at a time for a word, or in a loop.
use mathlib.Core.List.{append_assoc, append-nil}
use mathlib.Core.Path.{subst}
use native.Mathlib.Nat.{pow-suc, mul-le-mul_right}
use znp_host_framework.Base.{
  ℕ, zero, suc, ◌+◌, ◌*◌, ◌/◌, ◌%◌, ◌^◌, ◌<◌, ◌≤◌, ◌≡◌, refl, sym, ap, ◌∙◌, some, List, [], ◌∷◌,
  ◌++◌, length, get_elem?, bit_or, arith, ltb, lt→ltb, if◌then◌else◌, length-append,
  get_elem?-append,
}
use znp_host_framework.Base.Bits.{bit_or_shift}
use znp_host_framework.Base.Bytes.{lo_byte, hi_byte, build_uint16, build_uint16_lem}
use znp_host_framework.Rpc.{Outcome, done, fault, ◌>>=◌, checked}

-- A part of a handler: from the buffer and `msgIdx`, a value and the next `msgIdx`.
abbrev pub Reader : Type 0 → Type 0
Reader A = List ℕ → ℕ → Outcome (A × ℕ)

abbrev pub give : {A : Type 0} → A → Reader A
give a buf i = done (a, i)

-- One part after another.
abbrev pub read_then : {A B : Type 0} → Reader A → (A → Reader B) → Reader B
read_then m k buf i = m buf i >>= λ p. k p.0 buf p.1

-- `rpcBuff[msgIdx++]`
unfoldable pub take_byte : Reader ℕ
take_byte buf i = checked (get_elem? buf i) >>= λ x. done (x, (i + 1) % 256)

-- `BUILD_UINT16(rpcBuff[msgIdx], rpcBuff[msgIdx + 1]); msgIdx += 2;`
unfoldable pub take_word : Reader ℕ
take_word buf i = checked (get_elem? buf i) >>= λ lo.
    checked (get_elem? buf (i + 1)) >>= λ hi. done (build_uint16 lo hi, (i + 2) % 256)

-- The loop `x |= rpcBuff[msgIdx++] << k`, where `k` grows by 8, with `n` rounds left. A byte shifted
-- by as many bits as a round shifts it fits the type of `x`.
unfoldable pub take_wide : (n k acc : ℕ) → Reader ℕ
take_wide zero k acc = give acc
take_wide (suc n) k acc = read_then take_byte λ x. take_wide n (k + 8) (bit_or acc (x * 2 ^ k))

-- The loop `array[i] = rpcBuff[msgIdx++]` with `n` rounds left and `room` elements of the array
-- behind `i`.
unfoldable pub take_bytes : (n room : ℕ) → Reader (List ℕ)
take_bytes zero room = give []
take_bytes (suc n) zero = λ buf i. fault
take_bytes (suc n) (suc room) =
    read_then take_byte λ x. read_then (take_bytes n room) λ xs. give (x ∷ xs)

-- A part that, wherever it meets the bytes `xs`, takes them off and gives `a`.
pub record Reads {A : Type 0} (m : Reader A) (xs : List ℕ) (a : A) : Type 0 where
  pub reads :
      (front back : List ℕ)
      → length front + length xs ≤ 256
      → m (front ++ (xs ++ back)) (length front % 256) ≡ done (a, (length front + length xs) % 256)

pub give-Reads : {A : Type 0} (a : A) → Reads (give a) [] a
give-Reads a = record { reads = λ front back h. ap (λ n. done (a, n % 256)) (omega arith) }

pub then-Reads :
    {A B : Type 0} (m : Reader A) (k : A → Reader B) (xs ys : List ℕ) (a : A) (b : B)
    → Reads m xs a
    → Reads (k a) ys b
    → Reads (read_then m k) (xs ++ ys) b
then-Reads m k xs ys a b hm hk = record {
  reads = λ front back h.
      let sizes = length-append xs ys in
      let next : length front + length xs ≡ length (front ++ xs) = sym (length-append front xs) in
      let end : length (front ++ xs) + length ys ≡ length front + length (xs ++ ys) =
        omega (arith, next, sizes) in
      rw
        (
          append_assoc xs ys back,
          hm.reads front (ys ++ back) (omega (arith, sizes)),
          next,
          ← append_assoc front xs (ys ++ back),
          hk.reads (front ++ xs) back (omega (arith, end, h)),
          end,
        )
        refl;
}

-- The same with everything but the parts left to be found.
abbrev pub chain :
    {A B : Type 0} {m : Reader A} {xs ys : List ℕ} {a : A} {b : B} (k : A → Reader B)
    → Reads m xs a
    → Reads (k a) ys b
    → Reads (read_then m k) (xs ++ ys) b
chain {m = m} {xs = xs} {ys = ys} {a = a} {b = b} k h h' = then-Reads m k xs ys a b h h'

pub take_byte-Reads : (x : ℕ) → Reads take_byte (x ∷ []) x
unfolding take_byte
take_byte-Reads x = record {
  reads = λ front back h.
      let small : length front % 256 ≡ length front = omega arith in
      rw (small, get_elem?-append front back x) refl;
}

pub take_word-Reads : (x : ℕ) → x < 65536 → Reads take_word (lo_byte x ∷ hi_byte x ∷ []) x
unfolding take_word
take_word-Reads x bound = record {
  reads = λ front back h.
      let small : length front % 256 ≡ length front = omega arith in
      let next : length front + 1 ≡ length (front ++ lo_byte x ∷ []) =
        sym (length-append front (lo_byte x ∷ [])) in
      let here = get_elem?-append front (hi_byte x ∷ back) (lo_byte x) in
      let there = get_elem?-append (front ++ lo_byte x ∷ []) back (hi_byte x) in
      let moved : get_elem? (front ++ lo_byte x ∷ hi_byte x ∷ back) (length front + 1)
          ≡ some (hi_byte x) =
        rw next (
          ap (λ b. get_elem? b (length (front ++ lo_byte x ∷ [])))
            (sym (append_assoc front (lo_byte x ∷ []) (hi_byte x ∷ back)))
          ∙ there) in
      rw (small, here, moved, build_uint16_lem x bound) refl;
}

-- A number in `n` bytes, low byte first.
abbrev pub wide_bytes : ℕ → ℕ → List ℕ
wide_bytes zero v = []
wide_bytes (suc n) v = v % 256 ∷ wide_bytes n (v / 256)

pow_8 : (k : ℕ) → 2 ^ (k + 8) ≡ 256 * 2 ^ k
pow_8 k =
    let power : k + 8 ≡ suc (suc (suc (suc (suc (suc (suc (suc k))))))) = omega arith in
    rw power (
      rw
        (
          pow-suc 2 (suc (suc (suc (suc (suc (suc (suc k))))))),
          pow-suc 2 (suc (suc (suc (suc (suc (suc k)))))),
          pow-suc 2 (suc (suc (suc (suc (suc k))))),
          pow-suc 2 (suc (suc (suc (suc k)))),
          pow-suc 2 (suc (suc (suc k))),
          pow-suc 2 (suc (suc k)),
          pow-suc 2 (suc k),
          pow-suc 2 k,
        )
        (omega arith))

-- One round: the lowest byte of the number is added at bit `k`, and the others stay above it.
wide_split : (k acc v : ℕ) → acc + v % 256 * 2 ^ k + v / 256 * 2 ^ (k + 8) ≡ acc + v * 2 ^ k
wide_split k acc v =
    let digits : v ≡ v / 256 * 256 + v % 256 = omega arith in
    let scaled = ap (λ t. t * 2 ^ k) digits in rw (pow_8 k) (omega (arith, scaled))

wide_room : (k acc x : ℕ) → acc < 2 ^ k → x < 256 → acc + x * 2 ^ k < 2 ^ (k + 8)
wide_room k acc x h byte =
    let top = mul-le-mul_right {m = x} {n = 255} (2 ^ k) (omega arith) in
    rw (pow_8 k) (omega (arith, top))

take_wide_from :
    (n k acc v : ℕ)
    → acc < 2 ^ k
    → v < 2 ^ (8 * n)
    → Reads (take_wide n k acc) (wide_bytes n v) (acc + v * 2 ^ k)
unfolding take_wide
take_wide_from zero k acc v h bound =
    let none_left : v ≡ 0 = omega arith in
    subst (λ a. Reads (give acc) [] a) (rw none_left (omega arith)) (give-Reads acc)
take_wide_from (suc n) k acc v h bound =
    let x = v % 256 in
    let or = bit_or_shift k acc x h in
    let wider : 8 * suc n ≡ 8 * n + 8 = omega arith in
    let power : 2 ^ (8 * suc n) ≡ 256 * 2 ^ (8 * n) = rw wider (pow_8 (8 * n)) in
    let rest : v / 256 < 2 ^ (8 * n) = omega (arith, bound, power) in
    let more =
      take_wide_from n (k + 8) (acc + x * 2 ^ k) (v / 256) (wide_room k acc x h (omega arith))
        rest in
    then-Reads take_byte (λ y. take_wide n (k + 8) (bit_or acc (y * 2 ^ k))) (x ∷ [])
      (wide_bytes n (v / 256)) x (acc + v * 2 ^ k) (take_byte-Reads x)
      (rw or (
        subst (λ a. Reads (take_wide n (k + 8) (acc + x * 2 ^ k)) (wide_bytes n (v / 256)) a)
          (wide_split k acc v) more))

-- A number of `n` bytes.
pub take_wide-Reads : (n v : ℕ) → v < 2 ^ (8 * n) → Reads (take_wide n 0 0) (wide_bytes n v) v
take_wide-Reads n v bound =
    subst (λ a. Reads (take_wide n 0 0) (wide_bytes n v) a) (omega arith)
      (take_wide_from n 0 0 v (omega arith) bound)

-- An array of exactly the bytes it is read from.
pub take_bytes-Reads :
    (xs : List ℕ) (room : ℕ) → length xs ≤ room → Reads (take_bytes (length xs) room) xs xs
unfolding take_bytes
take_bytes-Reads [] room h = give-Reads []
take_bytes-Reads (x ∷ xs) zero h = absurd (omega arith)
take_bytes-Reads (x ∷ xs) (suc room) h =
    subst (λ ys. Reads (take_bytes (length (x ∷ xs)) (suc room)) (x ∷ ys) (x ∷ xs)) (append-nil xs)
      (then-Reads _ _ (x ∷ []) (xs ++ []) x (x ∷ xs) (take_byte-Reads x) (
        then-Reads _ _ xs [] xs (x ∷ xs) (take_bytes-Reads xs room (omega arith))
          (give-Reads (x ∷ xs))))

-- The data behind the fields, if the message has more than the fields.
unfoldable pub take_data : (rpc_len fields len room : ℕ) → Reader (List ℕ)
take_data rpc_len fields len room = if ltb fields rpc_len then take_bytes len room else give []

pub take_bytes_of :
    (len : ℕ) (xs : List ℕ) (room : ℕ)
    → len ≡ length xs
    → len ≤ room
    → Reads (take_bytes len room) xs xs
take_bytes_of len xs room e h =
    subst (λ n. Reads (take_bytes n room) xs xs) (sym e) (take_bytes-Reads xs room (omega arith))

pub take_data-Reads :
    (rpc_len fields len : ℕ) (xs : List ℕ) (room : ℕ)
    → fields < rpc_len
    → len ≡ length xs
    → len ≤ room
    → Reads (take_data rpc_len fields len room) xs xs
unfolding take_data
take_data-Reads rpc_len fields len xs room more e h =
    rw (lt→ltb _ _ more) (take_bytes_of len xs room e h)

-- The last part of a message, its data, and what is made of all of it.
pub last-Reads :
    {B : Type 0} (m : Reader (List ℕ)) (f : List ℕ → B) (xs : List ℕ)
    → Reads m xs xs
    → Reads (read_then m λ ys. give (f ys)) xs (f xs)
last-Reads m f xs h =
    subst (λ zs. Reads (read_then m λ ys. give (f ys)) zs (f xs)) (append-nil xs)
      (then-Reads m (λ ys. give (f ys)) xs [] xs (f xs) h (give-Reads (f xs)))

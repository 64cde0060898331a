-- ===== src/Rpc/Fcs.antt =====
-- `calcFcs` of framework/rpc/rpc.c: the frame check sequence.
use znp_host_framework.Base.{
  ℕ, zero, suc, ◌%◌, ◌<◌, ◌≡◌, refl, ◌≢◌, Option, none, some, List, [], ◌∷◌, ◌++◌, bit_xor, arith,
  length, length-append, ap, sym, ◌∙◌,
}
use znp_host_framework.Base.Bits.{xor_cancel, xor_byte, xor_comm}

-- The loop of `calcFcs`; `none` is a read behind the end of the buffer.
unfoldable pub fcs_loop : ℕ → List ℕ → ℕ → Option ℕ
fcs_loop zero msg result = some result
fcs_loop (suc size) [] result = none
fcs_loop (suc size) (b ∷ msg) result = fcs_loop size msg (bit_xor result b)

-- `calcFcs`, whose `size` is a byte.
unfoldable pub calc_fcs : List ℕ → ℕ → Option ℕ
calc_fcs msg size = fcs_loop (size % 256) msg 0

-- The exclusive or of all bytes, from a given start.
unfoldable pub xor_all : ℕ → List ℕ → ℕ
xor_all r [] = r
xor_all r (b ∷ msg) = xor_all (bit_xor r b) msg

-- Every entry is a byte.
abbrev pub AreBytes : List ℕ → Type 0
AreBytes [] = Unit
AreBytes (b ∷ bs) = (b < 256) × AreBytes bs

fcs_loop-append :
    (xs rest : List ℕ) (r : ℕ) → fcs_loop (length xs) (xs ++ rest) r ≡ some (xor_all r xs)
unfolding fcs_loop xor_all
fcs_loop-append [] rest r = refl
fcs_loop-append (x ∷ xs) rest r = fcs_loop-append xs rest (bit_xor r x)

-- On a buffer that begins with the `size` bytes `xs` the result is their exclusive or.
pub calc_fcs-append :
    (xs rest : List ℕ) → length xs < 256 → calc_fcs (xs ++ rest) (length xs) ≡ some (xor_all 0 xs)
unfolding calc_fcs
calc_fcs-append xs rest h =
    let same : length xs % 256 ≡ length xs = omega arith in
    ap (λ n. fcs_loop n (xs ++ rest) 0) same ∙ fcs_loop-append xs rest 0

pub xor_all-byte : (r : ℕ) (xs : List ℕ) → r < 256 → AreBytes xs → xor_all r xs < 256
unfolding xor_all
xor_all-byte r [] h b = h
xor_all-byte r (x ∷ xs) h (bx, bs) = xor_all-byte (bit_xor r x) xs (xor_byte r x h bx) bs

-- Two starts that a common list takes to one result are one.
xor_all-injective :
    (r s : ℕ) (xs : List ℕ) → r < 256 → s < 256 → AreBytes xs → xor_all r xs ≡ xor_all s xs → r ≡ s
unfolding xor_all
xor_all-injective r s [] hr hs b e = e
xor_all-injective r s (x ∷ xs) hr hs (bx, bs) e =
    let same =
      xor_all-injective (bit_xor r x) (bit_xor s x) xs (xor_byte r x hr bx) (xor_byte s x hs bx) bs
        e in
    sym (xor_cancel r x hr bx) ∙ ap (λ t. bit_xor t x) same ∙ xor_cancel s x hs bx

pub xor_all-append : (r : ℕ) (xs ys : List ℕ) → xor_all r (xs ++ ys) ≡ xor_all (xor_all r xs) ys
unfolding xor_all
xor_all-append r [] ys = refl
xor_all-append r (x ∷ xs) ys = xor_all-append (bit_xor r x) xs ys

xor_right_injective : (r a b : ℕ) → r < 256 → a < 256 → b < 256 → bit_xor r a ≡ bit_xor r b → a ≡ b
xor_right_injective r a b hr ha hb e =
    sym (xor_cancel a r ha hr)
    ∙ ap (λ t. bit_xor t r) (xor_comm a r ha hr ∙ e ∙ xor_comm r b hr hb)
    ∙ xor_cancel b r hb hr

AreBytes-append : (xs ys : List ℕ) → AreBytes (xs ++ ys) → AreBytes xs × AreBytes ys
AreBytes-append [] ys h = (tt, h)
AreBytes-append (x ∷ xs) ys (hx, h) = let (p, q) = AreBytes-append xs ys h in ((hx, p), q)

-- Of two messages of bytes that differ in exactly one byte and are shorter than 256, the two
-- frame check sequences differ, whatever stands behind them in their buffers.
pub calc_fcs-ne :
    (xs ys rest rest' : List ℕ) (a b : ℕ)
    → AreBytes xs
    → AreBytes ys
    → a < 256
    → b < 256
    → length (xs ++ a ∷ ys) < 256
    → a ≢ b
    → calc_fcs ((xs ++ a ∷ ys) ++ rest) (length (xs ++ a ∷ ys))
      ≢ calc_fcs ((xs ++ b ∷ ys) ++ rest') (length (xs ++ b ∷ ys))
calc_fcs-ne xs ys rest rest' a b bx by ha hb short ne e =
    let same_length : length (xs ++ b ∷ ys) ≡ length (xs ++ a ∷ ys) =
      length-append xs (b ∷ ys) ∙ sym (length-append xs (a ∷ ys)) in
    let left = calc_fcs-append (xs ++ a ∷ ys) rest short in
    let right = calc_fcs-append (xs ++ b ∷ ys) rest' (omega (arith, same_length)) in
    let equal : xor_all 0 (xs ++ a ∷ ys) ≡ xor_all 0 (xs ++ b ∷ ys) = cc (left, right, e) in
    let r = xor_all 0 xs in
    let hr : r < 256 = xor_all-byte 0 xs (omega arith) bx in
    let split = sym (xor_all-append 0 xs (a ∷ ys)) ∙ equal ∙ xor_all-append 0 xs (b ∷ ys) in
    let merged =
      xor_all-injective (bit_xor r a) (bit_xor r b) ys (xor_byte r a hr ha) (xor_byte r b hr hb) by
        (unfold xor_all in split) in
    ne (xor_right_injective r a b hr ha hb merged)

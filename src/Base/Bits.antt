-- ===== src/Base/Bits.antt =====
-- Facts about `bit_and`, `bit_or` and `bit_xor`: over a byte by evaluation, and for shifted
-- operands by the recursion on binary digits.
use Prim.Native.Nat.{
  ℕ, zero, suc, ◌+◌, ◌*◌, ◌/◌, ◌%◌, ◌^◌, ◌≤◌, ◌<◌, max, bit_and, bit_or, bit_xor, digits,
  bit_or-bitwise,
}
use mathlib.Core.Path.{◌≡◌, refl}
use mathlib.Core.Bool.{Bool, true, ◌&&◌}
use native.Mathlib.Omega.{arith}
use native.Mathlib.Nat.{pow-suc}
use znp_host_framework.Base.Tests.{◌==◌, ==_iff, ltb, ltb→lt}

-- Whether a test holds of `count` numbers from `first` on.
passes : (test : ℕ → Bool) → (first count : ℕ) → Bool
passes test first zero = true
passes test first (suc count) = passes test (first + 1) count && test first

passes_at :
    (test : ℕ → Bool) (first count offset : ℕ)
    → passes test first count ≡ true
    → offset < count
    → test (first + offset) ≡ true
unfolding passes
passes_at test first zero offset all lt = absurd (omega arith)
passes_at test first (suc count) zero all lt =
    let here : first + 0 ≡ first = omega arith in rw here (ground arith)
passes_at test first (suc count) (suc offset) all lt =
    let moved : first + suc offset ≡ first + 1 + offset = omega arith in
    let rest : passes test (first + 1) count ≡ true = ground arith in
    rw moved (passes_at test (first + 1) count offset rest (omega arith))

-- A test that holds of every byte.
byte_passes : (test : ℕ → Bool) (x : ℕ) → passes test 0 256 ≡ true → x < 256 → test x ≡ true
byte_passes test x all lt =
    let same : 0 + x ≡ x = omega arith in rw (← same) (passes_at test 0 256 x all lt)

-- A test of every pair of bytes.
all_pairs : (ℕ → ℕ → Bool) → Bool
unfolding passes
all_pairs p = passes (λ x. passes (λ y. p x y) 0 256) 0 256

all_pairs_sound :
    (p : ℕ → ℕ → Bool) (x y : ℕ) → all_pairs p ≡ true → x < 256 → y < 256 → p x y ≡ true
unfolding all_pairs
all_pairs_sound p x y h hx hy =
    byte_passes (p x) y (byte_passes (λ z. passes (λ y. p z y) 0 256) x h hx) hy

xor_back_table : all_pairs (λ x y. bit_xor (bit_xor x y) y == x) ≡ true
unfolding all_pairs
xor_back_table = refl

xor_comm_table : all_pairs (λ x y. bit_xor x y == bit_xor y x) ≡ true
unfolding all_pairs
xor_comm_table = refl

xor_byte_table : all_pairs (λ x y. ltb (bit_xor x y) 256) ≡ true
unfolding all_pairs
xor_byte_table = refl

pub xor_cancel : (x y : ℕ) → x < 256 → y < 256 → bit_xor (bit_xor x y) y ≡ x
xor_cancel x y hx hy = (==_iff _ _).0 (all_pairs_sound _ x y xor_back_table hx hy)

pub xor_comm : (x y : ℕ) → x < 256 → y < 256 → bit_xor x y ≡ bit_xor y x
xor_comm x y hx hy = (==_iff _ _).0 (all_pairs_sound _ x y xor_comm_table hx hy)

pub xor_byte : (x y : ℕ) → x < 256 → y < 256 → bit_xor x y < 256
xor_byte x y hx hy = ltb→lt _ _ (all_pairs_sound _ x y xor_byte_table hx hy)

low_table : passes (λ x. bit_and x 0x1f == x % 32) 0 256 ≡ true
unfolding passes
low_table = refl

-- The mask of the five low bits of a byte.
pub and_low5 : (x : ℕ) → x < 256 → bit_and x 0x1f ≡ x % 32
and_low5 x h = (==_iff _ _).0 (byte_passes _ x low_table h)

high_table : passes (λ x. bit_and x 0xe0 == x / 32 * 32) 0 256 ≡ true
unfolding passes
high_table = refl

-- The mask of the three high bits of a byte.
pub and_high3 : (x : ℕ) → x < 256 → bit_and x 0xe0 ≡ x / 32 * 32
and_high3 x h = (==_iff _ _).0 (byte_passes _ x high_table h)

-- Digits of `bit_or`, lowest first.
abbrev or_digits : ℕ → ℕ → ℕ → ℕ
or_digits n a b = digits (λ b. b) max n a b

or_digits_fuel : (n m a b : ℕ) → a ≤ n → a ≤ m → or_digits n a b ≡ or_digits m a b
or_digits_fuel zero zero a b p q = refl
or_digits_fuel zero (suc m) zero b p q = refl
or_digits_fuel zero (suc m) (suc a) b p q = absurd (omega arith)
or_digits_fuel (suc n) zero zero b p q = refl
or_digits_fuel (suc n) zero (suc a) b p q = absurd (omega arith)
or_digits_fuel (suc n) (suc m) zero b p q = refl
or_digits_fuel (suc n) (suc m) (suc a) b p q =
    omega (arith, or_digits_fuel n m (suc a / 2) (b / 2) (omega arith) (omega arith))

zero-bit_or : (b : ℕ) → bit_or 0 b ≡ b
zero-bit_or b = bit_or-bitwise 0 b

bit_or_step : (a b : ℕ) → bit_or a b ≡ bit_or (a / 2) (b / 2) * 2 + max (a % 2) (b % 2)
bit_or_step zero b = omega (arith, zero-bit_or b, zero-bit_or (b / 2))
bit_or_step (suc a) b = omega (
  arith,
  bit_or-bitwise (suc a) b,
  bit_or-bitwise (suc a / 2) (b / 2),
  or_digits_fuel a (suc a / 2) (suc a / 2) (b / 2) (omega arith) (omega arith),
)

bit_or-double : (a m : ℕ) → bit_or a (m * 2) ≡ bit_or (a / 2) m * 2 + a % 2
bit_or-double a m =
    let half : m * 2 / 2 ≡ m = omega arith in
    let step = rw half at (bit_or_step a (m * 2)) in omega (arith, step)

-- `x |= y << k`, where `x` has no bit from `k` on, adds.
pub bit_or_shift : (k a b : ℕ) → a < 2 ^ k → bit_or a (b * 2 ^ k) ≡ a + b * 2 ^ k
bit_or_shift zero zero b h = omega (arith, zero-bit_or (b * 2 ^ 0))
bit_or_shift zero (suc a) b h = absurd (omega arith)
bit_or_shift (suc k) a b h =
    let p = pow-suc 2 k in
    let e : b * 2 ^ suc k ≡ b * 2 ^ k * 2 = rw p (omega arith) in
    rw e (omega (arith, bit_or-double a (b * 2 ^ k), bit_or_shift k (a / 2) b (omega (arith, p))))

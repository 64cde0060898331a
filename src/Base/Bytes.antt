-- ===== src/Base/Bytes.antt =====
-- C arrays that are written in place, bytes, and the 16-bit words made of two of them.
use znp_host_framework.Base.Tests.{leb, le→leb, if◌then◌else◌}
use znp_host_framework.Base.Lists.{
  length, take, drop, length-append, take-append_self, drop-append_self, drop-add,
}
use Prim.Native.Nat.{ℕ, ◌+◌, ◌*◌, ◌/◌, ◌%◌, ◌≤◌, ◌<◌}
use mathlib.Core.Path.{◌≡◌, refl}
use mathlib.Core.Option.{Option, none, some}
use mathlib.Core.List.{List, ◌++◌}
use native.Mathlib.Omega.{arith}

-- Stores `xs` from index `i` on; `none` if the array has not the room.
unfoldable pub overwrite : List ℕ → ℕ → List ℕ → Option (List ℕ)
overwrite buf i xs =
    if leb (i + length xs) (length buf)
    then some (take i buf ++ (xs ++ drop (i + length xs) buf))
    else none

-- Behind a part that is written already.
pub overwrite-append :
    (front back xs : List ℕ)
    → length xs ≤ length back
    → overwrite (front ++ back) (length front) xs ≡ some (front ++ (xs ++ drop (length xs) back))
unfolding overwrite
overwrite-append front back xs h =
    let room : length front + length xs ≤ length (front ++ back) =
      omega (arith, length-append front back) in
    rw (le→leb _ _ room, take-append_self, drop-add, drop-append_self) refl

-- `(uint8_t)(a & 0xFF)` and `(uint8_t)((a >> 8) & 0xFF)`
abbrev pub lo_byte : ℕ → ℕ
lo_byte a = a % 256

abbrev pub hi_byte : ℕ → ℕ
hi_byte a = a / 256 % 256

-- `BUILD_UINT16` of framework/mt/mtParser.h
abbrev pub build_uint16 : ℕ → ℕ → ℕ
build_uint16 lo hi = (lo % 256 + hi % 256 * 256) % 65536

pub build_uint16_lem : (a : ℕ) → a < 65536 → build_uint16 (lo_byte a) (hi_byte a) ≡ a
build_uint16_lem a h = omega arith

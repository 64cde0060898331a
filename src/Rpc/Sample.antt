-- ===== src/Rpc/Sample.antt =====
-- A device to open, for the tests of the start.
use znp_host_framework.Base.{ℕ, ◌==◌, if◌then◌else◌, Bool, true, false, none, some, List, [], ◌∷◌}
use znp_host_framework.Rpc.Start.{Opens}

-- The only device is that at /dev/tty, with the descriptor 3.
abbrev pub tty : List ℕ
tty = 0x2f ∷ 0x64 ∷ 0x65 ∷ 0x76 ∷ 0x2f ∷ 0x74 ∷ 0x74 ∷ 0x79 ∷ []

abbrev all_equal : List ℕ → List ℕ → Bool
all_equal [] [] = true
all_equal [] (b ∷ ys) = false
all_equal (a ∷ xs) [] = false
all_equal (a ∷ xs) (b ∷ ys) = if a == b then all_equal xs ys else false

abbrev pub one_device : Opens
one_device path = if all_equal path tty then some 3 else none

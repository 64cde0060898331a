-- ===== src/Queue/Deque.antt =====
-- What a queue promises: a sequence of messages, read at the front, written at either end.
use znp_host_framework.Base.{ℕ, Option, none, some, List, [], ◌∷◌, ◌++◌, ◌==◌, if◌then◌else◌}

abbrev pub Deque : Type 0
Deque = List (List ℕ)

-- A message of priority 1 goes to the front.
abbrev pub add : List ℕ → ℕ → Deque → Deque
add msg prio q = if prio == 1 then msg ∷ q else q ++ msg ∷ []

-- The first message, if there is one, and the rest.
abbrev pub receive : Deque → Option (List ℕ) × Deque
receive [] = (none, [])
receive (m ∷ q) = (some m, q)

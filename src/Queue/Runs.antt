-- ===== src/Queue/Runs.antt =====
-- Any sequence of calls of framework/rpc/queue.c, from `llq_open` on.
use mathlib.Core.Path.{subst}
use znp_host_framework.Base.{
  ℕ, ◌≡◌, refl, ◌≤◌, sym, ◌∙◌, true, false, none, Option, List, [], ◌∷◌, length, take, Bool, inl,
  inr,
}
use znp_host_framework.Queue.{llq_open, llq_add, llq_timedreceive}
use znp_host_framework.Queue.Memory.{Ptr, Mem, Fresh, ok}
use znp_host_framework.Queue.Insert.{IsFresh}
use znp_host_framework.Queue.Deque.{Deque, add, receive}
use znp_host_framework.Queue.Refine.{
  Represents, llq_open-Represents, llq_add-Represents, llq_timedreceive-Receives,
}

-- Memories that the calls can lead to, with the queue that the same calls make of the empty one.
pub data Reach : Mem → Deque → Type 0 where
  opened :
      (m : Mem) {m' : Mem}
      → ((a : Ptr) → m.nodes a ≡ none)
      → ((a : Ptr) → m.bufs a ≡ none)
      → llq_open m ≡ ok tt m'
      → Reach m' []
  added :
      {m m' : Mem} {q : Deque} (f : Fresh) (msg : List ℕ) (len prio : ℕ)
      → Reach m q
      → IsFresh m f
      → len ≤ length msg
      → llq_add f msg len prio m ≡ ok tt m'
      → Reach m' (add (take len msg) prio q)
  took :
      {m m' : Mem} {q : Deque} (timed : Bool) (buffer out : List ℕ) (r : Option ℕ)
      → Reach m q
      → llq_timedreceive timed buffer m ≡ ok (r, out) m'
      → Reach m' (receive q).1

memory_of : {A : Type 0} {a b : A} {m m' : Mem} → ok a m ≡ ok b m' → m ≡ m'
memory_of e = cc e

-- A receive that returned has left the rest of the queue.
took-Represents :
    (m m' : Mem) (q : Deque) (timed : Bool) (buffer out : List ℕ) (r : Option ℕ)
    → Represents m q
    → llq_timedreceive timed buffer m ≡ ok (r, out) m'
    → Represents m' (receive q).1
took-Represents m m' [] true buffer out r h e =
    subst (λ x. Represents x [])
      (memory_of (sym (llq_timedreceive-Receives m [] true buffer h) ∙ e)) h
took-Represents m m' [] false buffer out r h e =
    absurd (cc (llq_timedreceive-Receives m [] false buffer h, e))
took-Represents m m' (msg ∷ q) timed buffer out r h e =
    elim (llq_timedreceive-Receives m (msg ∷ q) timed buffer h) [
      | inl (fits, m1, run, h1) ↦ subst (λ x. Represents x q) (memory_of (sym run ∙ e)) h1
      | inr (long, overruns) ↦ absurd (cc (overruns, e))
    ]

-- Every memory that calls of `llq_open`, `llq_add` and `llq_timedreceive` lead to, each of them
-- returning, represents the queue that the same calls make of the empty one.
pub Reach-Represents : {m : Mem} {q : Deque} → Reach m q → Represents m q
Reach-Represents (opened m p r e) =
    let (m1, run, h) = llq_open-Represents m p r in
    subst (λ x. Represents x []) (memory_of (sym run ∙ e)) h
Reach-Represents (added {m} {q = q} f msg len prio before fresh h e) =
    let (m1, run, h1) = llq_add-Represents m q f msg len prio (Reach-Represents before) fresh h in
    subst (λ x. Represents x (add (take len msg) prio q)) (memory_of (sym run ∙ e)) h1
Reach-Represents (took {m} {m'} {q} timed buffer out r before e) =
    took-Represents m m' q timed buffer out r (Reach-Represents before) e

-- When the calls that led to a memory have left the queue empty, no node and no buffer is on the
-- heap.
pub Reach-no_leak : {m : Mem} → Reach m [] → (a : Ptr) → (m.nodes a ≡ none) × (m.bufs a ≡ none)
Reach-no_leak {m} r a = freed (Reach-Represents r)
  where
    freed : Represents m [] → (m.nodes a ≡ none) × (m.bufs a ≡ none)
    freed ([], is, e) = (is.list.no_node a refl, is.list.no_data a refl)
    freed (c ∷ cs, is, e) = absurd (cc e)

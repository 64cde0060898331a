-- ===== src/Queue/Memory.antt =====
-- The memory that framework/rpc/queue.c works on: nodes and data buffers at addresses, and the one
-- `llq_t` with its two semaphores. Commands either return, fault (undefined behaviour in C) or
-- block for ever.
use znp_host_framework.Base.{
  ℕ, ◌+◌, ◌-◌, Bool, true, false, ◌&&◌, Option, none, some, List, ◌++◌, ◌==◌, leb, if◌then◌else◌,
  length, take, drop, replicate,
}

abbrev pub Ptr : Type 0
Ptr = ℕ

abbrev pub null : Ptr
null = 0

-- `node_t`
pub record Node : Type 0 where
  pub ptr : Ptr
  pub data_at : Ptr
  pub length : ℕ

abbrev pub node : Ptr → Ptr → ℕ → Node
node p d n = record { ptr = p; data_at = d; length = n }

-- The heap, and the fields of the `llq_t`.
pub record Mem : Type 0 where
  pub nodes : Ptr → Option Node
  pub bufs : Ptr → Option (List ℕ)
  pub head : Ptr
  pub tail : Ptr
  pub temp : Ptr
  pub access : ℕ
  pub count : ℕ

-- What the two `malloc` calls of an insertion return (null if memory is exhausted), and what the
-- new node holds before it is written.
pub record Fresh : Type 0 where
  pub node_at : Ptr
  pub data_at : Ptr
  pub junk : Node

pub data Run (A : Type 0) : Type 0 where
  ok : A → Mem → Run A
  fault : Run A
  blocked : Run A

abbrev pub Cmd : Type 0 → Type 0
Cmd A = Mem → Run A

abbrev pub pure : {A : Type 0} → A → Cmd A
pure = ok

module _ {A B : Type 0} where
  abbrev pub and_then : Run A → (A → Cmd B) → Run B
  and_then (ok a m) k = k a m
  and_then fault k = fault
  and_then blocked k = blocked

  infixl 5 ◌>>=◌ ◌>>◌
  abbrev pub ◌>>=◌ : Cmd A → (A → Cmd B) → Cmd B
  c >>= k = λ m. and_then (c m) k

  abbrev pub ◌>>◌ : Cmd A → Cmd B → Cmd B
  c >> d = c >>= λ _. d

abbrev pub get : Cmd Mem
get m = ok m m

unfoldable pub write {ℓ} : {A : Type ℓ} → (Ptr → Option A) → Ptr → Option A → Ptr → Option A
write f p c a = if a == p then c else f a

-- `malloc(sizeof(node_t))`
unfoldable pub new_node : Fresh → Cmd Ptr
new_node f m =
    if f.node_at == null
    then ok null m
    else ok f.node_at (record m { nodes = write m.nodes f.node_at (some f.junk) })

-- `malloc(length * sizeof(char))`
unfoldable pub new_data : Fresh → ℕ → Cmd Ptr
new_data f len m =
    if f.data_at == null
    then ok null m
    else ok f.data_at (record m { bufs = write m.bufs f.data_at (some (replicate len 0)) })

-- `*p`: a fault at null and where no node is
unfoldable pub get_node : Ptr → Cmd Node
get_node p m = if p == null then fault else elim (m.nodes p) [ none ↦ fault | some n ↦ ok n m ]

unfoldable pub put_node : Ptr → Node → Cmd (Unit {0})
put_node p n m = ok tt (record m { nodes = write m.nodes p (some n) })

unfoldable pub set_ptr : Ptr → Ptr → Cmd (Unit {0})
unfolding get_node put_node
set_ptr p v = get_node p >>= λ n. put_node p (record n { ptr = v })

unfoldable pub set_data : Ptr → Ptr → Cmd (Unit {0})
unfolding get_node put_node
set_data p v = get_node p >>= λ n. put_node p (record n { data_at = v })

unfoldable pub set_length : Ptr → ℕ → Cmd (Unit {0})
unfolding get_node put_node
set_length p v = get_node p >>= λ n. put_node p (record n { length = v })

unfoldable pub set_head : Ptr → Cmd (Unit {0})
set_head p m = ok tt (record m { head = p })

unfoldable pub set_tail : Ptr → Cmd (Unit {0})
set_tail p m = ok tt (record m { tail = p })

unfoldable pub set_temp : Ptr → Cmd (Unit {0})
set_temp p m = ok tt (record m { temp = p })

-- a buffer on the heap
unfoldable pub get_buf : Ptr → Cmd (List ℕ)
get_buf d m = if d == null then fault else elim (m.bufs d) [ none ↦ fault | some b ↦ ok b m ]

-- `memcpy(dst, src, len)` on two arrays: a fault if either has fewer than `len` bytes
unfoldable pub copy_over : List ℕ → List ℕ → ℕ → Option (List ℕ)
copy_over dst src len =
    if leb len (length dst) && leb len (length src)
    then some (take len src ++ drop len dst)
    else none

-- what a `memcpy` leaves in a heap buffer
unfoldable pub put_buf : Ptr → Option (List ℕ) → Cmd (Unit {0})
put_buf d none m = fault
put_buf d (some b) m = ok tt (record m { bufs = write m.bufs d (some b) })

-- `memcpy` into a heap buffer
unfoldable pub memcpy_to : Ptr → List ℕ → ℕ → Cmd (Unit {0})
unfolding get_buf put_buf
memcpy_to d src len = get_buf d >>= λ old. put_buf d (copy_over old src len)

-- what a `memcpy` leaves in a local buffer
unfoldable pub or_fault : {A : Type 0} → Option A → Cmd A
or_fault none m = fault
or_fault (some a) m = ok a m

-- `memcpy` out of a heap buffer into the caller's
unfoldable pub memcpy_from : List ℕ → Ptr → ℕ → Cmd (List ℕ)
unfolding get_buf or_fault
memcpy_from dst d len = get_buf d >>= λ src. or_fault (copy_over dst src len)

-- `free` of an address that holds nothing is a fault.
unfoldable pub free_node : Ptr → Cmd (Unit {0})
unfolding get_node
free_node p = get_node p >>= λ n m. ok tt (record m { nodes = write m.nodes p none })

unfoldable pub free_data : Ptr → Cmd (Unit {0})
unfolding get_buf
free_data d = get_buf d >>= λ b m. ok tt (record m { bufs = write m.bufs d none })

-- `sem_wait` on `llqAccessSem`
unfoldable pub access_wait : Cmd (Unit {0})
access_wait m = if m.access == 0 then blocked else ok tt (record m { access = m.access - 1 })

unfoldable pub access_post : Cmd (Unit {0})
access_post m = ok tt (record m { access = m.access + 1 })

-- `sem_wait` on `llqCountSem`
unfoldable pub count_wait : Cmd Bool
count_wait m = if m.count == 0 then blocked else ok true (record m { count = m.count - 1 })

-- `sem_timedwait` on `llqCountSem`; `false` is -1, after a time in which no message came
unfoldable pub count_timedwait : Cmd Bool
count_timedwait m = if m.count == 0 then ok false m else ok true (record m { count = m.count - 1 })

unfoldable pub count_post : Cmd (Unit {0})
count_post m = ok tt (record m { count = m.count + 1 })

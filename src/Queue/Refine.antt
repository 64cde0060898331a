-- ===== src/Queue/Refine.antt =====
-- framework/rpc/queue.c implements the queue of `Queue.Deque`, call by call and over any sequence
-- of calls.
use znp_host_framework.Base.{
  ◌⊎◌, inl, inr, ◌≤◌, ◌<◌, ℕ, ◌+◌, ◌≡◌, refl, ◌≤◌, ◌<◌, ◌∙◌, ap, none, some, List, [], ◌∷◌, ◌++◌,
  arith, ◌==◌, length, length-append, take, Bool, Bool-cases, inl, inr, if◌then◌else◌,
}
use znp_host_framework.Queue.Chain.{IsList, IsQueue, Cell, messages}
use znp_host_framework.Queue.{llq_open, llq_add, llq_timedreceive}
use znp_host_framework.Queue.Memory.{
  Ptr, null, Mem, Fresh, ok, fault, blocked, access_wait, access_post, count_post,
}
use znp_host_framework.Queue.Insert.{
  IsFresh, new_cell, add_cell, Inserted, add_to_head_lem, add_to_tail_lem,
}
use znp_host_framework.Queue.Receive.{
  received, llq_timedreceive-cons, llq_timedreceive-nil, llq_timedreceive-overrun,
}
use znp_host_framework.Queue.Deque.{Deque, add}

-- The memory holds the queue `q`, and no other node or buffer.
abbrev pub Represents : Mem → Deque → Type 0
Represents m q = (cs : List Cell) × IsQueue m cs × (messages cs ≡ q)

messages-snoc : (cs : List Cell) (c : Cell) → messages (cs ++ c ∷ []) ≡ messages cs ++ c.bytes ∷ []
messages-snoc [] c = refl
messages-snoc (d ∷ cs) c = ap (λ q. d.bytes ∷ q) (messages-snoc cs c)

messages-add :
    (cs : List Cell) (c : Cell) (prio : ℕ)
    → messages (add_cell c prio cs) ≡ add c.bytes prio (messages cs)
messages-add cs c prio = elim (Bool-cases (prio == 1)) [
  | inl e ↦ rw e refl
  | inr e ↦ rw e (messages-snoc cs c)
]

length-add_cell :
    (cs : List Cell) (c : Cell) (prio : ℕ) → length (add_cell c prio cs) ≡ length cs + 1
length-add_cell cs c prio = elim (Bool-cases (prio == 1)) [
  | inl e ↦ rw e (omega arith)
  | inr e ↦ rw e (omega (arith, length-append {0} cs (c ∷ [])))
]

-- The queue at rest again, once the insertion is over and both semaphores are posted.
posted :
    (m m' : Mem) (cs : List Cell) (c : Cell) (prio : ℕ)
    → IsQueue m cs
    → Inserted (record m { access = 0 }) m' (add_cell c prio cs)
    → IsQueue (record m' { access = m'.access + 1; count = m'.count + 1 }) (add_cell c prio cs)
posted m m' cs c prio q i = record {
  list = record {
    head_is = i.list.head_is;
    tail_is = i.list.tail_is;
    chain = i.list.chain;
    no_node = i.list.no_node;
    no_data = i.list.no_data;
  };
  free = omega (arith, i.same_access);
  counted = omega (arith, i.same_count, q.counted, length-add_cell cs c prio);
}

module _ (m : Mem) (f : Fresh) (msg : List ℕ) (len prio : ℕ) (cs : List Cell) (q : IsQueue m cs)
    (fresh : IsFresh m f) (h : len ≤ length msg) where
  -- the memory between the two uses of the access semaphore
  abbrev held : Mem
  held = record m { access = 0 }

  held-IsFresh : IsFresh held f
  held-IsFresh = record {
    allocated = fresh.allocated;
    node_unused = fresh.node_unused;
    data_unused = fresh.data_unused;
  }

  held-IsList : IsList held cs
  held-IsList = record {
    head_is = q.list.head_is;
    tail_is = q.list.tail_is;
    chain = q.list.chain;
    no_node = q.list.no_node;
    no_data = q.list.no_data;
  }

  -- `llq_add` on a memory that holds a list of cells.
  pub llq_add-IsQueue :
      (m' : Mem) × (llq_add f msg len prio m ≡ ok tt m')
      × IsQueue m' (add_cell (new_cell f msg len) prio cs)
  unfolding llq_add access_wait access_post count_post
  llq_add-IsQueue = elim (Bool-cases (prio == 1)) [
    | inl e ↦
        let (m', run, ins) = add_to_head_lem held f msg len held-IsFresh h cs held-IsList in
        (_, simp (q.free, e, run), posted m m' cs (new_cell f msg len) prio q (rw e ins))
    | inr e ↦
        let (m', run, ins) = add_to_tail_lem held f msg len held-IsFresh h cs held-IsList in
        (_, simp (q.free, e, run), posted m m' cs (new_cell f msg len) prio q (rw e ins))
  ]

-- From an empty heap `llq_open` makes the empty queue.
pub llq_open-Represents :
    (m : Mem)
    → ((a : Ptr) → m.nodes a ≡ none)
    → ((a : Ptr) → m.bufs a ≡ none)
    → (m' : Mem) × (llq_open m ≡ ok tt m') × Represents m' []
unfolding llq_open
llq_open-Represents m p r = (
  record m { head = null; tail = null; access = 1; count = 0 },
  refl,
  (
    [],
    record {
      list = record {
        head_is = refl;
        tail_is = refl;
        chain = tt;
        no_node = λ a o. p a;
        no_data = λ a o. r a;
      };
      free = refl;
      counted = refl;
    },
    refl,
  ),
)

-- On a memory that represents a queue, with fresh memory for the message and at least `len` bytes
-- of it to copy, `llq_add` returns, and the memory represents the queue with the first `len` bytes
-- in front if `prio` is 1, and at the back if not.
pub llq_add-Represents :
    (m : Mem) (q : Deque) (f : Fresh) (msg : List ℕ) (len prio : ℕ)
    → Represents m q
    → IsFresh m f
    → len ≤ length msg
    → (m' : Mem) × (llq_add f msg len prio m ≡ ok tt m') × Represents m' (add (take len msg) prio q)
llq_add-Represents m q f msg len prio (cs, is, e) fresh h =
    let (m', run, is') = llq_add-IsQueue m f msg len prio cs is fresh h in
    let holds = messages-add cs (new_cell f msg len) prio in
    (m', run, (add_cell (new_cell f msg len) prio cs, is', holds ∙ ap (add (take len msg) prio) e))

-- What `llq_timedreceive` returns on a memory that represents `q`: with no message -1 (or it waits
-- for ever), and otherwise the first message's length, its bytes at the start of the buffer, and
-- a memory that represents the rest; but a message longer than the buffer overruns it.
abbrev pub Receives : Bool → List ℕ → Mem → Deque → Type 0
Receives timed buffer m [] =
    llq_timedreceive timed buffer m ≡ (if timed then ok (none, buffer) m else blocked)
Receives timed buffer m (msg ∷ q) =
    ((length msg ≤ length buffer)
      × (m' : Mem) × (llq_timedreceive timed buffer m
          ≡ ok (some (length msg), received msg buffer) m')
      × Represents m' q)
    ⊎ ((length buffer < length msg) × (llq_timedreceive timed buffer m ≡ fault))

le_or_lt : (a b : ℕ) → (a ≤ b) ⊎ (b < a)
le_or_lt a b = ground arith

-- A call of `llq_timedreceive`, with a timeout or, as `llq_receive`, without, on a memory that
-- represents a queue: with no message it returns -1 after the timeout, or waits for ever; a first
-- message that fits the caller's buffer is copied to its start, its length is returned, and the
-- memory represents the rest of the queue; a longer one overruns the buffer.
pub llq_timedreceive-Receives :
    (m : Mem) (q : Deque) (timed : Bool) (buffer : List ℕ)
    → Represents m q
    → Receives timed buffer m q
llq_timedreceive-Receives m [] timed buffer ([], is, e) = llq_timedreceive-nil m timed buffer is
llq_timedreceive-Receives m [] timed buffer (c ∷ cs, is, e) = absurd (cc e)
llq_timedreceive-Receives m (msg ∷ q) timed buffer ([], is, e) = absurd (cc e)
llq_timedreceive-Receives m (msg ∷ q) timed buffer (c ∷ cs, is, e) =
    let same : c.bytes ≡ msg = cc e in
    let rest : messages cs ≡ q = cc e in
    elim (le_or_lt (length msg) (length buffer)) [
      | inl fits ↦
          let (m', run, is') = llq_timedreceive-cons buffer timed cs is (rw same fits) in
          inl (fits, m', rw (← same) run, (cs, is', rest))
      | inr over ↦ inr (over, llq_timedreceive-overrun buffer timed cs is (rw same over))
    ]

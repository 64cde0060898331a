-- ===== src/Queue/Receive.antt =====
-- `llq_timedreceive` on a queue that holds a given sequence.
use znp_host_framework.Base.{
  ℕ, ◌-◌, ◌<◌, ◌≡◌, refl, ◌≢◌, ◌≤◌, ap, true, false, none, some, List, [], ◌∷◌, ◌++◌, arith, length,
  take, drop, Bool, if◌then◌else◌, leb, le→leb,
}
use znp_host_framework.Queue.Chain.{IsList, IsQueue, Chain, Cell, has_node, has_data, frame}
use znp_host_framework.Queue.{take_head, llq_timedreceive}
use znp_host_framework.Queue.Memory.{
  Ptr, null, Mem, ok, fault, blocked, write, get_node, memcpy_from, copy_over, free_node, free_data,
  set_head, set_tail, set_temp, access_wait, access_post, count_wait, count_timedwait,
}
use znp_host_framework.Queue.Add.{write_ne, ne_null}

-- The caller's buffer after a message has been copied to its start.
abbrev pub received : List ℕ → List ℕ → List ℕ
received msg buffer = msg ++ drop (length msg) buffer

take_all : (xs : List ℕ) → take (length xs) xs ≡ xs
take_all [] = refl
take_all (x ∷ xs) = ap (λ ys. x ∷ ys) (take_all xs)

copy_message :
    (buffer msg : List ℕ)
    → length msg ≤ length buffer
    → copy_over buffer msg (length msg) ≡ some (received msg buffer)
unfolding copy_over
copy_message buffer msg h =
    rw (le→leb _ _ h, le→leb (length msg) (length msg) (omega arith), take_all) refl

-- The memory once the head cell is freed and the next one is the head.
abbrev unlinked : Mem → Cell → Mem
unlinked m c = record m { nodes = write m.nodes c.node_at none; bufs = write m.bufs c.data_at none }

pub apart_node :
    (c : Cell) (cs : List Cell) (a : Ptr)
    → has_node c.node_at cs ≡ false
    → has_node a cs ≡ true
    → a ≢ c.node_at
apart_node c cs a out i e = cc (out, i, ap (λ x. has_node x cs) e)

pub apart_data :
    (c : Cell) (cs : List Cell) (a : Ptr)
    → has_data c.data_at cs ≡ false
    → has_data a cs ≡ true
    → a ≢ c.data_at
apart_data c cs a out i e = cc (out, i, ap (λ x. has_data x cs) e)

module _ {m : Mem} {c : Cell} {cs : List Cell} (l : IsList m (c ∷ cs)) where
  chain-unlinked : Chain (unlinked m c).nodes (unlinked m c).bufs cs
  chain-unlinked =
      let (h, out, out', rest) = l.chain in
      frame cs (λ a i. write_ne m.nodes c.node_at a none (apart_node c cs a out i))
        (λ a i. write_ne m.bufs c.data_at a none (apart_data c cs a out' i)) rest

  no_node-unlinked : (a : Ptr) → has_node a cs ≡ false → (unlinked m c).nodes a ≡ none
  unfolding write
  no_node-unlinked a o = ground (arith, l.no_node a)

  no_data-unlinked : (a : Ptr) → has_data a cs ≡ false → (unlinked m c).bufs a ≡ none
  unfolding write
  no_data-unlinked a o = ground (arith, l.no_data a)

-- The memory after the whole call.
after : Mem → Cell → List Cell → Mem
after m c [] = record (unlinked m c) { head = null; tail = null; temp = null; count = m.count - 1 }
after m c (d ∷ cs) = record (unlinked m c) {
  head = d.node_at;
  temp = d.node_at;
  count = m.count - 1;
}

module _ {m : Mem} {c : Cell} (buffer : List ℕ) where
  after-IsQueue : (cs : List Cell) → IsQueue m (c ∷ cs) → IsQueue (after m c cs) cs
  unfolding after
  after-IsQueue [] q = record {
    list = record {
      head_is = refl;
      tail_is = refl;
      chain = tt;
      no_node = no_node-unlinked q.list;
      no_data = no_data-unlinked q.list;
    };
    free = q.free;
    counted = omega (arith, q.counted);
  }
  after-IsQueue (d ∷ cs) q = record {
    list = record {
      head_is = refl;
      tail_is = q.list.tail_is;
      chain = chain-unlinked q.list;
      no_node = no_node-unlinked q.list;
      no_data = no_data-unlinked q.list;
    };
    free = q.free;
    counted = omega (arith, q.counted);
  }

  -- The head is copied out, unlinked and freed.
  take_head-run :
      (cs : List Cell)
      → IsQueue m (c ∷ cs)
      → length c.bytes ≤ length buffer
      → take_head buffer (record m { count = m.count - 1 })
        ≡ ok (some (length c.bytes), received c.bytes buffer) (after m c cs)
  unfolding after take_head get_node memcpy_from free_node free_data set_head set_tail set_temp
      access_wait access_post
  take_head-run [] q fits =
      let h = q.list.chain.0 in
      simp (
        q.list.head_is,
        ne_null _ h.node_ne_null,
        ne_null _ h.data_ne_null,
        h.node_is,
        h.data_is,
        q.free,
        copy_message buffer c.bytes fits,
      )
  take_head-run (d ∷ cs) q fits =
      let (h, out, out', rest) = q.list.chain in
      simp (
        q.list.head_is,
        ne_null _ h.node_ne_null,
        ne_null _ h.data_ne_null,
        ne_null _ rest.0.node_ne_null,
        h.node_is,
        h.data_is,
        q.free,
        copy_message buffer c.bytes fits,
      )

  waiting : (cs : List Cell) → IsQueue m (c ∷ cs) → m.count ≢ 0
  waiting cs q = omega (arith, q.counted)

  overrun :
      (cs : List Cell)
      → IsQueue m (c ∷ cs)
      → length buffer < length c.bytes
      → take_head buffer (record m { count = m.count - 1 }) ≡ fault
  unfolding take_head get_node memcpy_from set_temp access_wait copy_over
  overrun cs q h =
      let l = q.list.chain.0 in
      let short : leb (length c.bytes) (length buffer) ≡ false = ground arith in
      simp (
        q.list.head_is,
        ne_null _ l.node_ne_null,
        ne_null _ l.data_ne_null,
        l.node_is,
        l.data_is,
        q.free,
        short,
      )

  -- With a message in the queue the wait ends at once, and the message comes out whole.
  pub llq_timedreceive-cons :
      (timed : Bool) (cs : List Cell)
      → IsQueue m (c ∷ cs)
      → length c.bytes ≤ length buffer
      → (m' : Mem) × (llq_timedreceive timed buffer m
          ≡ ok (some (length c.bytes), received c.bytes buffer) m')
        × IsQueue m' cs
  unfolding llq_timedreceive count_wait count_timedwait
  llq_timedreceive-cons true cs q fits = (
    after m c cs,
    rw (ne_null m.count (waiting cs q)) (take_head-run cs q fits),
    after-IsQueue cs q,
  )
  llq_timedreceive-cons false cs q fits = (
    after m c cs,
    rw (ne_null m.count (waiting cs q)) (take_head-run cs q fits),
    after-IsQueue cs q,
  )

  -- The copy ignores `maxLength`: a message longer than the caller's buffer overruns it.
  pub llq_timedreceive-overrun :
      (timed : Bool) (cs : List Cell)
      → IsQueue m (c ∷ cs)
      → length buffer < length c.bytes
      → llq_timedreceive timed buffer m ≡ fault
  unfolding llq_timedreceive count_wait count_timedwait
  llq_timedreceive-overrun true cs q h = rw (ne_null m.count (waiting cs q)) (overrun cs q h)
  llq_timedreceive-overrun false cs q h = rw (ne_null m.count (waiting cs q)) (overrun cs q h)

-- With no message a timed call gives up and changes nothing, and an untimed one waits for ever.
pub llq_timedreceive-nil :
    (m : Mem) (timed : Bool) (buffer : List ℕ)
    → IsQueue m []
    → llq_timedreceive timed buffer m ≡ (if timed then ok (none, buffer) m else blocked)
unfolding llq_timedreceive count_wait count_timedwait
llq_timedreceive-nil m true buffer q = rw q.counted
llq_timedreceive-nil m false buffer q = rw q.counted

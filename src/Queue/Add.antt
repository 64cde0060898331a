-- ===== src/Queue/Add.antt =====
-- `addToHead` and `addToTail` on a queue that holds a given sequence.
use mathlib.Core.Path.{fun_ext}
use mathlib.Core.List.{append-nil}
use znp_host_framework.Base.{
  ℕ, ◌≡◌, refl, ◌≢◌, ◌≤◌, sym, ◌∙◌, false, some, Option, List, [], arith, ◌==◌, length, take, drop,
  replicate, length-replicate, zero, suc, le→leb,
}
use znp_host_framework.Queue.Chain.{Nodes}
use znp_host_framework.Queue.{fill_data, add_to_head, add_to_tail}
use znp_host_framework.Queue.Memory.{
  Ptr, null, Node, node, Mem, Fresh, ok, write, new_node, new_data, set_ptr, set_data, set_length,
  set_head, set_tail, set_temp, memcpy_to, copy_over,
}

-- Memory was available.
pub record Allocated (f : Fresh) : Type 0 where
  pub node_ne_null : f.node_at ≢ null
  pub data_ne_null : f.data_at ≢ null

module _ {ℓ} {A : Type ℓ} where
  pub write_self : (f : Ptr → Option A) (p : Ptr) (c : Option A) → write f p c p ≡ c
  unfolding write
  write_self f p c = ground arith

  pub write_ne : (f : Ptr → Option A) (p q : Ptr) (c : Option A) → q ≢ p → write f p c q ≡ f q
  unfolding write
  write_ne f p q c h = ground arith

  write-write :
      (f : Ptr → Option A) (p : Ptr) (c d : Option A) → write (write f p c) p d ≡ write f p d
  unfolding write
  write-write f p c d = fun_ext λ a. ground arith

drop-replicate : (n : ℕ) → drop n (replicate {A = ℕ} n 0) ≡ []
drop-replicate zero = refl
drop-replicate (suc n) = drop-replicate n

pub ne_null : (p : Ptr) → p ≢ null → (p == null) ≡ false
ne_null p h = ground arith

-- A buffer of the right size is overwritten whole.
copy_all :
    (msg : List ℕ) (len : ℕ)
    → len ≤ length msg
    → copy_over (replicate len 0) msg len ≡ some (take len msg)
unfolding copy_over
copy_all msg len h =
    rw
      (
        length-replicate {A = ℕ} len 0,
        le→leb len len (omega arith),
        le→leb len (length msg) h,
        drop-replicate len,
        append-nil,
      )
      refl

fill_data-run :
    (m : Mem) (p : Ptr) (f : Fresh) (msg : List ℕ) (len : ℕ) (n : Node)
    → Allocated f
    → p ≢ null
    → len ≤ length msg
    → m.nodes p ≡ some n
    → fill_data p f msg len m
      ≡ ok tt (record m {
        nodes = write m.nodes p (some (node n.ptr f.data_at len));
        bufs = write m.bufs f.data_at (some (take len msg));
      })
unfolding fill_data new_data set_data set_length memcpy_to
fill_data-run m p f msg len n a hp hl e =
    simp (ne_null _ a.data_ne_null, ne_null p hp, e, write_self, write-write, copy_all msg len hl)

-- After an insertion the node is linked to `next`, its buffer holds the message, and the rest of
-- the heap is as before.
abbrev pub inserted : Mem → Fresh → List ℕ → ℕ → Ptr → Mem
inserted m f msg len next = record m {
  nodes = write m.nodes f.node_at (some (node next f.data_at len));
  bufs = write m.bufs f.data_at (some (take len msg));
}

module _ (m : Mem) (f : Fresh) (msg : List ℕ) (len : ℕ) (a : Allocated f)
    (hl : len ≤ length msg) where
  pub add_to_head-empty :
      m.head ≡ null
      → add_to_head f msg len m
        ≡ ok tt (record (inserted m f msg len null) { head = f.node_at; tail = f.node_at })
  unfolding add_to_head new_node set_head set_ptr set_tail
  add_to_head-empty e = simp (
    e,
    ne_null _ a.node_ne_null,
    write_self,
    write-write,
    fill_data-run
        (record m {
          nodes = write m.nodes f.node_at (some (record f.junk { ptr = null }));
          head = f.node_at;
        })
        f.node_at f msg len (record f.junk { ptr = null }) a a.node_ne_null hl (write_self _ _ _),
  )

  pub add_to_head-cons :
      m.head ≢ null
      → add_to_head f msg len m
        ≡ ok tt (record (inserted m f msg len m.head) { head = f.node_at; temp = f.node_at })
  unfolding add_to_head new_node set_head set_ptr set_temp
  add_to_head-cons e = simp (
    ne_null _ e,
    ne_null _ a.node_ne_null,
    write_self,
    write-write,
    fill_data-run
        (record m {
          nodes = write m.nodes f.node_at (some (record f.junk { ptr = m.head }));
          temp = f.node_at;
        })
        f.node_at f msg len (record f.junk { ptr = m.head }) a a.node_ne_null hl (write_self _ _ _),
  )

  pub add_to_tail-empty :
      m.tail ≡ null
      → add_to_tail f msg len m
        ≡ ok tt (record (inserted m f msg len null) { head = f.node_at; tail = f.node_at })
  unfolding add_to_tail new_node set_head set_ptr set_tail
  add_to_tail-empty e = simp (
    e,
    ne_null _ a.node_ne_null,
    write_self,
    write-write,
    fill_data-run
        (record m {
          nodes = write m.nodes f.node_at (some (record f.junk { ptr = null }));
          tail = f.node_at;
        })
        f.node_at f msg len (record f.junk { ptr = null }) a a.node_ne_null hl (write_self _ _ _),
  )

  -- The nodes when a message has been put behind the node `n` at the tail.
  abbrev pub appended : Node → Nodes
  appended n =
      write
        (write (write m.nodes f.node_at (some f.junk)) m.tail
          (some (node f.node_at n.data_at n.length)))
        f.node_at (some (node null f.data_at len))

  pub add_to_tail-snoc :
      (n : Node)
      → m.tail ≢ null
      → m.tail ≢ f.node_at
      → m.nodes m.tail ≡ some n
      → add_to_tail f msg len m
        ≡ ok tt (record m {
          nodes = appended n;
          bufs = write m.bufs f.data_at (some (take len msg));
          tail = f.node_at;
          temp = f.node_at;
        })
  unfolding add_to_tail new_node set_head set_ptr set_temp set_tail
  add_to_tail-snoc n e d h =
      let before = write m.nodes f.node_at (some f.junk) in
      let linked = some (node f.node_at n.data_at n.length) in
      let junk_stays : write before m.tail linked f.node_at ≡ some f.junk =
        write_ne before m.tail f.node_at linked (λ x. d (sym x))
        ∙ write_self m.nodes f.node_at (some f.junk) in
      let m' = record m { nodes = write before m.tail linked; temp = f.node_at } in
      simp (
        ne_null _ e,
        ne_null _ a.node_ne_null,
        write_ne m.nodes f.node_at m.tail (some f.junk) d,
        h,
        write_self,
        write-write,
        fill_data-run m' f.node_at f msg len f.junk a a.node_ne_null hl junk_stays,
      )

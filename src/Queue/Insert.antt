-- ===== src/Queue/Insert.antt =====
-- The list of the queue after `addToHead` and `addToTail`.
use znp_host_framework.Base.{
  ℕ, ◌≡◌, refl, ◌≢◌, ◌≤◌, sym, ◌∙◌, ap, true, none, some, Option, List, [], ◌∷◌, ◌++◌, arith, ◌==◌,
  length, take, length-take, if◌then◌else◌,
}
use znp_host_framework.Queue.Chain.{
  Nodes, Bufs, IsList, Cell, Holds, first, last, has_node, has_data, frame, has_node-last,
  not_has_node, not_has_data, end_of_chain, snoc, not_has_node-snoc, not_has_data-snoc, ne-last,
}
use znp_host_framework.Queue.{add_to_head, add_to_tail}
use znp_host_framework.Queue.Memory.{Ptr, null, Node, node, Mem, Fresh, ok, write}
use znp_host_framework.Queue.Add.{
  Allocated, write_self, write_ne, inserted, appended, add_to_head-empty, add_to_head-cons,
  add_to_tail-empty, add_to_tail-snoc,
}

-- What the two calls of `malloc` promise: addresses that are not null and not in use.
pub record IsFresh (m : Mem) (f : Fresh) : Type 0 where
  pub allocated : Allocated f
  pub node_unused : m.nodes f.node_at ≡ none
  pub data_unused : m.bufs f.data_at ≡ none

abbrev pub new_cell : Fresh → List ℕ → ℕ → Cell
new_cell f msg len = record { node_at = f.node_at; data_at = f.data_at; bytes = take len msg }

take_len : (msg : List ℕ) (len : ℕ) → len ≤ length msg → length (take len msg) ≡ len
take_len msg len h = omega (arith, length-take len msg)

module _ (m : Mem) (f : Fresh) (msg : List ℕ) (len : ℕ) (fresh : IsFresh m f)
    (hl : len ≤ length msg) where
  -- The new cell, wherever its node and buffer were written last.
  new-Holds :
      (nodes : Nodes) (bufs : Bufs) (next : Ptr)
      → Holds
          (write nodes f.node_at (some (node next f.data_at len)))
          (write bufs f.data_at (some (take len msg)))
          (new_cell f msg len)
          next
  new-Holds nodes bufs next = record {
    node_ne_null = fresh.allocated.node_ne_null;
    data_ne_null = fresh.allocated.data_ne_null;
    node_is =
        write_self nodes f.node_at _
        ∙ ap (λ k. some (node next f.data_at k)) (sym (take_len msg len hl));
    data_is = write_self bufs f.data_at _;
  }

  -- Writes at the fresh addresses spare a list that is there.
  spare_node :
      (cs : List Cell) (c : Option Node)
      → IsList m cs
      → (a : Ptr) → has_node a cs ≡ true
      → write m.nodes f.node_at c a ≡ m.nodes a
  unfolding write
  spare_node cs c l a i =
      ground (arith, not_has_node m.nodes m.bufs f.node_at cs l.chain fresh.node_unused)

  spare_data :
      (cs : List Cell) (c : Option (List ℕ))
      → IsList m cs
      → (a : Ptr) → has_data a cs ≡ true
      → write m.bufs f.data_at c a ≡ m.bufs a
  unfolding write
  spare_data cs c l a i =
      ground (arith, not_has_data m.nodes m.bufs f.data_at cs l.chain fresh.data_unused)

  cons-IsList :
      (cs : List Cell) (tail temp : Ptr)
      → IsList m cs
      → tail ≡ last (new_cell f msg len ∷ cs)
      → IsList
          (record (inserted m f msg len (first cs)) { head = f.node_at; tail = tail; temp = temp })
          (new_cell f msg len ∷ cs)
  unfolding write
  cons-IsList cs tail temp l e = record {
    head_is = refl;
    tail_is = e;
    chain = (
      new-Holds m.nodes m.bufs (first cs),
      not_has_node m.nodes m.bufs f.node_at cs l.chain fresh.node_unused,
      not_has_data m.nodes m.bufs f.data_at cs l.chain fresh.data_unused,
      frame cs (spare_node cs _ l) (spare_data cs _ l) l.chain,
    );
    no_node = λ a out. ground (arith, l.no_node a);
    no_data = λ a out. ground (arith, l.no_data a);
  }

  tail-ne_fresh : (c : Cell) (cs : List Cell) → IsList m (c ∷ cs) → last (c ∷ cs) ≢ f.node_at
  tail-ne_fresh c cs l e =
      let out = not_has_node m.nodes m.bufs f.node_at (c ∷ cs) l.chain fresh.node_unused in
      cc (out, has_node-last c cs, ap (λ a. has_node a (c ∷ cs)) e)

  snoc-IsList :
      (c : Cell) (cs : List Cell) (n : Node)
      → IsList m (c ∷ cs)
      → m.nodes m.tail ≡ some n
      → IsList
          (record m {
            nodes = appended m f msg len fresh.allocated hl n;
            bufs = write m.bufs f.data_at (some (take len msg));
            tail = f.node_at;
            temp = f.node_at;
          })
          (c ∷ cs ++ new_cell f msg len ∷ [])
  unfolding write
  snoc-IsList c cs n l e =
      let out = not_has_node m.nodes m.bufs f.node_at (c ∷ cs) l.chain fresh.node_unused in
      let out' = not_has_data m.nodes m.bufs f.data_at (c ∷ cs) l.chain fresh.data_unused in
      let apart = tail-ne_fresh c cs l in
      record {
        head_is = l.head_is;
        tail_is = last-snoc c cs;
        chain =
            snoc c (new_cell f msg len) cs n l.chain (new-Holds _ _ null) out out'
              (rw (← l.tail_is) e) (ground (arith, l.tail_is)) (λ a i d. ground (arith, l.tail_is))
              (spare_data (c ∷ cs) _ l);
        no_node = λ a o.
            let (old, ne) = not_has_node-snoc a (c ∷ cs) (new_cell f msg len) o in
            let before = write m.nodes f.node_at (some f.junk) in
            let linked = some (node f.node_at n.data_at n.length) in
            write_ne (write before m.tail linked) f.node_at a _ ne
            ∙ write_ne before m.tail a linked (λ q. ne-last a c cs old (q ∙ l.tail_is))
            ∙ write_ne m.nodes f.node_at a (some f.junk) ne
            ∙ l.no_node a old;
        no_data = λ a o.
            let (old, ne) = not_has_data-snoc a (c ∷ cs) (new_cell f msg len) o in
            write_ne m.bufs f.data_at a _ ne ∙ l.no_data a old;
      }
    where
      last-snoc : (c : Cell) (cs : List Cell) → f.node_at ≡ last (c ∷ cs ++ new_cell f msg len ∷ [])
      last-snoc c [] = refl
      last-snoc c (d ∷ cs) = last-snoc d cs

-- The cells after `llq_add`: in front for priority 1, at the back for any other.
abbrev pub add_cell : Cell → ℕ → List Cell → List Cell
add_cell c prio cs = if prio == 1 then c ∷ cs else cs ++ c ∷ []

-- What `addToHead` and `addToTail` do to the list: they return, with the new cell at their end.
pub record Inserted (m m' : Mem) (ds : List Cell) : Type 0 where
  pub list : IsList m' ds
  pub same_access : m'.access ≡ m.access
  pub same_count : m'.count ≡ m.count

module _ (m : Mem) (f : Fresh) (msg : List ℕ) (len : ℕ) (fresh : IsFresh m f)
    (hl : len ≤ length msg) where
  pub add_to_head_lem :
      (cs : List Cell)
      → IsList m cs
      → (m' : Mem) × (add_to_head f msg len m ≡ ok tt m') × Inserted m m' (new_cell f msg len ∷ cs)
  add_to_head_lem [] l = (
    _,
    add_to_head-empty m f msg len fresh.allocated hl l.head_is,
    record {
      list = cons-IsList m f msg len fresh hl [] f.node_at m.temp l refl;
      same_access = refl;
      same_count = refl;
    },
  )
  add_to_head_lem (c ∷ cs) l = (
    _,
    add_to_head-cons m f msg len fresh.allocated hl (rw l.head_is l.chain.0.node_ne_null),
    record {
      list = rw l.head_is (cons-IsList m f msg len fresh hl (c ∷ cs) m.tail f.node_at l l.tail_is);
      same_access = refl;
      same_count = refl;
    },
  )

  pub add_to_tail_lem :
      (cs : List Cell)
      → IsList m cs
      → (m' : Mem) × (add_to_tail f msg len m ≡ ok tt m')
        × Inserted m m' (cs ++ new_cell f msg len ∷ [])
  add_to_tail_lem [] l = (
    _,
    add_to_tail-empty m f msg len fresh.allocated hl l.tail_is,
    record {
      list = cons-IsList m f msg len fresh hl [] f.node_at m.temp l refl;
      same_access = refl;
      same_count = refl;
    },
  )
  add_to_tail_lem (c ∷ cs) l =
      let (d, ne, is) = end_of_chain m.nodes m.bufs c cs l.chain in
      let n = node null d.data_at (length d.bytes) in
      let at_tail : m.nodes m.tail ≡ some n = rw l.tail_is is in
      let apart : m.tail ≢ f.node_at = rw l.tail_is (tail-ne_fresh m f msg len fresh hl c cs l) in
      (
        _,
        add_to_tail-snoc m f msg len fresh.allocated hl n (rw l.tail_is ne) apart at_tail,
        record {
          list = snoc-IsList m f msg len fresh hl c cs n l at_tail;
          same_access = refl;
          same_count = refl;
        },
      )

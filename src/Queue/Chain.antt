-- ===== src/Queue/Chain.antt =====
-- When the memory of framework/rpc/queue.c holds a given sequence of messages, and nothing else.
use znp_host_framework.Base.{
  ℕ, ◌≡◌, refl, ap, ◌∙◌, ◌≢◌, Bool, true, false, ◌||◌, Option, none, some, List, [], ◌∷◌, ◌++◌,
  arith, ◌==◌, length,
}
use znp_host_framework.Queue.Memory.{Ptr, null, Node, node, Mem}

-- One message: where its node and its buffer are, and its bytes.
pub record Cell : Type 0 where
  pub node_at : Ptr
  pub data_at : Ptr
  pub bytes : List ℕ

abbrev pub first : List Cell → Ptr
first [] = null
first (c ∷ cs) = c.node_at

abbrev pub last : List Cell → Ptr
last [] = null
last (c ∷ []) = c.node_at
last (c ∷ d ∷ cs) = last (d ∷ cs)

abbrev pub has_node : Ptr → List Cell → Bool
has_node p [] = false
has_node p (c ∷ cs) = (p == c.node_at) || has_node p cs

abbrev pub has_data : Ptr → List Cell → Bool
has_data p [] = false
has_data p (c ∷ cs) = (p == c.data_at) || has_data p cs

abbrev pub Nodes : Type 0
Nodes = Ptr → Option Node

abbrev pub Bufs : Type 0
Bufs = Ptr → Option (List ℕ)

-- The node and the buffer of one message, with the address of the next node.
pub record Holds (nodes : Nodes) (bufs : Bufs) (c : Cell) (next : Ptr) : Type 0 where
  pub node_ne_null : c.node_at ≢ null
  pub data_ne_null : c.data_at ≢ null
  pub node_is : nodes c.node_at ≡ some (node next c.data_at (length c.bytes))
  pub data_is : bufs c.data_at ≡ some c.bytes

-- Nodes linked in order, all addresses distinct.
abbrev pub Chain : Nodes → Bufs → List Cell → Type 0
Chain nodes bufs [] = Unit
Chain nodes bufs (c ∷ cs) =
    Holds nodes bufs c (first cs)
    × (has_node c.node_at cs ≡ false)
    × (has_data c.data_at cs ≡ false)
    × Chain nodes bufs cs

-- The list of the queue, which owns exactly the memory of its cells.
pub record IsList (m : Mem) (cs : List Cell) : Type 0 where
  pub head_is : m.head ≡ first cs
  pub tail_is : m.tail ≡ last cs
  pub chain : Chain m.nodes m.bufs cs
  pub no_node : (a : Ptr) → has_node a cs ≡ false → m.nodes a ≡ none
  pub no_data : (a : Ptr) → has_data a cs ≡ false → m.bufs a ≡ none

-- The queue at rest: nobody holds it, and it counts its messages.
pub record IsQueue (m : Mem) (cs : List Cell) : Type 0 where
  pub list : IsList m cs
  pub free : m.access ≡ 1
  pub counted : m.count ≡ length cs

-- The messages of the cells, in order.
abbrev pub messages : List Cell → List (List ℕ)
messages [] = []
messages (c ∷ cs) = c.bytes ∷ messages cs

-- A chain depends only on the addresses of its cells.
pub frame :
    {nodes nodes' : Nodes} {bufs bufs' : Bufs} (cs : List Cell)
    → ((a : Ptr) → has_node a cs ≡ true → nodes' a ≡ nodes a)
    → ((a : Ptr) → has_data a cs ≡ true → bufs' a ≡ bufs a)
    → Chain nodes bufs cs
    → Chain nodes' bufs' cs
frame [] p q h = tt
frame (c ∷ cs) p q (h, out, out', rest) = (
  record {
    node_ne_null = h.node_ne_null;
    data_ne_null = h.data_ne_null;
    node_is = ground (arith, p c.node_at, h.node_is);
    data_is = ground (arith, q c.data_at, h.data_is);
  },
  out,
  out',
  frame cs (λ a i. p a (ground arith)) (λ a i. q a (ground arith)) rest,
)

pub has_node-last : (c : Cell) (cs : List Cell) → has_node (last (c ∷ cs)) (c ∷ cs) ≡ true
has_node-last c [] = ground arith
has_node-last c (d ∷ cs) = ground (arith, has_node-last d cs)

pub length-messages : (cs : List Cell) → length (messages cs) ≡ length cs
length-messages [] = refl
length-messages (c ∷ cs) = ground (arith, length-messages cs)

-- An address where no node is belongs to no cell.
pub not_has_node :
    (nodes : Nodes) (bufs : Bufs) (p : Ptr) (cs : List Cell)
    → Chain nodes bufs cs
    → nodes p ≡ none
    → has_node p cs ≡ false
not_has_node nodes bufs p [] h e = refl
not_has_node nodes bufs p (c ∷ cs) (h, out, out', rest) e =
    ground (arith, h.node_is, not_has_node nodes bufs p cs rest e)

pub not_has_data :
    (nodes : Nodes) (bufs : Bufs) (p : Ptr) (cs : List Cell)
    → Chain nodes bufs cs
    → bufs p ≡ none
    → has_data p cs ≡ false
not_has_data nodes bufs p [] h e = refl
not_has_data nodes bufs p (c ∷ cs) (h, out, out', rest) e =
    ground (arith, h.data_is, not_has_data nodes bufs p cs rest e)

pub has_node-append :
    (p : Ptr) (cs ds : List Cell) → has_node p (cs ++ ds) ≡ (has_node p cs || has_node p ds)
has_node-append p [] ds = refl
has_node-append p (c ∷ cs) ds = ground (arith, has_node-append p cs ds)

pub has_data-append :
    (p : Ptr) (cs ds : List Cell) → has_data p (cs ++ ds) ≡ (has_data p cs || has_data p ds)
has_data-append p [] ds = refl
has_data-append p (c ∷ cs) ds = ground (arith, has_data-append p cs ds)

-- What the last node of a chain holds.
pub end_of_chain :
    (nodes : Nodes) (bufs : Bufs) (c : Cell) (cs : List Cell)
    → Chain nodes bufs (c ∷ cs)
    → (d : Cell) × (last (c ∷ cs) ≢ null)
      × (nodes (last (c ∷ cs)) ≡ some (node null d.data_at (length d.bytes)))
end_of_chain nodes bufs c [] (h, out, out', rest) = (c, h.node_ne_null, h.node_is)
end_of_chain nodes bufs c (d ∷ cs) (h, out, out', rest) = end_of_chain nodes bufs d cs rest

has_node-first : (c : Cell) (cs : List Cell) → has_node c.node_at (c ∷ cs) ≡ true
has_node-first c cs = ground arith

has_data-first : (c : Cell) (cs : List Cell) → has_data c.data_at (c ∷ cs) ≡ true
has_data-first c cs = ground arith

pub ne-last :
    (p : Ptr) (c : Cell) (cs : List Cell) → has_node p (c ∷ cs) ≡ false → p ≢ last (c ∷ cs)
ne-last p c cs out e = cc (ap (λ a. has_node a (c ∷ cs)) e, has_node-last c cs)

-- The last node may be linked to a new cell.
pub snoc :
    {nodes nodes' : Nodes} {bufs bufs' : Bufs} (c e : Cell) (cs : List Cell) (n : Node)
    → Chain nodes bufs (c ∷ cs)
    → Holds nodes' bufs' e null
    → has_node e.node_at (c ∷ cs) ≡ false
    → has_data e.data_at (c ∷ cs) ≡ false
    → nodes (last (c ∷ cs)) ≡ some n
    → nodes' (last (c ∷ cs)) ≡ some (node e.node_at n.data_at n.length)
    → ((a : Ptr) → has_node a (c ∷ cs) ≡ true → a ≢ last (c ∷ cs) → nodes' a ≡ nodes a)
    → ((a : Ptr) → has_data a (c ∷ cs) ≡ true → bufs' a ≡ bufs a)
    → Chain nodes' bufs' (c ∷ cs ++ e ∷ [])
snoc c e [] n (h, out, out', rest) he on od old new p q = (
  record {
    node_ne_null = h.node_ne_null;
    data_ne_null = h.data_ne_null;
    node_is = ground (arith, h.node_is);
    data_is = ground (arith, q c.data_at, h.data_is);
  },
  ground arith,
  ground arith,
  (he, refl, refl, tt),
)
snoc c e (d ∷ cs) n (h, out, out', rest) he on od old new p q = (
  record {
    node_ne_null = h.node_ne_null;
    data_ne_null = h.data_ne_null;
    node_is = p c.node_at (has_node-first c (d ∷ cs)) (ne-last c.node_at d cs out) ∙ h.node_is;
    data_is = q c.data_at (has_data-first c (d ∷ cs)) ∙ h.data_is;
  },
  ground (arith, has_node-append c.node_at (d ∷ cs) (e ∷ [])),
  ground (arith, has_data-append c.data_at (d ∷ cs) (e ∷ [])),
  snoc d e cs n rest he (ground arith) (ground arith) old new (λ a i. p a (ground arith))
      (λ a i. q a (ground arith)),
)

pub not_has_node-snoc :
    (a : Ptr) (cs : List Cell) (e : Cell)
    → has_node a (cs ++ e ∷ []) ≡ false
    → (has_node a cs ≡ false) × (a ≢ e.node_at)
not_has_node-snoc a cs e h =
    let split = has_node-append a cs (e ∷ []) in (ground (arith, split), ground (arith, split))

pub not_has_data-snoc :
    (a : Ptr) (cs : List Cell) (e : Cell)
    → has_data a (cs ++ e ∷ []) ≡ false
    → (has_data a cs ≡ false) × (a ≢ e.data_at)
not_has_data-snoc a cs e h =
    let split = has_data-append a cs (e ∷ []) in (ground (arith, split), ground (arith, split))

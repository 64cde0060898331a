-- ===== src/Queue/Tests.antt =====
-- The queue on a small heap: two messages go in, the second in front of the first.
use znp_host_framework.Base.{
  inl, inr, ℕ, ◌≡◌, refl, true, false, none, some, Option, List, [], ◌∷◌, arith, if◌then◌else◌,
  ◌==◌,
}
use znp_host_framework.Queue.{
  llq_open, llq_add, llq_receive, llq_timedreceive, add_to_head, add_to_tail, fill_data, take_head,
}
use znp_host_framework.Queue.Memory.{
  node, Mem, Fresh, Run, ok, fault, blocked, ◌>>◌, Cmd, write, new_node, new_data, get_node,
  put_node, set_ptr, set_data, set_length, set_head, set_tail, set_temp, get_buf, copy_over,
  put_buf, memcpy_to, or_fault, memcpy_from, free_node, free_data, access_wait, access_post,
  count_wait, count_timedwait, count_post,
}
use znp_host_framework.Queue.Insert.{IsFresh}
use znp_host_framework.Queue.Refine.{
  Represents, Receives, llq_add-Represents, llq_timedreceive-Receives,
}
use znp_host_framework.Queue.Runs.{Reach, opened, added, took, Reach-Represents, Reach-no_leak}

abbrev nothing : Mem
nothing = record {
  nodes = λ a. none;
  bufs = λ a. none;
  head = 5;
  tail = 6;
  temp = 7;
  access = 0;
  count = 9;
}

abbrev empty : Mem
empty = record nothing { head = 0; tail = 0; access = 1; count = 0 }

abbrev one : Fresh
one = record { node_at = 10; data_at = 11; junk = node 1 2 3 }

abbrev two : Fresh
two = record { node_at = 20; data_at = 21; junk = node 1 2 3 }

abbrev buffer : List ℕ
buffer = 0 ∷ 0 ∷ 0 ∷ 0 ∷ []

session : Cmd (Option ℕ × List ℕ)
unfolding llq_open llq_add llq_receive llq_timedreceive add_to_head add_to_tail fill_data take_head
    write new_node new_data get_node put_node set_ptr set_data set_length set_head set_tail set_temp
    get_buf copy_over put_buf memcpy_to or_fault memcpy_from free_node free_data access_wait
    access_post count_wait count_timedwait count_post
session = do
  llq_open
  llq_add one (1 ∷ 2 ∷ []) 2 0
  llq_add two (7 ∷ 8 ∷ 9 ∷ []) 3 1
  llq_receive buffer
  llq_timedreceive true buffer

result : {A : Type 0} → Run A → Option A
result (ok a m) = some a
result fault = none
result blocked = none

session_result : result (session nothing) ≡ some (some 2, 1 ∷ 2 ∷ 0 ∷ 0 ∷ [])
unfolding session result
session_result = refl

empty-Represents : Represents empty []
empty-Represents = (
  [],
  record {
    list = record {
      head_is = refl;
      tail_is = refl;
      chain = tt;
      no_node = λ a o. refl;
      no_data = λ a o. refl;
    };
    free = refl;
    counted = refl;
  },
  refl,
)

one-IsFresh : IsFresh empty one
one-IsFresh = record {
  allocated = record { node_ne_null = omega arith; data_ne_null = omega arith };
  node_unused = refl;
  data_unused = refl;
}

llq_add-Represents_example :
    (m' : Mem) × (llq_add one (1 ∷ 2 ∷ 3 ∷ []) 2 0 empty ≡ ok tt m')
    × Represents m' ((1 ∷ 2 ∷ []) ∷ [])
llq_add-Represents_example =
    llq_add-Represents empty [] one (1 ∷ 2 ∷ 3 ∷ []) 2 0 empty-Represents one-IsFresh (omega arith)

-- The memory with one message of two bytes.
abbrev holding : Mem
holding = record {
  nodes = λ a. if a == 10 then some (node 0 11 2) else none;
  bufs = λ a. if a == 11 then some (1 ∷ 2 ∷ []) else none;
  head = 10;
  tail = 10;
  temp = 7;
  access = 1;
  count = 1;
}

holding-Represents : Represents holding ((1 ∷ 2 ∷ []) ∷ [])
holding-Represents = (
  record { node_at = 10; data_at = 11; bytes = 1 ∷ 2 ∷ [] } ∷ [],
  record {
    list = record {
      head_is = refl;
      tail_is = refl;
      chain = (
        record {
          node_ne_null = omega arith;
          data_ne_null = omega arith;
          node_is = refl;
          data_is = refl;
        },
        refl,
        refl,
        tt,
      );
      no_node = λ a o. ground arith;
      no_data = λ a o. ground arith;
    };
    free = refl;
    counted = refl;
  },
  refl,
)

llq_timedreceive-Receives_example : Receives false buffer holding ((1 ∷ 2 ∷ []) ∷ [])
llq_timedreceive-Receives_example =
    llq_timedreceive-Receives holding ((1 ∷ 2 ∷ []) ∷ []) false buffer holding-Represents

-- One message in and out again.
reached : (m : Mem) × Reach m []
unfolding llq_open
reached =
    let start : Reach empty [] = opened nothing (λ a. refl) (λ a. refl) refl in
    let (m1, run1, h1) =
      llq_add-Represents empty [] one (1 ∷ 2 ∷ []) 2 0 empty-Represents one-IsFresh (omega arith) in
    elim (llq_timedreceive-Receives m1 ((1 ∷ 2 ∷ []) ∷ []) true buffer h1) [
      | inl (fits, m2, run2, h2) ↦ (
        m2,
        took true buffer (1 ∷ 2 ∷ 0 ∷ 0 ∷ []) (some 2)
            (added one (1 ∷ 2 ∷ []) 2 0 start one-IsFresh (omega arith) run1) run2,
      )
      | inr (long, overruns) ↦ absurd (omega (arith, long))
    ]

Reach-Represents_example : Represents reached.0 []
Reach-Represents_example = Reach-Represents reached.1

Reach-no_leak_example : (reached.0.nodes 10 ≡ none) × (reached.0.bufs 10 ≡ none)
Reach-no_leak_example = Reach-no_leak reached.1 10

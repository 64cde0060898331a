-- ===== src/Queue.antt =====
-- framework/rpc/queue.c: the linked list queue that hands RPC frames from the RPC thread to the
-- application thread. The heap is explicit; `Queue.Memory` has its commands.
pub mod Memory
pub mod Deque
pub mod Chain
pub mod Add
pub mod Insert
pub mod Receive
pub mod Refine
pub mod Runs
mod Tests
use znp_host_framework.Base.{ℕ, Bool, true, false, Option, none, some, List, ◌==◌, if◌then◌else◌}
use znp_host_framework.Queue.Memory.{
  Ptr, null, Mem, Fresh, Cmd, ok, pure, ◌>>=◌, ◌>>◌, get, new_node, new_data, get_node, set_ptr,
  set_data, set_length, set_head, set_tail, set_temp, memcpy_to, memcpy_from, free_node, free_data,
  access_wait, access_post, count_wait, count_timedwait, count_post,
}

-- The three lines that every branch of `addToHead` and `addToTail` has: the node's data buffer is
-- allocated, its length is noted, and the message is copied.
pub fill_data : Ptr → Fresh → List ℕ → ℕ → Cmd (Unit {0})
fill_data p f msg len = do
  d ← new_data f len
  set_data p d
  set_length p len
  n ← get_node p
  memcpy_to n.data_at msg len

-- `addToHead`
pub add_to_head : Fresh → List ℕ → ℕ → Cmd (Unit {0})
add_to_head f msg len = get >>= λ q.
    if q.head == null
    then (do p ← new_node f; set_head p; set_ptr p null; fill_data p f msg len; set_tail p)
    else (do p ← new_node f; set_temp p; set_ptr p q.head; fill_data p f msg len; set_head p)

-- `addToTail`
pub add_to_tail : Fresh → List ℕ → ℕ → Cmd (Unit {0})
add_to_tail f msg len = get >>= λ q.
    if q.tail == null
    then (do p ← new_node f; set_tail p; set_ptr p null; fill_data p f msg len; set_head p)
    else (do
      p ← new_node f
      set_temp p
      set_ptr q.tail p
      fill_data p f msg len
      set_ptr p null
      set_tail p)

-- `llq_open`
pub llq_open : Cmd (Unit {0})
llq_open m = ok tt (record m { head = null; tail = null; access = 1; count = 0 })

-- `llq_add`: `prio` 1 puts the message in front.
pub llq_add : Fresh → List ℕ → ℕ → ℕ → Cmd (Unit {0})
llq_add f msg len prio = do
  access_wait
  if prio == 1 then add_to_head f msg len else add_to_tail f msg len
  access_post
  count_post

-- The part of `llq_timedreceive` behind the wait for a message. The result is what the function
-- returns, with the caller's buffer.
pub take_head : List ℕ → Cmd (Option ℕ × List ℕ)
take_head buffer = get >>= λ q. if q.head == null then pure (some 0, buffer) else (do
  access_wait
  h ← get_node q.head
  set_temp h.ptr
  out ← memcpy_from buffer h.data_at h.length
  (if h.ptr == null
      then (do free_data h.data_at; free_node q.head; set_head null; set_tail null)
      else (do free_data h.data_at; free_node q.head; set_head h.ptr))
  access_post
  pure (some h.length, out))

-- `llq_timedreceive`, with a timeout or (`false`) without one. `none` is the return value -1.
pub llq_timedreceive : Bool → List ℕ → Cmd (Option ℕ × List ℕ)
llq_timedreceive timed buffer = (if timed then count_timedwait else count_wait) >>= λ came.
    if came then take_head buffer else pure (none, buffer)

-- `llq_receive`
pub llq_receive : List ℕ → Cmd (Option ℕ × List ℕ)
llq_receive buffer = llq_timedreceive false buffer

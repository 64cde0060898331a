-- ===== src/Rpc/Reading.antt =====
-- The reading loop of `rpcProcess`: whatever pieces the port delivers, the bytes end up in order.
use mathlib.Core.List.{append_assoc}
use mathlib.Core.Path.{ap₂}
use znp_host_framework.Base.{
  ℕ, zero, suc, ◌+◌, ◌-◌, ◌%◌, ◌<◌, ◌≤◌, ◌≡◌, refl, sym, ap, ◌∙◌, some, List, [], ◌∷◌, ◌++◌, leb,
  ltb, if◌then◌else◌, length, take, drop, true, false, min, arith, length-append, length-take,
  length-drop, take-append, drop-append, drop-add, take-append-drop,
}
use znp_host_framework.Base.Bytes.{overwrite-append}
use znp_host_framework.Rpc.{ReadEvent, fails, avail, done}
use znp_host_framework.Rpc.Transport.{rpc_transport_read}
use znp_host_framework.Rpc.Process.{more, after_read, read_round, read_loop}

-- A schedule that delivers `left` bytes, with `retries` failures so far and at most five in all,
-- and what is left of it then. Every read that succeeds finds something, and none fails while 255
-- bytes are left: -1 is 255 as a byte, and would be taken for a read of them all.
pub data Delivers : List ReadEvent → (left retries : ℕ) → List ReadEvent → Type 0 where
  whole : {s : List ReadEvent} {left retries : ℕ} → left ≡ 0 → Delivers s left retries s
  part :
      {s s' : List ReadEvent} {left retries : ℕ} (k : ℕ)
      → 0 < k
      → 0 < left
      → Delivers s (left - min k left) retries s'
      → Delivers (avail k ∷ s) left retries s'
  again :
      {s s' : List ReadEvent} {left retries : ℕ}
      → 0 < left
      → left < 255
      → retries < 5
      → Delivers s left (retries + 1) s'
      → Delivers (fails ∷ s) left retries s'

-- A round that gets the `n` bytes `xs`.
read_round-more :
    (front back xs rest : List ℕ) (n left retries : ℕ)
    → length xs ≡ n
    → n ≤ left
    → left ≤ length back
    → left < 256
    → read_round
        (record { ret = length xs % 256; bytes = xs; rest = rest })
        (front ++ back)
        (length front)
        left
        retries
      ≡ more (front ++ (xs ++ drop n back)) ((length front + n) % 256) (left - n) retries
unfolding read_round after_read
read_round-more front back xs rest n left retries size small room short =
    let same : n % 256 ≡ n = omega arith in
    let good : ltb left n ≡ false = ground arith in
    let count : (if ltb n left then left - n else 0) ≡ left - n = ground arith in
    rw (overwrite-append front back xs (omega arith), size, same, good, count) refl

-- A round whose read fails.
read_round-again :
    (front back rest : List ℕ) (left retries : ℕ)
    → 0 < left
    → left < 255
    → retries < 5
    → read_round
        (record { ret = 255; bytes = []; rest = rest })
        (front ++ back)
        (length front)
        left
        retries
      ≡ more (front ++ back) ((length front + 0) % 256) left (retries + 1)
unfolding read_round after_read
read_round-again front back rest left retries pos short few =
    let bad : ltb left 255 ≡ true = ground arith in
    let forgiven : leb 5 retries ≡ false = ground arith in
    let count : (if ltb 0 left then left - 0 else 0) ≡ left = ground arith in
    rw (overwrite-append front back [] (omega arith), bad, forgiven, count) refl

read_loop-zero :
    (s : List ReadEvent) (input buf : List ℕ) (idx retries : ℕ)
    → read_loop s input buf idx 0 retries ≡ done (some buf, input, s)
unfolding read_loop
read_loop-zero [] input buf idx retries = refl
read_loop-zero (e ∷ s) input buf idx retries = refl

-- One round of the loop, as an equation.
read_loop-more :
    (e : ReadEvent) (s : List ReadEvent) (input buf buf' rest : List ℕ)
    (idx idx' left left' retries retries' : ℕ)
    → 0 < left
    → (rpc_transport_read e input left).rest ≡ rest
    → read_round (rpc_transport_read e input left) buf idx left retries
      ≡ more buf' idx' left' retries'
    → read_loop (e ∷ s) input buf idx left retries ≡ read_loop s rest buf' idx' left' retries'
unfolding read_loop
read_loop-more e s input buf buf' rest idx idx' zero left' retries retries' pos h k =
    absurd (omega arith)
read_loop-more e s input buf buf' rest idx idx' (suc left) left' retries retries' pos h k =
    rw (k, read_loop) (ap (λ r. read_loop s r buf' idx' left' retries') h)

joined : (a b c : List ℕ) → (a ++ b) ++ c ≡ a ++ (b ++ c)
joined a b c = append_assoc a b c

-- The buffer after the bytes of `body` have been read in two parts.
join_parts :
    (front back body : List ℕ) (n left : ℕ)
    → n ≤ left
    → (front ++ take n body) ++ (drop n body ++ drop (left - n) (drop n back))
      ≡ front ++ (body ++ drop left back)
join_parts front back body n left h =
    let e : n + (left - n) ≡ left = omega arith in
    append_assoc front (take n body) _
    ∙ ap (λ t. front ++ t)
        (sym (append_assoc (take n body) (drop n body) _)
          ∙ ap₂ ◌++◌ (take-append-drop n body)
              (sym (drop-add n (left - n) back) ∙ ap (λ k. drop k back) e))

-- If the schedule delivers the frame, its bytes stand in the buffer in order, however they were
-- cut into pieces, and all that comes behind them is left in the input.
pub read_loop_lem :
    {s s' : List ReadEvent} {left retries : ℕ}
    → Delivers s left retries s'
    → (front back body rest : List ℕ) (idx : ℕ) → length body ≡ left
    → left ≤ length back
    → length front + left ≤ 256
    → left < 256
    → (0 < left → idx ≡ length front)
    → read_loop s (body ++ rest) (front ++ back) idx left retries
      ≡ done (some (front ++ (body ++ drop left back)), rest, s')
unfolding rpc_transport_read
read_loop_lem (whole e) front back [] rest idx size room fits short at =
    rw e (read_loop-zero _ _ _ _ _)
read_loop_lem (whole e) front back (b ∷ body) rest idx size room fits short at =
    absurd (omega arith)
read_loop_lem (part {s} {s'} {left} {retries} k hk pos d) front back body rest idx size room fits
      short at =
    let n = min k left in
    let got = take n body in
    let got_size : length got ≡ n = omega (arith, length-take n body) in
    let front_size : length (front ++ got) ≡ length front + n =
      omega (arith, length-append front got) in
    let round =
      read_round-more front back got (drop n body ++ rest) n left retries got_size (omega arith)
        room short in
    let all = joined front got (drop n back) in
    read_loop-more (avail k) s (body ++ rest) (front ++ back) ((front ++ got) ++ drop n back)
      (drop n body ++ rest) idx ((length front + n) % 256) left (left - n) retries retries pos
      (drop-append n body rest (omega arith))
      (rw
        (take-append n body rest (omega arith), drop-append n body rest (omega arith), at pos, all)
        round)
    ∙ read_loop_lem d (front ++ got) (drop n back) (drop n body) rest ((length front + n) % 256)
        (omega (arith, length-drop n body)) (omega (arith, length-drop n back))
        (omega (arith, front_size)) (omega arith) (λ p. omega (arith, front_size))
    ∙ ap (λ b. done (some b, rest, s')) (join_parts front back body n left (omega arith))
read_loop_lem (again {s} {left} {retries} pos few forgiven d) front back body rest idx size room
      fits short at =
    read_loop-more fails s (body ++ rest) (front ++ back) (front ++ back) (body ++ rest) idx
      ((length front + 0) % 256) left left retries (retries + 1) pos refl
      (rw (at pos) (read_round-again front back (body ++ rest) left retries pos few forgiven))
    ∙ read_loop_lem d front back body rest ((length front + 0) % 256) size room fits short
        (λ p. omega arith)

-- ===== src/Mt/Fills.antt =====
-- What the statements that fill a command buffer write, together with its size: the proofs of the
-- request functions are put together from these.
use mathlib.Core.List.{append_assoc, append-nil}
use znp_host_framework.Base.{
  ℕ, ◌+◌, ◌*◌, ◌%◌, ◌<◌, ◌≤◌, ◌≡◌, refl, some, List, [], ◌++◌, length, take, drop, arith,
  length-append, leb, le→leb, false, true, Bool-cases, leb→le, inl, inr,
}
use znp_host_framework.Base.Bytes.{overwrite, overwrite-append}
use znp_host_framework.Rpc.{Outcome, done, fault, ◌>>=◌}
use znp_host_framework.Mt.Writer.{
  Cmd, puts, put_array, put_words, put_copy, word_bytes, at, Fits, Writes, puts-Writes, then-Writes,
  put_array-Writes, put_words-Writes, put_copy-Writes, length-words, length-taken,
}
use znp_host_framework.Mt.Host.{Host, Env}
use znp_host_framework.Mt.Call.{
  Finish, IsAllocator, send_frame, mt_with, mt_request, transmit, mt_request-Writes,
}

-- A program that writes exactly the `n` bytes `xs`.
pub record Fills (m : Cmd → Outcome Cmd) (xs : List ℕ) (n : ℕ) : Type 0 where
  pub fills : Writes m xs
  pub size : length xs ≡ n

pub puts-Fills : (xs : List ℕ) → Fills (λ c. puts xs c) xs (length xs)
puts-Fills xs = record { fills = puts-Writes xs; size = refl }

-- Nothing at all.
pub skip-Fills : Fills (λ c. done c) [] 0
skip-Fills = record {
  fills = record { writes = λ front back h. rw (append-nil front) refl };
  size = refl;
}

pub then-Fills :
    (m k : Cmd → Outcome Cmd) (xs ys : List ℕ) (a b : ℕ)
    → Fills m xs a
    → Fills k ys b
    → Fills (λ c. m c >>= λ c'. k c') (xs ++ ys) (a + b)
then-Fills m k xs ys a b h h' = record {
  fills = then-Writes m k xs ys h.fills h'.fills;
  size = omega (arith, length-append xs ys, h.size, h'.size);
}

pub put_array-Fills :
    (n : ℕ) (array : List ℕ)
    → n ≤ length array
    → Fills (λ c. put_array n 0 array c) (take n array) n
put_array-Fills n array h = record {
  fills = put_array-Writes n array h;
  size = length-taken n array h;
}

pub put_words-Fills :
    (n : ℕ) (array : List ℕ)
    → n ≤ length array
    → Fills (λ c. put_words n 0 array c) (word_bytes (take n array)) (n * 2)
put_words-Fills n array h = record {
  fills = put_words-Writes n array h;
  size = length-words n array h;
}

pub put_copy-Fills :
    (n : ℕ) (src : List ℕ) → length src ≡ n → 0 < n → Fills (λ c. put_copy n src c) src n
put_copy-Fills n src e pos = record { fills = put_copy-Writes n src e pos; size = e }

-- The copy of the first `n` bytes of an array.
put_copy-Writes_prefix :
    (n : ℕ) (src : List ℕ) → n ≤ length src → 0 < n → Writes (λ c. put_copy n src c) (take n src)
unfolding put_copy
put_copy-Writes_prefix n src h pos = record {
  writes = λ front back fits.
      let size = length-taken n src h in
      let all : leb (0 + n) (length src) ≡ true = le→leb _ _ (omega (arith, h)) in
      let here : length front % 256 ≡ length front = omega (arith, fits.small) in
      let next : (length front + n) % 256 ≡ length (front ++ take n src) % 256 =
        omega (arith, length-append front (take n src), size) in
      rw (all, here, overwrite-append front back (take n src) fits.room)
        (rw (append_assoc front (take n src) (drop (length (take n src)) back), next) refl);
}

pub put_copy-Fills_prefix :
    (n : ℕ) (src : List ℕ) → n ≤ length src → 0 < n → Fills (λ c. put_copy n src c) (take n src) n
put_copy-Fills_prefix n src h pos = record {
  fills = put_copy-Writes_prefix n src h pos;
  size = length-taken n src h;
}

-- A copy that does not fit the rest of the buffer writes outside it.
pub put_copy-fault :
    (n : ℕ) (src front back : List ℕ)
    → n ≤ length src
    → length back < n
    → length front < 256
    → put_copy n src (at front back) ≡ fault
unfolding put_copy overwrite
put_copy-fault n src front back h small short =
    let all : leb (0 + n) (length src) ≡ true = le→leb _ _ (omega (arith, h)) in
    let here : length front % 256 ≡ length front = omega (arith, short) in
    let size = length-taken n src h in
    let over : leb (length front + length (take n src)) (length (front ++ back)) ≡ false =
      elim (Bool-cases (leb (length front + length (take n src)) (length (front ++ back)))) [
        | inl e ↦ absurd (omega (arith, leb→le _ _ e, length-append front back, size, small))
        | inr e ↦ e
      ] in
    rw (all, here, over) refl

-- A request that fills its buffer with `xs`, of the size it asked for.
pub request-Fills :
    (env : Env) (finish : Finish) (cmd0 cmd1 n : ℕ) (fill : Cmd → Outcome Cmd) (xs : List ℕ) (m : ℕ)
    (h : Host)
    → IsAllocator env.malloc
    → Fills fill xs m
    → n ≡ m
    → n ≤ 256
    → mt_request env finish cmd0 cmd1 n fill h
      ≡ transmit env finish cmd0 cmd1 xs h (env.malloc (length xs))
request-Fills env finish cmd0 cmd1 n fill xs m h allocates f e short =
    mt_request-Writes env finish cmd0 cmd1 n fill xs h allocates f.fills (omega (arith, e, f.size))
      (omega (arith, e, f.size, short))

-- A request for a larger buffer than it fills: what is behind the bytes it writes is sent as it was
-- found.
pub request-spare :
    (env : Env) (finish : Finish) (cmd0 cmd1 n : ℕ) (fill : Cmd → Outcome Cmd) (xs : List ℕ) (m : ℕ)
    (h : Host) (block : List ℕ)
    → env.malloc n ≡ some block
    → length block ≡ n
    → Fills fill xs m
    → m ≤ n
    → n ≤ 256
    → mt_request env finish cmd0 cmd1 n fill h
      ≡ (send_frame env cmd0 cmd1 (xs ++ drop m block) n h >>= λ x. finish x)
unfolding mt_request mt_with
request-spare env finish cmd0 cmd1 n fill xs m h block gives size f within short =
    let fits : Fits (length xs) [] block = record {
      room = omega (arith, size, f.size, within);
      small = omega (arith, f.size, within, short);
    } in
    rw (gives, f.fills.writes [] block fits, f.size) refl

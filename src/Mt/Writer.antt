-- ===== src/Mt/Writer.antt =====
-- The way every request function of framework/mt fills its command buffer: `cmd[cmInd++] = x`, with
-- a byte for the index, alone, in a loop over an array, or as a `memcpy` of several bytes.
use mathlib.Core.List.{append_assoc, append-nil}
use mathlib.Core.Path.{fun_ext}
use Prim.Native.Nat.add
use znp_host_framework.Base.{
  ℕ, zero, suc, ◌+◌, ◌*◌, ◌%◌, ◌<◌, ◌≤◌, ◌≡◌, refl, ap, ◌∙◌, some, List, [], ◌∷◌, ◌++◌, length,
  take, drop, get_elem?, arith, length-append, length-drop, length-take, drop-add, take_all, leb,
  le→leb, true, drop_all,
}
use znp_host_framework.Base.Bytes.{overwrite, overwrite-append, lo_byte, hi_byte}
use znp_host_framework.Rpc.{Outcome, done, fault, blocked, ◌>>=◌, checked}
use znp_host_framework.Rpc.Transport.{slice}

-- The buffer `cmd` and the index `cmInd`.
pub record Cmd : Type 0 where
  pub buf : List ℕ
  pub cm_ind : ℕ

-- `cmd[cmInd++] = x`
unfoldable pub put : ℕ → Cmd → Outcome Cmd
put x c = do
  buf ← checked (overwrite c.buf c.cm_ind (x ∷ []))
  done (record { buf = buf; cm_ind = (c.cm_ind + 1) % 256 })

-- A row of such statements.
unfoldable pub puts : List ℕ → Cmd → Outcome Cmd
puts [] c = done c
puts (x ∷ xs) c = put x c >>= λ c'. puts xs c'

-- `for (idx = i; ...; idx++) cmd[cmInd++] = array[idx];` with `n` rounds left
unfoldable pub put_array : ℕ → ℕ → List ℕ → Cmd → Outcome Cmd
put_array zero i array c = done c
put_array (suc n) i array c =
    checked (get_elem? array i) >>= λ x. put x c >>= λ c'. put_array n (i + 1) array c'

-- The same for an array of 16-bit words, low byte first.
unfoldable pub put_words : ℕ → ℕ → List ℕ → Cmd → Outcome Cmd
put_words zero i array c = done c
put_words (suc n) i array c = checked (get_elem? array i) >>= λ x.
    puts (lo_byte x ∷ hi_byte x ∷ []) c >>= λ c'. put_words n (i + 1) array c'

-- `memcpy((cmd + cmInd), src, n); cmInd += n;`
unfoldable pub put_copy : ℕ → List ℕ → Cmd → Outcome Cmd
put_copy n src c = do
  xs ← checked (slice src 0 n)
  buf ← checked (overwrite c.buf c.cm_ind xs)
  done (record { buf = buf; cm_ind = (c.cm_ind + n) % 256 })

-- The buffer with `front` written and `back` still to write.
abbrev pub at : List ℕ → List ℕ → Cmd
at front back = record { buf = front ++ back; cm_ind = length front % 256 }

-- The low and the high byte of each word.
abbrev pub word_bytes : List ℕ → List ℕ
word_bytes [] = []
word_bytes (x ∷ xs) = lo_byte x ∷ hi_byte x ∷ word_bytes xs

pub length-word_bytes : (xs : List ℕ) → length (word_bytes xs) ≡ 2 * length xs
length-word_bytes [] = refl
length-word_bytes (x ∷ xs) = let e = length-word_bytes xs in omega arith

pub length-words : (n : ℕ) (xs : List ℕ) → n ≤ length xs → length (word_bytes (take n xs)) ≡ n * 2
length-words n xs h = omega (arith, length-word_bytes (take n xs), length-take n xs)

pub length-taken : (n : ℕ) (xs : List ℕ) → n ≤ length xs → length (take n xs) ≡ n
length-taken n xs h = omega (arith, length-take n xs)

-- Room for `n` more bytes: in the buffer, and before the index wraps.
pub record Fits (n : ℕ) (front back : List ℕ) : Type 0 where
  pub room : n ≤ length back
  pub small : length front + n ≤ 256

put-at :
    (x : ℕ) (front back : List ℕ)
    → Fits 1 front back
    → put x (at front back) ≡ done (at (front ++ x ∷ []) (drop 1 back))
unfolding put
put-at x front back h =
    let here : length front % 256 ≡ length front = omega (arith, h.small) in
    let next : (length front + 1) % 256 ≡ length (front ++ x ∷ []) % 256 =
      omega (arith, length-append front (x ∷ [])) in
    rw (here, overwrite-append front back (x ∷ []) h.room)
      (rw (append_assoc front (x ∷ []) (drop 1 back), next) refl)

pub puts-at :
    (xs front back : List ℕ)
    → Fits (length xs) front back
    → puts xs (at front back) ≡ done (at (front ++ xs) (drop (length xs) back))
unfolding puts
puts-at [] front back h = rw append-nil refl
puts-at (x ∷ xs) front back h =
    let one : Fits 1 front back = record {
      room = omega (arith, h.room);
      small = omega (arith, h.small);
    } in
    let rest : Fits (length xs) (front ++ x ∷ []) (drop 1 back) = record {
      room = omega (arith, h.room, length-drop 1 back);
      small = omega (arith, h.small, length-append front (x ∷ []));
    } in
    let whole : 1 + length xs ≡ suc (length xs) = omega arith in
    rw (put-at x front back one, puts-at xs (front ++ x ∷ []) (drop 1 back) rest)
      (rw (append_assoc front (x ∷ []) xs, ← drop-add 1 (length xs) back, whole) refl)

-- A program that, wherever there is room, writes exactly the bytes `xs`.
pub record Writes (m : Cmd → Outcome Cmd) (xs : List ℕ) : Type 0 where
  pub writes :
      (front back : List ℕ)
      → Fits (length xs) front back
      → m (at front back) ≡ done (at (front ++ xs) (drop (length xs) back))

pub puts-Writes : (xs : List ℕ) → Writes (λ c. puts xs c) xs
puts-Writes xs = record { writes = puts-at xs }

-- One program after another.
pub then-Writes :
    (m k : Cmd → Outcome Cmd) (xs ys : List ℕ)
    → Writes m xs
    → Writes k ys
    → Writes (λ c. m c >>= λ c'. k c') (xs ++ ys)
then-Writes m k xs ys hm hk = record {
  writes = λ front back h.
      let sizes = length-append xs ys in
      let first : Fits (length xs) front back = record {
        room = omega (arith, h.room, sizes);
        small = omega (arith, h.small, sizes);
      } in
      let second : Fits (length ys) (front ++ xs) (drop (length xs) back) = record {
        room = omega (arith, h.room, sizes, length-drop (length xs) back);
        small = omega (arith, h.small, sizes, length-append front xs);
      } in
      rw (hm.writes front back first, hk.writes (front ++ xs) (drop (length xs) back) second)
        (rw (append_assoc front xs ys, ← drop-add (length xs) (length ys) back, sizes) refl);
}

get_elem?-drop :
    (i : ℕ) (array : List ℕ)
    → i < length array
    → (x : ℕ) × (get_elem? array i ≡ some x) × (drop i array ≡ x ∷ drop (i + 1) array)
get_elem?-drop i [] h = absurd (omega arith)
get_elem?-drop zero (x ∷ array) h = (x, refl, refl)
get_elem?-drop (suc i) (y ∷ array) h =
    let (x, e, d) = get_elem?-drop i array (omega arith) in (x, e, rw (add.suc i 1) d)

put_array-puts :
    (n i : ℕ) (array : List ℕ) (c : Cmd)
    → i + n ≤ length array
    → put_array n i array c ≡ puts (take n (drop i array)) c
unfolding put_array puts
put_array-puts zero i array c h = refl
put_array-puts (suc n) i array c h =
    let (x, e, d) = get_elem?-drop i array (omega arith) in
    rw (e, d)
      (ap (λ k. put x c >>= k) (fun_ext λ c'. put_array-puts n (i + 1) array c' (omega arith)))

bind_assoc :
    (o : Outcome Cmd) (f g : Cmd → Outcome Cmd) → ((o >>= f) >>= g) ≡ (o >>= λ c. f c >>= g)
bind_assoc (done c) f g = refl
bind_assoc fault f g = refl
bind_assoc blocked f g = refl

puts-append : (xs ys : List ℕ) (c : Cmd) → (puts xs c >>= λ c'. puts ys c') ≡ puts (xs ++ ys) c
unfolding puts
puts-append [] ys c = refl
puts-append (x ∷ xs) ys c =
    bind_assoc (put x c) (λ c'. puts xs c') (λ c'. puts ys c')
    ∙ ap (λ k. put x c >>= k) (fun_ext λ c'. puts-append xs ys c')

put_words-puts :
    (n i : ℕ) (array : List ℕ) (c : Cmd)
    → i + n ≤ length array
    → put_words n i array c ≡ puts (word_bytes (take n (drop i array))) c
unfolding put_words
put_words-puts zero i array c h = unfold puts in refl
put_words-puts (suc n) i array c h =
    let (x, e, d) = get_elem?-drop i array (omega arith) in
    rw (e, d)
      (ap (λ k. puts (lo_byte x ∷ hi_byte x ∷ []) c >>= k)
          (fun_ext λ c'. put_words-puts n (i + 1) array c' (omega arith))
        ∙ puts-append (lo_byte x ∷ hi_byte x ∷ []) (word_bytes (take n (drop (i + 1) array))) c)

-- The loop over a whole array prefix.
pub put_array-Writes :
    (n : ℕ) (array : List ℕ) → n ≤ length array → Writes (λ c. put_array n 0 array c) (take n array)
put_array-Writes n array h = record {
  writes = λ front back fits.
      put_array-puts n 0 array _ (omega arith) ∙ puts-at (take n array) front back fits;
}

pub put_words-Writes :
    (n : ℕ) (array : List ℕ)
    → n ≤ length array
    → Writes (λ c. put_words n 0 array c) (word_bytes (take n array))
put_words-Writes n array h = record {
  writes = λ front back fits.
      put_words-puts n 0 array _ (omega arith)
      ∙ puts-at (word_bytes (take n array)) front back fits;
}

-- The copy of a whole array of `n` bytes.
pub put_copy-Writes :
    (n : ℕ) (src : List ℕ) → length src ≡ n → 0 < n → Writes (λ c. put_copy n src c) src
unfolding put_copy
put_copy-Writes n src e pos = record {
  writes = λ front back fits.
      let all : leb (0 + n) (length src) ≡ true = le→leb _ _ (omega arith) in
      let here : length front % 256 ≡ length front = omega (arith, fits.small) in
      let next : (length front + n) % 256 ≡ length (front ++ src) % 256 =
        omega (arith, length-append front src) in
      rw (all, take_all n src (omega arith), here, overwrite-append front back src fits.room)
        (rw (append_assoc front src (drop (length src) back), next) refl);
}

-- A program that writes a whole buffer of its own size.
pub Writes-whole :
    (m : Cmd → Outcome Cmd) (xs junk : List ℕ)
    → Writes m xs
    → length junk ≡ length xs
    → length xs ≤ 256
    → m (record { buf = junk; cm_ind = 0 }) ≡ done (record { buf = xs; cm_ind = length xs % 256 })
Writes-whole m xs junk h size short =
    h.writes [] junk (record { room = omega (arith, size); small = omega arith })
    ∙ rw (← size, drop_all junk) (rw append-nil refl)

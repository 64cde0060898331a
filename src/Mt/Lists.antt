-- ===== src/Mt/Lists.antt =====
-- The lists in the messages of framework/mt: a loop that takes an element a round, the test of the
-- message's length in front of it, and what is made of a message once it is read.
use mathlib.Core.List.{append-nil}
use mathlib.Core.Path.{subst}
use znp_host_framework.Base.{
  ℕ, zero, suc, ◌<◌, ◌≤◌, ◌≡◌, List, [], ◌∷◌, ◌++◌, length, ltb, lt→ltb, if◌then◌else◌, arith,
  Option, none, some, ◌%◌, refl, get_elem?, get_elem?-append,
}
use znp_host_framework.Base.Bytes.{lo_byte, hi_byte}
use znp_host_framework.Rpc.{fault, done, ◌>>=◌, checked}
use znp_host_framework.Mt.Reader.{
  Reader, Reads, give, read_then, give-Reads, then-Reads, take_word, take_word-Reads,
}

-- The loop `array[i] = ...` with `n` rounds left and `room` elements of the array behind `i`, where a
-- round takes an element with `m`.
unfoldable pub take_list : {A : Type 0} → Reader A → (n room : ℕ) → Reader (List A)
take_list m zero room = give []
take_list m (suc n) zero = λ buf i. fault
take_list m (suc n) (suc room) = read_then m λ x. read_then (take_list m n room) λ xs. give (x ∷ xs)

-- `if (rpcLen > fields)` around a list: the part of the array that is filled.
unfoldable pub take_if : {A : Type 0} → (rpc_len fields : ℕ) → Reader (List A) → Reader (List A)
take_if rpc_len fields m = if ltb fields rpc_len then m else give []

-- `if (rpcLen > fields)` around members of a struct, which otherwise stay as they were.
unfoldable pub take_option : {A : Type 0} → (rpc_len fields : ℕ) → Reader A → Reader (Option A)
take_option rpc_len fields m =
    if ltb fields rpc_len then (read_then m λ a. give (some a)) else give none

-- What is made of a part once it is read.
abbrev pub made : {A B : Type 0} → (A → B) → Reader A → Reader B
made f m = read_then m λ a. give (f a)

-- The elements one after another.
abbrev pub list_bytes : {A : Type 0} → (A → List ℕ) → List A → List ℕ
list_bytes enc [] = []
list_bytes enc (x ∷ xs) = enc x ++ list_bytes enc xs

abbrev pub word_pair : ℕ → List ℕ
word_pair x = lo_byte x ∷ hi_byte x ∷ []

-- All elements have a property.
abbrev pub Each : {A : Type 0} → (A → Type 0) → List A → Type 0
Each P [] = Unit {0}
Each P (x ∷ xs) = P x × Each P xs

abbrev pub IsWord : ℕ → Type 0
IsWord x = x < 65536

pub made-Reads :
    {A B : Type 0} (f : A → B) (m : Reader A) (xs : List ℕ) (a : A)
    → Reads m xs a
    → Reads (made f m) xs (f a)
made-Reads f m xs a h =
    subst (λ ys. Reads (made f m) ys (f a)) (append-nil xs)
      (then-Reads m (λ b. give (f b)) xs [] a (f a) h (give-Reads (f a)))

take_list_all :
    {A : Type 0} (m : Reader A) (enc : A → List ℕ) (P : A → Type 0)
    → ((x : A) → P x → Reads m (enc x) x)
    → (xs : List A) (room : ℕ) → length xs ≤ room
    → Each P xs
    → Reads (take_list m (length xs) room) (list_bytes enc xs) xs
unfolding take_list
take_list_all m enc P h [] room short ok = give-Reads []
take_list_all m enc P h (x ∷ xs) zero short ok = absurd (omega arith)
take_list_all m enc P h (x ∷ xs) (suc room) short (first, rest) =
    then-Reads m (λ y. made (λ ys. y ∷ ys) (take_list m (length xs) room)) (enc x)
      (list_bytes enc xs) x (x ∷ xs) (h x first)
      (made-Reads (λ ys. x ∷ ys) (take_list m (length xs) room) (list_bytes enc xs) xs
        (take_list_all m enc P h xs room (omega arith) rest))

-- A list of elements each of which can be read.
pub take_list-Reads :
    {A : Type 0} (m : Reader A) (enc : A → List ℕ) (P : A → Type 0)
    → ((x : A) → P x → Reads m (enc x) x)
    → (n : ℕ) (xs : List A) (room : ℕ) → n ≡ length xs
    → n ≤ room
    → Each P xs
    → Reads (take_list m n room) (list_bytes enc xs) xs
take_list-Reads m enc P h n xs room e short ok =
    rw e (take_list_all m enc P h xs room (omega arith) ok)

pub take_words-Reads :
    (n : ℕ) (xs : List ℕ) (room : ℕ)
    → n ≡ length xs
    → n ≤ room
    → Each IsWord xs
    → Reads (take_list take_word n room) (list_bytes word_pair xs) xs
take_words-Reads n xs room e short ok =
    take_list-Reads take_word word_pair IsWord (λ x h. take_word-Reads x h) n xs room e short ok

pub take_if-Reads :
    {A : Type 0} (rpc_len fields : ℕ) (m : Reader (List A)) (xs : List ℕ) (a : List A)
    → fields < rpc_len
    → Reads m xs a
    → Reads (take_if rpc_len fields m) xs a
unfolding take_if
take_if-Reads rpc_len fields m xs a more h = rw (lt→ltb _ _ more) h

pub take_option-Reads :
    {A : Type 0} (rpc_len fields : ℕ) (m : Reader A) (xs : List ℕ) (a : A)
    → fields < rpc_len
    → Reads m xs a
    → Reads (take_option rpc_len fields m) xs (some a)
unfolding take_option
take_option-Reads rpc_len fields m xs a more h = rw (lt→ltb _ _ more) (made-Reads some m xs a h)

-- `x = BUILD_UINT16(rpcBuff[msgIdx], rpcBuff[msgIdx + 1])` with a byte read at the same `msgIdx`, as
-- the last two statements of a handler: the word and the byte.
unfoldable pub take_word_low : Reader (ℕ × ℕ)
take_word_low buf i =
    take_word buf i >>= λ word. checked (get_elem? buf i) >>= λ byte. done ((word.0, byte), word.1)

pub take_word_low-Reads :
    (x y : ℕ) → x < 65536 → y ≡ lo_byte x → Reads take_word_low (lo_byte x ∷ hi_byte x ∷ []) (x, y)
unfolding take_word_low
take_word_low-Reads x y bound low = record {
  reads = λ front back h.
      let small : length front % 256 ≡ length front = omega arith in
      rw
        (
          (take_word-Reads x bound).reads front back h,
          small,
          get_elem?-append front (hi_byte x ∷ back) (lo_byte x),
          low,
        )
        refl;
}

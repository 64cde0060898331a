-- ===== src/Mt/Faults.antt =====
-- Messages that announce more elements than the array of their struct has: the handler writes outside
-- it.
use mathlib.Core.List.{append_assoc}
use mathlib.Core.Path.{subst}
use znp_host_framework.Base.{
  ℕ, zero, suc, ◌+◌, ◌%◌, ◌<◌, ◌≤◌, ◌≡◌, refl, sym, List, [], ◌∷◌, ◌++◌, length, Bool, true, arith,
  length-append, lt→ltb,
}
use znp_host_framework.Rpc.{fault}
use znp_host_framework.Mt.Reader.{Reader, Reads, read_then, take_bytes, take_byte-Reads, take_data}
use znp_host_framework.Mt.Lists.{take_if}
use znp_host_framework.Mt.Dispatch.{deliver, behind_fcs}

-- A part that, wherever it meets the bytes `xs`, does something undefined.
pub record Faults {A : Type 0} (m : Reader A) (xs : List ℕ) : Type 0 where
  pub faults :
      (front back : List ℕ)
      → length front + length xs ≤ 256
      → m (front ++ (xs ++ back)) (length front % 256) ≡ fault

-- At once,
pub here-Faults :
    {A B : Type 0} (m : Reader A) (k : A → Reader B) (xs : List ℕ)
    → Faults m xs
    → Faults (read_then m k) xs
here-Faults m k xs h = record { faults = λ front back short. rw (h.faults front back short) refl }

-- or behind a part that is read.
pub there-Faults :
    {A B : Type 0} {m : Reader A} {xs ys : List ℕ} {a : A} (k : A → Reader B)
    → Reads m xs a
    → Faults (k a) ys
    → Faults (read_then m k) (xs ++ ys)
there-Faults {m = m} {xs = xs} {ys = ys} {a = a} k hm hk = record {
  faults = λ front back h.
      let sizes = length-append xs ys in
      let next : length front + length xs ≡ length (front ++ xs) = sym (length-append front xs) in
      rw
        (
          append_assoc xs ys back,
          hm.reads front (ys ++ back) (omega (arith, sizes)),
          next,
          ← append_assoc front xs (ys ++ back),
          hk.faults (front ++ xs) back (omega (arith, next, sizes, h)),
        )
        refl;
}

-- The loop over an array with less room than there are bytes.
take_bytes-Faults :
    (xs : List ℕ) (room : ℕ) → room < length xs → Faults (take_bytes (length xs) room) xs
unfolding take_bytes
take_bytes-Faults [] room h = absurd (omega arith)
take_bytes-Faults (x ∷ xs) zero h = record { faults = λ front back short. refl }
take_bytes-Faults (x ∷ xs) (suc room) h =
    there-Faults _ (take_byte-Reads x)
      (here-Faults (take_bytes (length xs) room) _ xs (take_bytes-Faults xs room (omega arith)))

take_bytes-Faults_of :
    (len : ℕ) (xs : List ℕ) (room : ℕ)
    → len ≡ length xs
    → room < len
    → Faults (take_bytes len room) xs
take_bytes-Faults_of len xs room e h =
    subst (λ n. Faults (take_bytes n room) xs) (sym e) (take_bytes-Faults xs room (omega arith))

-- The same behind the test of the length of the message.
pub take_data-Faults :
    (rpc_len fields len : ℕ) (xs : List ℕ) (room : ℕ)
    → fields < rpc_len
    → len ≡ length xs
    → room < len
    → Faults (take_data rpc_len fields len room) xs
unfolding take_data
take_data-Faults rpc_len fields len xs room more e h =
    rw (lt→ltb _ _ more) (take_bytes-Faults_of len xs room e h)

pub take_if-Faults :
    (rpc_len fields len : ℕ) (xs : List ℕ) (room : ℕ)
    → fields < rpc_len
    → len ≡ length xs
    → room < len
    → Faults (take_if rpc_len fields (take_bytes len room)) xs
unfolding take_if
take_if-Faults rpc_len fields len xs room more e h =
    rw (lt→ltb _ _ more) (take_bytes-Faults_of len xs room e h)

-- The handler of such a message, with its callback registered.
pub deliver-Faults :
    {E : Type 0} (registered : Bool) (m : Reader E) (cmd0 cmd1 : ℕ) (xs : List ℕ) (fcs : ℕ)
    (back : List ℕ)
    → registered ≡ true
    → Faults m xs
    → length xs ≤ 252
    → deliver registered m (cmd0 ∷ cmd1 ∷ ((xs ++ fcs ∷ []) ++ back)) ≡ fault
unfolding deliver
deliver-Faults registered m cmd0 cmd1 xs fcs back e h short =
    rw (e, behind_fcs xs fcs back)
      (rw (h.faults (cmd0 ∷ cmd1 ∷ []) (fcs ∷ back) (omega arith)) refl)

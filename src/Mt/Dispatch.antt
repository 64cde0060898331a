-- ===== src/Mt/Dispatch.antt =====
-- What the subsystems' `...Process` functions share: the call of a callback, and the copy of a
-- synchronous response.
use mathlib.Core.List.{append_assoc}
use znp_host_framework.Base.{
  ℕ, ◌+◌, ◌≤◌, ◌≡◌, refl, List, [], ◌∷◌, ◌++◌, Bool, if◌then◌else◌, length, drop, leb, le→leb, true,
  false, take-append_self, length-append, arith,
}
use znp_host_framework.Base.Bytes.{overwrite, overwrite-append}
use znp_host_framework.Rpc.{Outcome, done, ◌>>=◌, checked}
use znp_host_framework.Rpc.Transport.{slice}
use znp_host_framework.Mt.Reader.{Reader, Reads}
use znp_host_framework.Mt.Lists.{made, made-Reads}

-- A handler: nothing if its callback is not registered, and otherwise the call of the callback with
-- what the message is read as from `msgIdx = 2` on.
unfoldable pub deliver : {E : Type 0} → Bool → Reader E → List ℕ → Outcome (List E)
deliver registered m rpc_buff =
    if registered then (m rpc_buff 2 >>= λ p. done (p.0 ∷ [])) else done []

-- `memcpy(srspRpcBuff, rpcBuff, rpcLen)`
unfoldable pub copy_srsp : (srsp_rpc_buff rpc_buff : List ℕ) (rpc_len : ℕ) → Outcome (List ℕ)
copy_srsp srsp_rpc_buff rpc_buff rpc_len =
    checked (slice rpc_buff 0 rpc_len) >>= λ copied. checked (overwrite srsp_rpc_buff 0 copied)

-- The handler of a message that reads as `e` delivers it.
pub deliver-Reads :
    {E : Type 0} (registered : Bool) (m : Reader E) (cmd0 cmd1 : ℕ) (xs back : List ℕ) (e : E)
    → Reads m xs e
    → length xs ≤ 254
    → deliver registered m (cmd0 ∷ cmd1 ∷ (xs ++ back)) ≡ done (if registered then e ∷ [] else [])
unfolding deliver
deliver-Reads false m cmd0 cmd1 xs back e h short = refl
deliver-Reads true m cmd0 cmd1 xs back e h short =
    rw (h.reads (cmd0 ∷ cmd1 ∷ []) back (omega arith)) refl

-- The copy of a message into a buffer with room for it.
pub copy_srsp_lem :
    (srsp msg back : List ℕ) (n : ℕ)
    → n ≡ length msg
    → length msg ≤ length srsp
    → copy_srsp srsp (msg ++ back) n ≡ done (msg ++ drop n srsp)
unfolding copy_srsp
copy_srsp_lem srsp msg back n size room =
    let within : leb (0 + length msg) (length (msg ++ back)) ≡ true =
      le→leb _ _ (omega (arith, length-append msg back)) in
    rw (size, within, take-append_self msg back, overwrite-append [] srsp msg room) refl

-- The check byte stands in front of what is behind the message.
pub behind_fcs :
    (xs : List ℕ) (fcs : ℕ) (back : List ℕ) → (xs ++ fcs ∷ []) ++ back ≡ xs ++ (fcs ∷ back)
behind_fcs xs fcs back = append_assoc xs (fcs ∷ []) back

-- The message as it stands in the buffer, with the check byte behind the payload.
pub deliver-made :
    {A E : Type 0} (registered : Bool) (f : A → E) (m : Reader A) (cmd0 cmd1 : ℕ) (xs : List ℕ)
    (fcs : ℕ) (back : List ℕ) (a : A)
    → Reads m xs a
    → length xs ≤ 252
    → deliver registered (made f m) (cmd0 ∷ cmd1 ∷ ((xs ++ fcs ∷ []) ++ back))
      ≡ done (if registered then f a ∷ [] else [])
deliver-made registered f m cmd0 cmd1 xs fcs back a h short = rw (behind_fcs xs fcs back) (
    deliver-Reads registered (made f m) cmd0 cmd1 xs (fcs ∷ back) (f a) (made-Reads f m xs a h)
      (omega arith))

-- A handler that leaves the last byte of the payload alone.
pub deliver-unread :
    {A E : Type 0} (registered : Bool) (f : A → E) (m : Reader A) (cmd0 cmd1 : ℕ) (xs : List ℕ)
    (last fcs : ℕ) (back : List ℕ) (a : A)
    → Reads m xs a
    → length (xs ++ last ∷ []) ≤ 252
    → deliver registered (made f m) (cmd0 ∷ cmd1 ∷ (((xs ++ last ∷ []) ++ fcs ∷ []) ++ back))
      ≡ done (if registered then f a ∷ [] else [])
deliver-unread registered f m cmd0 cmd1 xs last fcs back a h short =
    rw (append_assoc xs (last ∷ []) (fcs ∷ []), append_assoc xs (last ∷ fcs ∷ []) back)
      (deliver-Reads registered (made f m) cmd0 cmd1 xs (last ∷ fcs ∷ back) (f a)
        (made-Reads f m xs a h) (omega (arith, length-append xs (last ∷ []), short)))

-- ===== src/Tokens.antt =====
-- src/cachau/tokens.py: `array_token` and its memo.
-- An object is known by a number that no other object ever has; its `id` may be another's after it died.
use cachau.Prelude.{
  ℕ, String, Bool, true, false, ◌&&◌, Option, none, some, ◌==◌, ◌≡◌, refl, sym, ap, ◌∙◌, inl, inr,
  arith, if◌then◌else◌, Bool-cases,
}

-- An entry of `_TOKEN_MEMO`: the weak reference, the object it was made for, and the digest.
pub record Slot : Type 0 where
  pub reference : ℕ
  pub referent : ℕ
  pub digest : String

abbrev pub Memo : Type 0
Memo = ℕ → Option Slot

unfoldable pub put : ℕ → Slot → Memo → Memo
put memo_key slot memo key = if memo_key == key then some slot else memo key

unfoldable pub without : ℕ → Memo → Memo
without memo_key memo key = if memo_key == key then none else memo key

-- The pruner of a dead reference, uninterrupted.
abbrev pub prune_slot : Option Slot → ℕ → ℕ → Memo → Memo
prune_slot none memo_key dead_reference memo = memo
prune_slot (some slot) memo_key dead_reference memo =
    if slot.reference == dead_reference then without memo_key memo else memo

unfoldable pub prune : ℕ → ℕ → Memo → Memo
unfolding without
prune memo_key dead_reference memo = prune_slot (memo memo_key) memo_key dead_reference memo

-- `id`, `_digest_value(value).hex()` where it does not raise, and whether a value can be weakly
-- referenced. The contents of an object do not change.
module _ (id_of : ℕ → ℕ) (digest_of : ℕ → Option String) (is_referable : ℕ → Bool) where
  -- `hit is not None and hit[0]() is value`
  abbrev pub hit_digest : Option Slot → (ℕ → Bool) → ℕ → Option String
  hit_digest none alive value = none
  hit_digest (some slot) alive value =
      if alive slot.referent && (slot.referent == value) then some slot.digest else none

  -- What a computed digest leaves: the digest, with `none` for a raise, and the memo.
  abbrev pub memoized : Option String → Bool → ℕ → ℕ → Memo → Option String × Memo
  memoized none referable value reference memo = (none, memo)
  memoized (some digest) false value reference memo = (some digest, memo)
  memoized (some digest) true value reference memo = (
    some digest,
    put (id_of value) record { reference = reference; referent = value; digest = digest } memo,
  )

  abbrev pub token_or_compute : Option String → ℕ → ℕ → Memo → Option String × Memo
  token_or_compute none value reference memo =
      memoized (digest_of value) (is_referable value) value reference memo
  token_or_compute (some digest) value reference memo = (some digest, memo)

  -- `reference` is the weak reference that the call makes, if it makes one.
  unfoldable pub array_token : (ℕ → Bool) → ℕ → ℕ → Memo → Option String × Memo
  unfolding put
  array_token alive value reference memo =
      token_or_compute (hit_digest (memo (id_of value)) alive value) value reference memo

  -- One access to the memo that writes it, from any thread: the last line of `array_token`, or the
  -- `del` of a pruner, whatever stands there by then.
  pub data Step : Memo → Memo → Type 0 where
    store :
        {memo : Memo} (value reference : ℕ) (digest : String)
        → digest_of value ≡ some digest
        → Step memo (
            put
              (id_of value)
              record { reference = reference; referent = value; digest = digest }
              memo)
    delete : {memo : Memo} (memo_key : ℕ) → Step memo (without memo_key memo)

  pub data Reachable : Memo → Type 0 where
    start : Reachable (λ key. none)
    next : {memo after : Memo} → Reachable memo → Step memo after → Reachable after

  -- An entry has the digest of the object that its reference was made for.
  abbrev pub IsTrue : Option Slot → Type 0
  IsTrue none = Unit
  IsTrue (some slot) = digest_of slot.referent ≡ some slot.digest

  if-IsTrue : (b : Bool) (o p : Option Slot) → IsTrue o → IsTrue p → IsTrue (if b then o else p)
  if-IsTrue true o p h g = h
  if-IsTrue false o p h g = g

  Step-IsTrue :
      {memo after : Memo}
      → Step memo after
      → ((key : ℕ) → IsTrue (memo key))
      → (key : ℕ) → IsTrue (after key)
  unfolding put without
  Step-IsTrue (store {memo} value reference digest d) h key =
      if-IsTrue (id_of value == key) _ (memo key) d (h key)
  Step-IsTrue (delete {memo} memo_key) h key =
      if-IsTrue (memo_key == key) none (memo key) tt (h key)

  Reachable-IsTrue : {memo : Memo} → Reachable memo → (key : ℕ) → IsTrue (memo key)
  Reachable-IsTrue start key = tt
  Reachable-IsTrue (next r s) key = Step-IsTrue s (Reachable-IsTrue r) key

  memoized_digest :
      (o : Option String) (b : Bool) (value reference : ℕ) (memo : Memo)
      → (memoized o b value reference memo).0 ≡ o
  memoized_digest none b value reference memo = refl
  memoized_digest (some digest) true value reference memo = refl
  memoized_digest (some digest) false value reference memo = refl

  same_of : (a b : ℕ) (c : Bool) → c && (a == b) ≡ true → a ≡ b
  same_of a b c h = ground (arith, h)

  -- Whatever other threads and the collector did to the memo before, and whichever object had the
  -- id, the token of a value is its own digest, or the call raises where the value has none.
  pub array_token-digest_of :
      (memo : Memo) (alive : ℕ → Bool) (value reference : ℕ)
      → Reachable memo
      → (array_token alive value reference memo).0 ≡ digest_of value
  unfolding array_token
  array_token-digest_of memo alive value reference r =
      token (memo (id_of value)) (Reachable-IsTrue r (id_of value))
    where
      token :
          (o : Option Slot)
          → IsTrue o
          → (token_or_compute (hit_digest o alive value) value reference memo).0 ≡ digest_of value
      token none h = memoized_digest (digest_of value) (is_referable value) value reference memo
      token (some slot) h = elim (Bool-cases (alive slot.referent && (slot.referent == value))) [
        | inl e ↦ rw e (sym h ∙ ap digest_of (same_of slot.referent value (alive slot.referent) e))
        | inr e ↦ rw e (memoized_digest (digest_of value) (is_referable value) value reference memo)
      ]

  -- What a call, and an uninterrupted pruner, do to the memo are such steps.
  memoized-Reachable :
      (o : Option String) (b : Bool) (value reference : ℕ) (memo : Memo)
      → digest_of value ≡ o
      → Reachable memo
      → Reachable (memoized o b value reference memo).1
  memoized-Reachable none b value reference memo e r = r
  memoized-Reachable (some digest) true value reference memo e r =
      next r (store value reference digest e)
  memoized-Reachable (some digest) false value reference memo e r = r

  pub array_token-Reachable :
      (alive : ℕ → Bool) (value reference : ℕ) (memo : Memo)
      → Reachable memo
      → Reachable (array_token alive value reference memo).1
  unfolding array_token
  array_token-Reachable alive value reference memo r =
      after (hit_digest (memo (id_of value)) alive value)
    where
      after : (o : Option String) → Reachable (token_or_compute o value reference memo).1
      after none =
          memoized-Reachable (digest_of value) (is_referable value) value reference memo refl r
      after (some digest) = r

  pub prune-Reachable :
      (memo_key dead_reference : ℕ) (memo : Memo)
      → Reachable memo
      → Reachable (prune memo_key dead_reference memo)
  unfolding prune
  prune-Reachable memo_key dead_reference memo r = after (memo memo_key)
    where
      either : (b : Bool) → Reachable (if b then without memo_key memo else memo)
      either true = next r (delete memo_key)
      either false = r

      after : (o : Option Slot) → Reachable (prune_slot o memo_key dead_reference memo)
      after none = r
      after (some slot) = either (slot.reference == dead_reference)

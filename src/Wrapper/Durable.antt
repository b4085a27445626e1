-- ===== src/Wrapper/Durable.antt =====
-- src/cachau/decorator.py: what a commit has written stays, and is served.
use cachau.Backend.Laws.{StoreLaws}
use cachau.Backend.{CacheEntry}
use cachau.Control.{
  Env, State, Tally, bump, delete_errors, evictions, note_eviction, note_recached, record_commit,
  eviction_retry_batch,
}
use cachau.Policy.{LruBudget, admit, forget, evict_oldest}
use cachau.Prelude.Dict.{Dict, lookup, lookup-remove}
use cachau.Prelude.Exec.Keeps.{
  Keeps, IsPreorder, Keeps-modify, Keeps-gets, Keeps-pure, Keeps-bind, Keeps-attempt,
}
use cachau.Prelude.Exec.Total.{
  Total, Ends, Total-modify, Total-gets, Total-pure, Total-bind, Total-attempt, Ends-after,
}
use cachau.Prelude.Exec.{ok, modify, ◌>>=◌, ◌>>◌}
use cachau.Prelude.{
  Bool-cases, inl, inr, ltb, ◌+◌, ℕ, zero, suc, ◌-◌, String, List, [], ◌∷◌, Bool, false, Option,
  none, some, str_eq, take, All, ◌≡◌, ◌∙◌, arith, eq_iff, eq_refl, contains, discard,
  contains-discard,
}
use cachau.Wrapper.Action.{Fault, lift, count}
use cachau.Wrapper.Commit.{
  others, evict_delete, retry_delete, retry_all, drain_pending_evictions, evict_all, admit_into,
  after_write,
}

abbrev IsOther : String → String → Type 0
IsOther key j = str_eq j key ≡ false

evicted-others :
    (key : String) (max_bytes size total : ℕ) (sizes : Dict ℕ)
    → lookup key sizes ≡ none
    → All (IsOther key) (evict_oldest max_bytes size total sizes).evicted
unfolding evict_oldest lookup
evicted-others key max_bytes size total [] h = tt
evicted-others key max_bytes size total ((j, n) ∷ sizes) h =
    elim (Bool-cases (ltb max_bytes (total + size))) [
      | inl e ↦
          rw e (ground arith, evicted-others key max_bytes size (total - n) sizes (ground arith))
      | inr e ↦ rw e tt
    ]

admit-others : (b : LruBudget) (key : String) (size : ℕ) → All (IsOther key) (admit b key size).1
unfolding admit forget
admit-others b key size =
    evicted-others key _ size _ _ (ground (arith, lookup-remove key key b.sizes, eq_refl key))

All-others : (key : String) (keys : List String) → All (IsOther key) (others key keys)
unfolding others
All-others key [] = tt
All-others key (j ∷ keys) = elim (Bool-cases (str_eq j key)) [
  | inl e ↦ rw e (All-others key keys)
  | inr e ↦ rw e (e, All-others key keys)
]

All-take :
    (key : String) (n : ℕ) (keys : List String)
    → All (IsOther key) keys
    → All (IsOther key) (take n keys)
All-take key zero keys q = tt
All-take key (suc n) [] q = tt
All-take key (suc n) (k ∷ keys) (p, q) = (p, All-take key n keys q)

module _ (env : Env) (laws : StoreLaws env.store) (key : String) (e : CacheEntry env.Value) where
  -- The store has the entry, and goes on having it.
  abbrev Found : State env.World → Type 0
  Found s = (env.store.get key s.world).0 ≡ ok (some e)

  abbrev KeepsFound : State env.World → State env.World → Type 0
  KeepsFound s t = Found s → Found t

  found_order : IsPreorder KeepsFound
  found_order = record { here = λ s h. h; after = λ p q h. q (p h) }

  delete-Keeps : (j : String) → IsOther key j → Keeps KeepsFound (lift env (env.store.delete j))
  unfolding lift
  delete-Keeps j q = record {
    at = λ s h. laws.other_after_delete j key s.world (λ same. ground (arith, q, eq_iff j key)) ∙ h;
  }

  count-Keeps : (name : Tally) (n : ℕ) → Keeps KeepsFound (count env name n)
  unfolding count bump
  count-Keeps name n = Keeps-modify _ (λ s h. h)

  evict_delete-Keeps : (j : String) → IsOther key j → Keeps KeepsFound (evict_delete env j)
  unfolding evict_delete
  evict_delete-Keeps j q =
      Keeps-attempt found_order (delete-Keeps j q) (λ _. Keeps-pure found_order tt)
        (Keeps-bind found_order (count-Keeps delete_errors 1) λ _. Keeps-modify _ (λ s h. h))

  evict_all-Keeps :
      (evicted : List String) → All (IsOther key) evicted → Keeps KeepsFound (evict_all env evicted)
  unfolding evict_all note_eviction
  evict_all-Keeps [] q = Keeps-pure found_order tt
  evict_all-Keeps (j ∷ evicted) (p, q) = Keeps-bind found_order (evict_delete-Keeps j p) λ _.
      Keeps-bind found_order (count-Keeps evictions 1)
        λ _. Keeps-bind found_order (Keeps-modify _ (λ s h. h)) λ _. evict_all-Keeps evicted q

  admit_into-Keeps :
      (b : Option LruBudget) (size : Option ℕ) → Keeps KeepsFound (admit_into env b key size)
  admit_into-Keeps none size = Keeps-pure found_order tt
  admit_into-Keeps (some b) none = Keeps-pure found_order tt
  admit_into-Keeps (some b) (some size) =
      Keeps-bind found_order (Keeps-modify _ (λ s h. h))
        λ _. evict_all-Keeps (admit b key size).1 (admit-others b key size)

  retry_all-Keeps :
      (keys : List String) → All (IsOther key) keys → Keeps KeepsFound (retry_all env keys)
  unfolding retry_all retry_delete
  retry_all-Keeps [] q = Keeps-pure found_order tt
  retry_all-Keeps (j ∷ keys) (p, q) =
      Keeps-bind found_order
        (Keeps-attempt found_order (delete-Keeps j p) (λ _. Keeps-modify _ (λ s h. h))
          (Keeps-pure found_order tt))
        λ _. retry_all-Keeps keys q

  -- The batch is read from the state: it has other keys only, whatever the state is.
  drain-Keeps : Keeps KeepsFound (drain_pending_evictions env key)
  unfolding drain_pending_evictions ◌>>=◌
  drain-Keeps = record {
    at = λ s.
        (retry_all-Keeps (take eviction_retry_batch (others key s.pending_eviction_deletes))
            (All-take key eviction_retry_batch _ (All-others key s.pending_eviction_deletes))).at
          s;
  }

  pub after_write-Keeps :
      (size : Option ℕ) (elapsed : ℕ) (cold : Bool)
      → Keeps KeepsFound (after_write env key size elapsed cold)
  unfolding after_write record_commit note_recached
  after_write-Keeps size elapsed cold = Keeps-bind found_order (Keeps-gets found_order _) λ b.
      Keeps-bind found_order (admit_into-Keeps b size) λ _.
        Keeps-bind found_order (Keeps-modify _ (λ s h. h)) λ _.
          Keeps-bind found_order drain-Keeps λ _.
            Keeps-bind found_order (Keeps-modify _ (λ s h. h))
              λ _. Keeps-bind found_order (Keeps-modify _ (λ s h. h)) λ _. Keeps-modify _ (λ s h. h)

module _ (env : Env) where
  evict_all-Total : (keys : List String) → Total (evict_all env keys)
  unfolding evict_all evict_delete count
  evict_all-Total [] = Total-pure tt
  evict_all-Total (j ∷ keys) =
      Total-bind (Total-attempt _ Total-pure (Total-bind (Total-modify _) λ _. Total-modify _))
        λ _. Total-bind (Total-modify _) λ _. Total-bind (Total-modify _) λ _. evict_all-Total keys

  admit_into-Total :
      (b : Option LruBudget) (key : String) (size : Option ℕ) → Total (admit_into env b key size)
  admit_into-Total none key size = Total-pure tt
  admit_into-Total (some b) key none = Total-pure tt
  admit_into-Total (some b) key (some size) =
      Total-bind (Total-modify _) λ _. evict_all-Total (admit b key size).1

  retry_all-Total : (keys : List String) → Total (retry_all env keys)
  unfolding retry_all retry_delete
  retry_all-Total [] = Total-pure tt
  retry_all-Total (j ∷ keys) =
      Total-bind (Total-attempt _ (λ _. Total-modify _) (Total-pure tt)) λ _. retry_all-Total keys

  drain-Total : (key : String) → Total (drain_pending_evictions env key)
  unfolding drain_pending_evictions
  drain-Total key = Total-bind (Total-gets _) λ batch. retry_all-Total batch

  discarded :
      (key : String)
      → Ends {E = Fault env.Exn} {S = State env.World}
          (λ s. contains s.pending_invalidations key ≡ false)
          (modify (λ s. record s { pending_invalidations = discard key s.pending_invalidations })
            >> modify (note_recached key))
  unfolding note_recached ◌>>=◌
  discarded key = record {
    at = λ s. ground (arith, contains-discard key key s.pending_invalidations, eq_refl key);
  }

  -- The bookkeeping after a write runs to its end, where the key is not quarantined any more.
  pub after_write-unquarantined :
      (key : String) (size : Option ℕ) (elapsed : ℕ) (cold : Bool)
      → Ends
          (λ s. contains s.pending_invalidations key ≡ false)
          (after_write env key size elapsed cold)
  unfolding after_write
  after_write-unquarantined key size elapsed cold = Ends-after (Total-gets _) λ b.
      Ends-after (admit_into-Total b key size) λ _.
        Ends-after (Total-modify _)
          λ _. Ends-after (drain-Total key) λ _. Ends-after (Total-modify _) λ _. discarded key

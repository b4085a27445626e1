-- ===== src/Settings/Estimate/Answers.antt =====
-- src/cachau/sizes.py: the branches of `_walk`, against what an object counts for and what is in it.
use cachau.Fingerprint.Objects.{has}
use cachau.Prelude.{[], ◌∷◌, ◌≢◌, map, All, ℕ, List, true, Option, none, some, ◌≡◌, refl}
use cachau.Settings.Estimate.{
  Contents, mapping, items, dataclass_fields, plain, walked_pairs, Sizeable, report, by_usage,
  by_estimate, by_nbytes, walked_contents,
}
use cachau.Settings.Estimate.Parts.{
  IsSilent, IsFilled, IsContainer, Counts, reported_usage, estimate, bytes, own_size, IsPart,
  present, IsPart-has, has-IsPart,
}

abbrev pub children : Sizeable → List ℕ
children o = present (report o).1

pub children-IsPart :
    (o : Sizeable) (j : ℕ) → has (children o) j ≡ true → IsContainer o × IsPart o.contents j
unfolding report
children-IsPart o j h = at_usage o.memory_usage refl h
  where
    at_bytes :
        (n : Option ℕ)
        → o.nbytes ≡ n
        → has (present (by_nbytes n o.getsizeof o.contents).1) j ≡ true
        → (o.nbytes ≡ none) × IsPart o.contents j
    at_bytes none e h = (e, has-IsPart o.contents j h)
    at_bytes (some n) e h = absurd (cc)

    at_estimate :
        (a : Option (Option ℕ))
        → o.estimated_size ≡ a
        → has (present (by_estimate a o.nbytes o.getsizeof o.contents).1) j ≡ true
        → IsSilent o.estimated_size × (o.nbytes ≡ none) × IsPart o.contents j
    at_estimate none e h = let (b, p) = at_bytes o.nbytes refl h in (λ n f. cc, b, p)
    at_estimate (some none) e h = let (b, p) = at_bytes o.nbytes refl h in (λ n f. cc, b, p)
    at_estimate (some (some n)) e h = absurd (cc)

    found :
        IsSilent o.memory_usage
        → IsSilent o.estimated_size × (o.nbytes ≡ none) × IsPart o.contents j
        → IsContainer o × IsPart o.contents j
    found u (s, b, p) = (record { no_usage = u; no_estimate = s; no_bytes = b }, p)

    at_usage :
        (a : Option (Option ℕ))
        → o.memory_usage ≡ a
        → has (present (by_usage a o.estimated_size o.nbytes o.getsizeof o.contents).1) j ≡ true
        → IsContainer o × IsPart o.contents j
    at_usage none e h = found (λ n f. cc) (at_estimate o.estimated_size refl h)
    at_usage (some none) e h = found (λ n f. cc) (at_estimate o.estimated_size refl h)
    at_usage (some (some n)) e h = absurd (cc)

-- What is walked, where nothing answers for the object.
report-IsContainer :
    (o : Sizeable) → IsContainer o → report o ≡ (o.getsizeof, walked_contents o.contents)
unfolding report
report-IsContainer o c = at_usage o.memory_usage refl
  where
    whole : ℕ × List (Option ℕ)
    whole = (o.getsizeof, walked_contents o.contents)

    at_estimate :
        (a : Option (Option ℕ))
        → o.estimated_size ≡ a
        → by_estimate a o.nbytes o.getsizeof o.contents ≡ whole
    at_estimate none e = rw c.no_bytes refl
    at_estimate (some none) e = rw c.no_bytes refl
    at_estimate (some (some n)) e = absurd (c.no_estimate n e)

    at_usage :
        (a : Option (Option ℕ))
        → o.memory_usage ≡ a
        → by_usage a o.estimated_size o.nbytes o.getsizeof o.contents ≡ whole
    at_usage none e = at_estimate o.estimated_size refl
    at_usage (some none) e = at_estimate o.estimated_size refl
    at_usage (some (some n)) e = absurd (c.no_usage n e)

pub IsPart-children :
    (o : Sizeable) (j : ℕ) → IsContainer o → IsPart o.contents j → has (children o) j ≡ true
IsPart-children o j c p = rw (report-IsContainer o c) (IsPart-has p)

-- What is counted.
pub report-Counts : (o : Sizeable) → Counts o (report o).0
unfolding report
report-Counts o = at_usage o.memory_usage refl
  where
    at_bytes :
        IsSilent o.memory_usage
        → IsSilent o.estimated_size
        → (n : Option ℕ) → o.nbytes ≡ n
        → Counts o (by_nbytes n o.getsizeof o.contents).0
    at_bytes u s none e = own_size (record { no_usage = u; no_estimate = s; no_bytes = e })
    at_bytes u s (some n) e = bytes u s e

    at_estimate :
        IsSilent o.memory_usage
        → (a : Option (Option ℕ)) → o.estimated_size ≡ a
        → Counts o (by_estimate a o.nbytes o.getsizeof o.contents).0
    at_estimate u none e = at_bytes u (λ n f. cc) o.nbytes refl
    at_estimate u (some none) e = at_bytes u (λ n f. cc) o.nbytes refl
    at_estimate u (some (some n)) e = estimate u e

    at_usage :
        (a : Option (Option ℕ))
        → o.memory_usage ≡ a
        → Counts o (by_usage a o.estimated_size o.nbytes o.getsizeof o.contents).0
    at_usage none e = at_estimate (λ n f. cc) o.estimated_size refl
    at_usage (some none) e = at_estimate (λ n f. cc) o.estimated_size refl
    at_usage (some (some n)) e = reported_usage e

-- All that is walked is there, where an object without an answer has all its fields.
pub report-filled :
    (o : Sizeable) → (IsContainer o → IsFilled o.contents) → All (λ f. f ≢ none) (report o).1
unfolding report
report-filled o filled = at_usage o.memory_usage refl
  where
    pairs-filled : (pairs : List (ℕ × ℕ)) → All (λ f. f ≢ none) (walked_pairs pairs)
    pairs-filled [] = tt
    pairs-filled ((k, v) ∷ pairs) = (λ e. cc, (λ e. cc, pairs-filled pairs))

    items-filled : (objects : List ℕ) → All (λ f. f ≢ none) (map some objects)
    items-filled [] = tt
    items-filled (j ∷ objects) = (λ e. cc, items-filled objects)

    contents-filled : (c : Contents) → IsFilled c → All (λ f. f ≢ none) (walked_contents c)
    contents-filled (mapping pairs) h = pairs-filled pairs
    contents-filled (items objects) h = items-filled objects
    contents-filled (dataclass_fields fields) h = h
    contents-filled plain h = tt

    at_bytes :
        IsSilent o.memory_usage
        → IsSilent o.estimated_size
        → (n : Option ℕ) → o.nbytes ≡ n
        → All (λ f. f ≢ none) (by_nbytes n o.getsizeof o.contents).1
    at_bytes u s none e =
        contents-filled o.contents (filled (record { no_usage = u; no_estimate = s; no_bytes = e }))
    at_bytes u s (some n) e = tt

    at_estimate :
        IsSilent o.memory_usage
        → (a : Option (Option ℕ)) → o.estimated_size ≡ a
        → All (λ f. f ≢ none) (by_estimate a o.nbytes o.getsizeof o.contents).1
    at_estimate u none e = at_bytes u (λ n f. cc) o.nbytes refl
    at_estimate u (some none) e = at_bytes u (λ n f. cc) o.nbytes refl
    at_estimate u (some (some n)) e = tt

    at_usage :
        (a : Option (Option ℕ))
        → o.memory_usage ≡ a
        → All (λ f. f ≢ none) (by_usage a o.estimated_size o.nbytes o.getsizeof o.contents).1
    at_usage none e = at_estimate (λ n f. cc) o.estimated_size refl
    at_usage (some none) e = at_estimate (λ n f. cc) o.estimated_size refl
    at_usage (some (some n)) e = tt

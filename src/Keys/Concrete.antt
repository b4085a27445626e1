-- ===== src/Keys/Concrete.antt =====
-- src/cachau/keys.py: concrete types and hashes of rows, in values that are the same to `_feed`.
use cachau.Keys.DataObject.{
  join_little, polars_hash_bytes, with_concrete_type, hashed_rows, polars_rows,
}
use cachau.Keys.Frames.{AreWords, join_little_unique}
use cachau.Keys.Framing.{Bytes}
use cachau.Keys.Same.{SameValue}
use cachau.Keys.Values.{LeafKind, Value, leaf_value, labelled, unsupported}
use cachau.Prelude.{ℕ, List, Option, none, some, ◌≡◌, refl, ap}

abbrev pub HaveWords : Option (List ℕ) → Type 0
HaveWords none = Unit
HaveWords (some hashes) = AreWords hashes

-- The library hashed both, to the same.
abbrev pub SameHashes : {A : Type 0} → Option A → Option A → Type 0
SameHashes (some a) (some b) = a ≡ b
SameHashes _ _ = ⊥

pub words_same :
    (h g : Option (List ℕ))
    → HaveWords h
    → HaveWords g
    → SameHashes (polars_rows none h) (polars_rows none g)
    → SameHashes h g
unfolding polars_hash_bytes
words_same (some a) (some b) i j e = join_little_unique a b i j e
words_same (some a) none i j s = s
words_same none g i j s = absurd s

pub same_words :
    (h g : Option (List ℕ)) → SameHashes h g → SameHashes (polars_rows none h) (polars_rows none g)
unfolding polars_hash_bytes
same_words (some a) (some b) e = ap join_little e
same_words (some a) none s = s
same_words none g s = absurd s

module _ (hash : Bytes → Bytes) where
  abbrev pub IsLabelled : Value → Type 0
  IsLabelled (labelled kind text v) = Unit
  IsLabelled _ = ⊥

  pub concrete_same :
      (c k : Option Bytes) (v w : Value)
      → IsLabelled v
      → IsLabelled w
      → SameValue hash (with_concrete_type c v) (with_concrete_type k w)
      → (c ≡ k) × SameValue hash v w
  unfolding SameValue
  concrete_same none none v w i j h = (refl, h)
  concrete_same (some a) (some b) v w i j (e, h) = (ap some e, h)
  concrete_same none (some b) (labelled l t v) w i j h = absurd h
  concrete_same none (some b) v w i j h = absurd i
  concrete_same (some a) none v (labelled l t w) i j h = absurd h
  concrete_same (some a) none v w i j h = absurd j

  pub same_concrete :
      (c k : Option Bytes) (v w : Value)
      → c ≡ k
      → SameValue hash v w
      → SameValue hash (with_concrete_type c v) (with_concrete_type k w)
  unfolding SameValue
  same_concrete none none v w e h = h
  same_concrete (some a) (some b) v w e h = ((cc), h)
  same_concrete none (some b) v w e h = absurd (cc)
  same_concrete (some a) none v w e h = absurd (cc)

  pub hashes_same :
      (kind : LeafKind) (h g : Option Bytes)
      → SameValue hash (hashed_rows kind h) (hashed_rows kind g)
      → SameHashes h g
  unfolding SameValue
  hashes_same kind (some a) (some b) (k, e) = e
  hashes_same kind (some a) none s = s
  hashes_same kind none (some b) s = s
  hashes_same kind none none s = s

  pub same_hashes :
      (kind : LeafKind) (h g : Option Bytes)
      → SameHashes h g
      → SameValue hash (hashed_rows kind h) (hashed_rows kind g)
  unfolding SameValue
  same_hashes kind (some a) (some b) e = (refl, e)
  same_hashes kind (some a) none s = s
  same_hashes kind none g s = absurd s

  pub from_unsupported : (w : Value) → SameValue hash unsupported w → ⊥
  unfolding SameValue
  from_unsupported (leaf_value k p) h = h
  from_unsupported w h = h

  pub to_unsupported : (v : Value) → SameValue hash v unsupported → ⊥
  unfolding SameValue
  to_unsupported (leaf_value k p) h = h
  to_unsupported w h = h

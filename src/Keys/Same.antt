-- ===== src/Keys/Same.antt =====
-- src/cachau/keys.py: values that are the same to `_feed`, and how their digests are counted.
use cachau.Keys.Framing.{Bytes, IsShort}
use cachau.Keys.Values.{
  Value, leaf_value, subclass, labelled, with_rows, sequence_value, set_value, dict_value, object,
  unsupported, Values, no_values, value, Pairs, no_pairs, pair, Attributes, no_attributes,
  attribute, count, count_pairs, count_attributes, cons_digest, cons_pair, feed, digests,
  pair_digests,
}
use cachau.Prelude.{ℕ, suc, List, [], ◌∷◌, Option, none, some, ◌≡◌, refl, sym, ap, length, All}
use mathlib.Core.List.{Permᴰ}

-- Every length and count that is written fits its eight bytes.
unfoldable mutual
  pub IsSmall : Value → Type 0
  IsSmall (leaf_value kind payload) = IsShort (length payload)
  IsSmall (subclass identity v) = IsShort (length identity) × IsSmall v
  IsSmall (labelled kind text v) = IsShort (length text) × IsSmall v
  IsSmall (with_rows kind n v) = IsShort n × IsSmall v
  IsSmall (sequence_value kind vs) = IsShort (count vs) × AreSmall vs
  IsSmall (set_value kind vs) = IsShort (count vs)
  IsSmall (dict_value ps) = IsShort (count_pairs ps)
  IsSmall (object identity entries) =
      IsShort (length identity) × (IsShort (count_attributes entries) × AttributesSmall entries)
  IsSmall unsupported = Unit

  pub AreSmall : Values → Type 0
  AreSmall no_values = Unit
  AreSmall (value v vs) = IsSmall v × AreSmall vs

  pub AttributesSmall : Attributes → Type 0
  AttributesSmall no_attributes = Unit
  AttributesSmall (attribute name v rest) =
      IsShort (length name) × (IsSmall v × AttributesSmall rest)

module _ (hash : Bytes → Bytes) where
  -- The same digests as often, of members or of pairs.
  abbrev pub SameDigests : {A : Type 0} → Option (List A) → Option (List A) → Type 0
  SameDigests (some a) (some b) = Permᴰ a b
  SameDigests _ _ = ⊥

  -- The same kind, the same text, the same items in the same order, and the same members or pairs up
  -- to their order and their digests.
  unfoldable mutual
    unfolding feed

    pub SameValue : Value → Value → Type 0
    SameValue (leaf_value k p) (leaf_value l q) = (k ≡ l) × (p ≡ q)
    SameValue (subclass i v) (subclass j w) = (i ≡ j) × SameValue v w
    SameValue (labelled k p v) (labelled l q w) = (k ≡ l) × ((p ≡ q) × SameValue v w)
    SameValue (with_rows k n v) (with_rows l m w) = (k ≡ l) × ((n ≡ m) × SameValue v w)
    SameValue (sequence_value k vs) (sequence_value l ws) = (k ≡ l) × SameValues vs ws
    SameValue (set_value k vs) (set_value l ws) =
        (k ≡ l) × SameDigests (digests hash vs) (digests hash ws)
    SameValue (dict_value ps) (dict_value qs) =
        SameDigests (pair_digests hash ps) (pair_digests hash qs)
    SameValue (object i as') (object j bs) = (i ≡ j) × SameAttributes as' bs
    SameValue _ _ = ⊥

    pub SameValues : Values → Values → Type 0
    SameValues no_values no_values = Unit
    SameValues (value v vs) (value w ws) = SameValue v w × SameValues vs ws
    SameValues _ _ = ⊥

    pub SameAttributes : Attributes → Attributes → Type 0
    SameAttributes no_attributes no_attributes = Unit
    SameAttributes (attribute n v as') (attribute m w bs) =
        (n ≡ m) × (SameValue v w × SameAttributes as' bs)
    SameAttributes _ _ = ⊥

  module _ (size : ℕ) (fixed : (b : Bytes) → length (hash b) ≡ size) where
    pub digests_fit :
        (vs : Values) (ds : List Bytes)
        → digests hash vs ≡ some ds
        → All (λ b. length b ≡ size) ds × (length ds ≡ count vs)
    unfolding feed
    digests_fit no_values [] h = (tt, refl)
    digests_fit no_values (d ∷ ds) h = cc
    digests_fit (value v vs) ds h = fitted (feed hash v) (digests hash vs) (digests_fit vs) h
      where
        fitted :
            (o : Option Bytes) (p : Option (List Bytes))
            → ((es : List Bytes)
                → p ≡ some es
                → All (λ b. length b ≡ size) es × (length es ≡ count vs))
            → cons_digest hash o p ≡ some ds
            → All (λ b. length b ≡ size) ds × (length ds ≡ suc (count vs))
        fitted none p r h = cc
        fitted (some b) none r h = cc
        fitted (some b) (some es) r h =
            let (fit, n) = r es refl in
            let e : hash b ∷ es ≡ ds = cc in rw (sym e) ((fixed b, fit), ap suc n)

    pub pairs_fit :
        (ps : Pairs) (ds : List (Bytes × Bytes))
        → pair_digests hash ps ≡ some ds
        → All (λ d. (length d.0 ≡ size) × (length d.1 ≡ size)) ds × (length ds ≡ count_pairs ps)
    unfolding feed
    pairs_fit no_pairs [] h = (tt, refl)
    pairs_fit no_pairs (d ∷ ds) h = cc
    pairs_fit (pair k v ps) ds h =
        fitted (feed hash k) (feed hash v) (pair_digests hash ps) (pairs_fit ps) h
      where
        fitted :
            (o q : Option Bytes) (p : Option (List (Bytes × Bytes)))
            → ((es : List (Bytes × Bytes))
                → p ≡ some es
                → All (λ d. (length d.0 ≡ size) × (length d.1 ≡ size)) es
                  × (length es ≡ count_pairs ps))
            → cons_pair hash o q p ≡ some ds
            → All (λ d. (length d.0 ≡ size) × (length d.1 ≡ size)) ds
              × (length ds ≡ suc (count_pairs ps))
        fitted none q p r h = cc
        fitted (some a) none p r h = cc
        fitted (some a) (some b) none r h = cc
        fitted (some a) (some b) (some es) r h =
            let (fit, n) = r es refl in
            let e : (hash a, hash b) ∷ es ≡ ds = cc in
            rw (sym e) (((fixed a, fixed b), fit), ap suc n)

    pub same_folded :
        (vs ws : Values) (ds es : List Bytes)
        → digests hash vs ≡ some ds
        → digests hash ws ≡ some es
        → Permᴰ ds es
        → SameDigests (digests hash vs) (digests hash ws)
    same_folded vs ws ds es e f p = rw (e, f) p

    pub same_pairs :
        (vs ws : Pairs) (ds es : List (Bytes × Bytes))
        → pair_digests hash vs ≡ some ds
        → pair_digests hash ws ≡ some es
        → Permᴰ ds es
        → SameDigests (pair_digests hash vs) (pair_digests hash ws)
    same_pairs vs ws ds es e f p = rw (e, f) p

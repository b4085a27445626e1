-- ===== src/Keys/SameObject.antt =====
-- src/cachau/keys.py: when `_feed` takes two arrays, frames or series for the same one.
use cachau.Keys.Agree.{SameValue-feed}
use cachau.Keys.Concrete.{
  HaveWords, SameHashes, concrete_same, same_concrete, hashes_same, same_hashes, words_same,
  same_words, from_unsupported, to_unsupported,
}
use cachau.Keys.DataObject.{
  DataObject, object_array, array, scalar, pl_frame, pl_series, lazy_frame, dataframe, series,
  index, feed_data_object,
}
use cachau.Keys.Frames.{IsLittle, feed_data_object-little}
use cachau.Keys.Framing.{Bytes}
use cachau.Keys.Same.{IsSmall, SameValue, SameValues}
use cachau.Keys.Unique.{feed-SameValue}
use cachau.Keys.Values.{
  feed, pl_frame_data, pl_series_data, dataframe_data, series_data, index_data,
}
use cachau.Prelude.{ℕ, List, Option, none, some, ◌≡◌, ◌↔◌, refl, sym, ap, ◌∙◌, length, ◌++◌, []}

-- The hashes that polars gives are of 64 bits.
abbrev pub HasWords : DataObject → Type 0
HasWords (pl_frame schema height hashes) = HaveWords hashes
HasWords (pl_series name dtype size hashes) = HaveWords hashes
HasWords (object_array shape items) = Unit
HasWords d = Unit

module _ (hash : Bytes → Bytes) where
  -- The same branch, the same concrete type, the same texts and counts, and the same items, buffer or
  -- hashes of rows. A scalar is its item.
  unfoldable pub SameObject : Option Bytes → DataObject → Option Bytes → DataObject → Type 0
  unfolding feed_data_object SameValue
  SameObject c (scalar v) k e = SameValue hash v (feed_data_object none k e)
  SameObject c d k (scalar w) = SameValue hash (feed_data_object none c d) w
  SameObject c (object_array s vs) k (object_array t ws) =
      (c ≡ k) × ((s ≡ t) × SameValues hash vs ws)
  SameObject c (array s d b) k (array t e b') = (c ≡ k) × ((s ≡ t) × ((d ≡ e) × (b ≡ b')))
  SameObject c (pl_frame s n h) k (pl_frame t m g) =
      (c ≡ k) × ((s ≡ t) × ((n ≡ m) × SameHashes h g))
  SameObject c (pl_series i d n h) k (pl_series j e m g) =
      (c ≡ k) × ((i ≡ j) × ((d ≡ e) × ((n ≡ m) × SameHashes h g)))
  SameObject c (dataframe i d h) k (dataframe j e g) =
      (c ≡ k) × ((i ≡ j) × ((d ≡ e) × SameHashes h g))
  SameObject c (series i d h) k (series j e g) = (c ≡ k) × ((i ≡ j) × ((d ≡ e) × SameHashes h g))
  SameObject c (index d h) k (index e g) = (c ≡ k) × ((d ≡ e) × SameHashes h g)
  SameObject _ _ _ _ = ⊥

  object-SameObject :
      (c : Option Bytes) (d : DataObject) (k : Option Bytes) (e : DataObject)
      → HasWords d
      → HasWords e
      → SameValue hash (feed_data_object none c d) (feed_data_object none k e)
      → SameObject c d k e
  unfolding feed_data_object SameObject SameValue
  object-SameObject c (scalar v) k e i j h = h
  object-SameObject c (object_array s vs) k (scalar w) i j h = h
  object-SameObject c d k (scalar w) i j h = h
  object-SameObject c lazy_frame k e i j h =
      absurd (from_unsupported hash (feed_data_object none k e) h)
  object-SameObject c d k lazy_frame i j h =
      absurd (to_unsupported hash (feed_data_object none c d) h)
  object-SameObject c (object_array s vs) k (object_array t ws) i j h =
      let (con, (l, (e, (o, same)))) = concrete_same hash c k _ _ tt tt h in (con, (e, same))
  object-SameObject c (array s d b) k (array t e b') i j h =
      let (con, (l, (p, (l', (q, (o, r)))))) = concrete_same hash c k _ _ tt tt h in
      (con, (p, (q, r)))
  object-SameObject c (pl_frame s n g) k (pl_frame t m g') i j h =
      let (con, (l, (p, (l', (q, r))))) = concrete_same hash c k _ _ tt tt h in
      (con, (p, (q, words_same g g' i j (hashes_same hash pl_frame_data _ _ r))))
  object-SameObject c (pl_series s d n g) k (pl_series t e m g') i j h =
      let (con, (l, (p, (l', (q, (l'', (o, r))))))) = concrete_same hash c k _ _ tt tt h in
      (con, (p, (q, (o, words_same g g' i j (hashes_same hash pl_series_data _ _ r)))))
  object-SameObject c (dataframe s d g) k (dataframe t e g') i j h =
      let (con, (l, (p, (l', (q, r))))) = concrete_same hash c k _ _ tt tt h in
      (con, (p, (q, hashes_same hash dataframe_data _ _ r)))
  object-SameObject c (series s d g) k (series t e g') i j h =
      let (con, (l, (p, (l', (q, r))))) = concrete_same hash c k _ _ tt tt h in
      (con, (p, (q, hashes_same hash series_data _ _ r)))
  object-SameObject c (index d g) k (index e g') i j h =
      let (con, (l, (p, r))) = concrete_same hash c k _ _ tt tt h in
      (con, (p, hashes_same hash index_data _ _ r))
  object-SameObject c (object_array s vs) k (array t e b) i j h =
      let (con, (l, (p, r))) = concrete_same hash c k _ _ tt tt h in absurd r
  object-SameObject c (array s d b) k (object_array t ws) i j h =
      let (con, (l, (p, r))) = concrete_same hash c k _ _ tt tt h in absurd r
  object-SameObject c d k e i j h =
      let (con, same) =
        concrete_same hash c k (feed_data_object none none d) (feed_data_object none none e) tt tt
          h in
      absurd (cc (same.0))

  SameObject-object :
      (c : Option Bytes) (d : DataObject) (k : Option Bytes) (e : DataObject)
      → SameObject c d k e
      → SameValue hash (feed_data_object none c d) (feed_data_object none k e)
  unfolding feed_data_object SameObject SameValue
  SameObject-object c (scalar v) k e h = h
  SameObject-object c (object_array s vs) k (scalar w) h = h
  SameObject-object c d k (scalar w) h = h
  SameObject-object c (object_array s vs) k (object_array t ws) (con, (e, same)) =
      same_concrete hash c k _ _ con (refl, (e, (refl, same)))
  SameObject-object c (array s d b) k (array t e b') (con, (p, (q, r))) =
      same_concrete hash c k _ _ con (refl, (p, (refl, (q, (refl, r)))))
  SameObject-object c (pl_frame s n g) k (pl_frame t m g') (con, (p, (q, r))) =
      same_concrete hash c k _ _ con
        (refl, (p, (refl, (q, same_hashes hash pl_frame_data _ _ (same_words g g' r)))))
  SameObject-object c (pl_series s d n g) k (pl_series t e m g') (con, (p, (q, (o, r)))) =
      same_concrete hash c k _ _ con (
        refl,
        (p, (refl, (q, (refl, (o, same_hashes hash pl_series_data _ _ (same_words g g' r)))))),
      )
  SameObject-object c (dataframe s d g) k (dataframe t e g') (con, (p, (q, r))) =
      same_concrete hash c k _ _ con (refl, (p, (refl, (q, same_hashes hash dataframe_data _ _ r))))
  SameObject-object c (series s d g) k (series t e g') (con, (p, (q, r))) =
      same_concrete hash c k _ _ con (refl, (p, (refl, (q, same_hashes hash series_data _ _ r))))
  SameObject-object c (index d g) k (index e g') (con, (p, r)) =
      same_concrete hash c k _ _ con (refl, (p, same_hashes hash index_data _ _ r))
  SameObject-object c d k e h = absurd h

  module _ (size : ℕ) (fixed : (b : Bytes) → length (hash b) ≡ size) where
    -- Two arrays, frames, series or numpy scalars that `_feed` accepts are fed as the same bytes exactly
    -- where they are of the same branch and concrete type, with the same shape, schema, dtypes, names
    -- and number of rows, and with the same items, buffer or hashes of rows. A scalar is its `item()`,
    -- and items are the same up to the order and the digests of what their sets and dicts hold.
    -- Either may be fed with numpy imported or without it, which makes no difference. It is for a hash
    -- function with digests of one length, for lengths and counts that eight bytes can hold, and where
    -- polars hashes to 64 bits and numpy, where it is imported, writes those with the low byte first.
    pub feed_data_object-SameObject :
        (numpy numpy' : Option (List ℕ → Bytes)) (c k : Option Bytes) (d e : DataObject)
        (a b : Bytes)
        → IsLittle numpy
        → IsLittle numpy'
        → HasWords d
        → HasWords e
        → IsSmall (feed_data_object none c d)
        → IsSmall (feed_data_object none k e)
        → feed hash (feed_data_object numpy c d) ≡ some a
        → feed hash (feed_data_object numpy' k e) ≡ some b
        → (a ≡ b) ↔ SameObject c d k e
    feed_data_object-SameObject numpy numpy' c k d e a b l m i j is' js h g =
        let h' = ap (feed hash) (sym (feed_data_object-little numpy c d l)) ∙ h in
        let g' = ap (feed hash) (sym (feed_data_object-little numpy' k e m)) ∙ g in
        (
          λ same.
              object-SameObject c d k e i j
                (feed-SameValue hash size fixed (feed_data_object none c d)
                  (feed_data_object none k e) a b [] [] is' js h' g' (ap (λ x. x ++ []) same)).0,
          λ same.
              let fed =
                sym h'
                ∙ SameValue-feed hash size fixed (feed_data_object none c d)
                    (feed_data_object none k e) (SameObject-object c d k e same)
                ∙ g' in
              cc,
        )

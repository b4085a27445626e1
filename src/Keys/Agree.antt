-- ===== src/Keys/Agree.antt =====
-- src/cachau/keys.py: values that are the same to `_feed` are fed as the same bytes.
use cachau.Keys.Decoding.{length_perm}
use cachau.Keys.Framing.{Bytes, emit_count}
use cachau.Keys.Permuted.{folded_perm, folded_pairs_perm}
use cachau.Keys.Same.{SameValue, SameValues, SameAttributes, SameDigests, digests_fit, pairs_fit}
use cachau.Keys.Values.{
  leaf_value, subclass, labelled, with_rows, sequence_value, set_value, dict_value, object, Value,
  Values, no_values, value, Attributes, no_attributes, attribute, count, count_pairs,
  count_attributes, tag, collection, dict, folded, folded_pairs, feed, feed_all, feed_attributes,
  digests, pair_digests,
}
use cachau.Prelude.{ℕ, suc, List, Option, some, ◌≡◌, refl, sym, ap, ◌∙◌, length}

module _ (hash : Bytes → Bytes) where
  folded_same :
      (front : ℕ → Bytes) (n m : ℕ) (o p : Option (List Bytes))
      → ((ds : List Bytes) → o ≡ some ds → length ds ≡ n)
      → ((ds : List Bytes) → p ≡ some ds → length ds ≡ m)
      → SameDigests hash o p
      → folded (front n) o ≡ folded (front m) p
  folded_same front n m (some a) (some b) i j h =
      ap (λ k. folded (front k) (some a)) (sym (i a refl) ∙ length_perm h ∙ j b refl)
      ∙ folded_perm (front m) (some a) (some b) h
  folded_same front n m o p i j h = absurd h

  folded_pairs_same :
      (front : ℕ → Bytes) (n m : ℕ) (o p : Option (List (Bytes × Bytes)))
      → ((ds : List (Bytes × Bytes)) → o ≡ some ds → length ds ≡ n)
      → ((ds : List (Bytes × Bytes)) → p ≡ some ds → length ds ≡ m)
      → SameDigests hash o p
      → folded_pairs (front n) o ≡ folded_pairs (front m) p
  folded_pairs_same front n m (some a) (some b) i j h =
      ap (λ k. folded_pairs (front k) (some a)) (sym (i a refl) ∙ length_perm h ∙ j b refl)
      ∙ folded_pairs_perm (front m) (some a) (some b) h
  folded_pairs_same front n m o p i j h = absurd h

  module _ (size : ℕ) (fixed : (b : Bytes) → length (hash b) ≡ size) where
    mutual
      unfolding feed SameValue

      agree : (v w : Value) → SameValue hash v w → feed hash v ≡ feed hash w
      agree (leaf_value k p) (leaf_value l q) (e, f) = cc
      agree (subclass i v) (subclass j w) (e, h) = cc (agree v w h)
      agree (labelled k p v) (labelled l q w) (e, (f, h)) = cc (agree v w h)
      agree (with_rows k n v) (with_rows l m w) (e, (f, h)) = cc (agree v w h)
      agree (sequence_value k vs) (sequence_value l ws) (e, h) =
          let (n, fed) = items_agree vs ws h in cc
      agree (set_value k vs) (set_value l ws) (e, h) =
          ap (λ c. folded (emit_count (tag (collection c)) (count vs)) (digests hash vs)) e
          ∙ folded_same (emit_count (tag (collection l))) (count vs) (count ws) (digests hash vs)
              (digests hash ws) (λ ds d. (digests_fit hash size fixed vs ds d).1)
              (λ ds d. (digests_fit hash size fixed ws ds d).1) h
      agree (dict_value ps) (dict_value qs) h =
          folded_pairs_same (emit_count (tag dict)) (count_pairs ps) (count_pairs qs)
            (pair_digests hash ps) (pair_digests hash qs)
            (λ ds d. (pairs_fit hash size fixed ps ds d).1)
            (λ ds d. (pairs_fit hash size fixed qs ds d).1) h
      agree (object i as') (object j bs) (e, h) = let (n, fed) = fields_agree as' bs h in cc
      agree v w h = absurd h

      items_agree :
          (vs ws : Values)
          → SameValues hash vs ws
          → (count vs ≡ count ws) × (feed_all hash vs ≡ feed_all hash ws)
      items_agree no_values no_values h = (refl, refl)
      items_agree (value v vs) (value w ws) (h, t) =
          let (n, fed) = items_agree vs ws t in (ap suc n, cc (agree v w h))
      items_agree vs ws h = absurd h

      fields_agree :
          (as' bs : Attributes)
          → SameAttributes hash as' bs
          → (count_attributes as' ≡ count_attributes bs)
            × (feed_attributes hash as' ≡ feed_attributes hash bs)
      fields_agree no_attributes no_attributes h = (refl, refl)
      fields_agree (attribute n v as') (attribute m w bs) (e, (h, t)) =
          let (k, fed) = fields_agree as' bs t in (ap suc k, cc (agree v w h))
      fields_agree as' bs h = absurd h

    pub SameValue-feed : (v w : Value) → SameValue hash v w → feed hash v ≡ feed hash w
    SameValue-feed = agree

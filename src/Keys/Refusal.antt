-- ===== src/Keys/Refusal.antt =====
-- src/cachau/keys.py: which values `_feed` refuses.
use cachau.Keys.Values.{
  Value, Values, Pairs, Attributes, leaf_value, subclass, labelled, with_rows, label, rows,
  sequence_value, set_value, dict_value, object, unsupported, no_values, value, no_pairs, pair,
  no_attributes, attribute, after, both, folded, folded_pairs, cons_digest, cons_pair, feed,
  feed_all, feed_attributes, digests, pair_digests, tag, subtype, sequence, collection, dict,
  dataclass, fields, field, count, count_pairs, count_attributes,
}
use cachau.Keys.Framing.{Bytes, emit, emit_count}
use cachau.Prelude.{List, Bool, true, false, ◌&&◌, Option, none, some, is_some, ◌≡◌, refl, ◌∙◌}

-- No part of the value is of a type without support.
mutual
  pub supported : Value → Bool
  supported (leaf_value kind payload) = true
  supported (subclass identity v) = supported v
  supported (labelled kind text v) = supported v
  supported (with_rows kind n v) = supported v
  supported (sequence_value kind vs) = all_supported vs
  supported (set_value kind vs) = all_supported vs
  supported (dict_value ps) = pairs_supported ps
  supported (object identity attributes) = attributes_supported attributes
  supported unsupported = false

  all_supported : Values → Bool
  all_supported no_values = true
  all_supported (value v vs) = supported v && all_supported vs

  pairs_supported : Pairs → Bool
  pairs_supported no_pairs = true
  pairs_supported (pair k v ps) = supported k && (supported v && pairs_supported ps)

  attributes_supported : Attributes → Bool
  attributes_supported no_attributes = true
  attributes_supported (attribute name v rest) = supported v && attributes_supported rest

is_some-after : (b : Bytes) (o : Option Bytes) → is_some (after b o) ≡ is_some o
is_some-after b none = refl
is_some-after b (some rest) = refl

is_some-both : (o p : Option Bytes) → is_some (both o p) ≡ is_some o && is_some p
is_some-both none p = refl
is_some-both (some b) p = is_some-after b p

is_some-folded : (b : Bytes) (o : Option (List Bytes)) → is_some (folded b o) ≡ is_some o
is_some-folded b none = refl
is_some-folded b (some ds) = refl

is_some-folded_pairs :
    (b : Bytes) (o : Option (List (Bytes × Bytes))) → is_some (folded_pairs b o) ≡ is_some o
is_some-folded_pairs b none = refl
is_some-folded_pairs b (some ds) = refl

module _ (hash : Bytes → Bytes) where
  is_some-cons_digest :
      (o : Option Bytes) (p : Option (List Bytes))
      → is_some (cons_digest hash o p) ≡ is_some o && is_some p
  is_some-cons_digest none p = refl
  is_some-cons_digest (some b) none = refl
  is_some-cons_digest (some b) (some ds) = refl

  is_some-cons_pair :
      (o p : Option Bytes) (q : Option (List (Bytes × Bytes)))
      → is_some (cons_pair hash o p q) ≡ is_some o && (is_some p && is_some q)
  is_some-cons_pair none p q = refl
  is_some-cons_pair (some a) none q = refl
  is_some-cons_pair (some a) (some b) none = refl
  is_some-cons_pair (some a) (some b) (some ds) = refl

  mutual
    unfolding feed supported

    value-supported : (v : Value) → is_some (feed hash v) ≡ supported v
    value-supported (leaf_value kind payload) = refl
    value-supported (subclass identity v) =
        is_some-after (emit (tag subtype) identity) (feed hash v) ∙ value-supported v
    value-supported (labelled kind text v) =
        is_some-after (emit (tag (label kind)) text) (feed hash v) ∙ value-supported v
    value-supported (with_rows kind n v) =
        is_some-after (emit_count (tag (rows kind)) n) (feed hash v) ∙ value-supported v
    value-supported (sequence_value kind vs) =
        is_some-after (emit_count (tag (sequence kind)) (count vs)) (feed_all hash vs)
        ∙ feed_all-supported vs
    value-supported (set_value kind vs) =
        is_some-folded (emit_count (tag (collection kind)) (count vs)) (digests hash vs)
        ∙ digests-supported vs
    value-supported (dict_value ps) =
        is_some-folded_pairs (emit_count (tag dict) (count_pairs ps)) (pair_digests hash ps)
        ∙ pairs-supported ps
    value-supported (object identity attributes) =
        is_some-after (emit (tag dataclass) identity) (
          after (emit_count (tag fields) (count_attributes attributes))
            (feed_attributes hash attributes))
        ∙ is_some-after (emit_count (tag fields) (count_attributes attributes))
            (feed_attributes hash attributes)
        ∙ attributes-supported attributes
    value-supported unsupported = refl

    feed_all-supported : (vs : Values) → is_some (feed_all hash vs) ≡ all_supported vs
    feed_all-supported no_values = refl
    feed_all-supported (value v vs) =
        is_some-both (feed hash v) (feed_all hash vs)
        ∙ rw (value-supported v, feed_all-supported vs) refl

    digests-supported : (vs : Values) → is_some (digests hash vs) ≡ all_supported vs
    digests-supported no_values = refl
    digests-supported (value v vs) =
        is_some-cons_digest (feed hash v) (digests hash vs)
        ∙ rw (value-supported v, digests-supported vs) refl

    pairs-supported : (ps : Pairs) → is_some (pair_digests hash ps) ≡ pairs_supported ps
    pairs-supported no_pairs = refl
    pairs-supported (pair k v ps) =
        is_some-cons_pair (feed hash k) (feed hash v) (pair_digests hash ps)
        ∙ rw (value-supported k, value-supported v, pairs-supported ps) refl

    attributes-supported :
        (attributes : Attributes)
        → is_some (feed_attributes hash attributes) ≡ attributes_supported attributes
    attributes-supported no_attributes = refl
    attributes-supported (attribute name v rest) =
        is_some-after (emit (tag field) name) (both (feed hash v) (feed_attributes hash rest))
        ∙ is_some-both (feed hash v) (feed_attributes hash rest)
        ∙ rw (value-supported v, attributes-supported rest) refl

  -- A value is refused exactly where some part of it, a key, a member, an item or a field at any
  -- depth, is of a type without support: nothing is left out of a digest in silence.
  pub feed-supported : (v : Value) → is_some (feed hash v) ≡ supported v
  feed-supported v = value-supported v

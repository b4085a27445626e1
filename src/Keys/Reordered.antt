-- ===== src/Keys/Reordered.antt =====
-- src/cachau/keys.py: the order in which dicts and sets give their members.
use cachau.Keys.Framing.{Bytes, emit, emit_count}
use cachau.Keys.Permuted.{
  Permuted, Permuted-trans, folded_perm, folded_pairs_perm, cons-Permuted, cons_swapped,
  pair-Permuted, pair_swapped,
}
use cachau.Keys.Values.{
  SequenceKind, SetKind, Label, RowsKind, labelled, with_rows, label, rows, collection, subtype,
  dict, tag, Value, subclass, sequence_value, set_value, dict_value, object, Values, no_values,
  value, Pairs, no_pairs, pair, Attributes, no_attributes, attribute, count, count_pairs,
  count_attributes, after, folded, folded_pairs, feed, feed_all, feed_attributes, digests,
  pair_digests,
}
use cachau.Prelude.{ℕ, suc, ◌≡◌, refl, ap, ◌∙◌}
use mathlib.Core.List.{Permᴰ}

-- The same value, but for the order in which its sets and dicts iterate, at every depth.
mutual
  pub data Reordered : Value → Value → Type 0 where
    as_is : (v : Value) → Reordered v v
    same_subclass :
        (identity : Bytes) {v w : Value}
        → Reordered v w
        → Reordered (subclass identity v) (subclass identity w)
    same_label :
        (kind : Label) (text : Bytes) {v w : Value}
        → Reordered v w
        → Reordered (labelled kind text v) (labelled kind text w)
    same_rows :
        (kind : RowsKind) (n : ℕ) {v w : Value}
        → Reordered v w
        → Reordered (with_rows kind n v) (with_rows kind n w)
    same_sequence :
        (kind : SequenceKind) {vs ws : Values}
        → ReorderedItems vs ws
        → Reordered (sequence_value kind vs) (sequence_value kind ws)
    same_set :
        (kind : SetKind) {vs ws : Values}
        → ShuffledMembers vs ws
        → Reordered (set_value kind vs) (set_value kind ws)
    same_dict : {ps qs : Pairs} → ShuffledPairs ps qs → Reordered (dict_value ps) (dict_value qs)
    same_object :
        (identity : Bytes) {a b : Attributes}
        → ReorderedFields a b
        → Reordered (object identity a) (object identity b)

  pub data ReorderedItems : Values → Values → Type 0 where
    no_items : ReorderedItems no_values no_values
    item :
        {v w : Value} {vs ws : Values}
        → Reordered v w
        → ReorderedItems vs ws
        → ReorderedItems (value v vs) (value w ws)

  pub data ReorderedFields : Attributes → Attributes → Type 0 where
    no_fields : ReorderedFields no_attributes no_attributes
    same_field :
        (name : Bytes) {v w : Value} {a b : Attributes}
        → Reordered v w
        → ReorderedFields a b
        → ReorderedFields (attribute name v a) (attribute name w b)

  pub data ShuffledMembers : Values → Values → Type 0 where
    no_members : ShuffledMembers no_values no_values
    member :
        {v w : Value} {vs ws : Values}
        → Reordered v w
        → ShuffledMembers vs ws
        → ShuffledMembers (value v vs) (value w ws)
    swap_members :
        {v w : Value} {vs : Values} → ShuffledMembers (value v (value w vs)) (value w (value v vs))
    then_members :
        {us vs ws : Values} → ShuffledMembers us vs → ShuffledMembers vs ws → ShuffledMembers us ws

  pub data ShuffledPairs : Pairs → Pairs → Type 0 where
    no_entries : ShuffledPairs no_pairs no_pairs
    entry :
        {k l v w : Value} {ps qs : Pairs}
        → Reordered k l
        → Reordered v w
        → ShuffledPairs ps qs
        → ShuffledPairs (pair k v ps) (pair l w qs)
    swap_entries :
        {k l v w : Value} {ps : Pairs}
        → ShuffledPairs (pair k v (pair l w ps)) (pair l w (pair k v ps))
    then_entries :
        {ps qs rs : Pairs} → ShuffledPairs ps qs → ShuffledPairs qs rs → ShuffledPairs ps rs

module _ (hash : Bytes → Bytes) where
  mutual
    unfolding feed

    same_feed : {v w : Value} → Reordered v w → feed hash v ≡ feed hash w
    same_feed (as_is v) = refl
    same_feed (same_subclass identity h) = ap (after (emit (tag subtype) identity)) (same_feed h)
    same_feed (same_label kind text h) = ap (after (emit (tag (label kind)) text)) (same_feed h)
    same_feed (same_rows kind n h) = ap (after (emit_count (tag (rows kind)) n)) (same_feed h)
    same_feed (same_sequence kind {vs} {ws} h) = cc (items_count h, items_feed h)
    same_feed (same_set kind {vs} {ws} h) =
        ap (λ n. folded (emit_count (tag (collection kind)) n) (digests hash vs)) (members_count h)
        ∙ folded_perm (emit_count (tag (collection kind)) (count ws)) (digests hash vs)
            (digests hash ws) (members_digests h)
    same_feed (same_dict {ps} {qs} h) =
        ap (λ n. folded_pairs (emit_count (tag dict) n) (pair_digests hash ps)) (entries_count h)
        ∙ folded_pairs_perm (emit_count (tag dict) (count_pairs qs)) (pair_digests hash ps)
            (pair_digests hash qs) (entries_digests h)
    same_feed (same_object identity h) = cc (fields_count h, fields_feed h)

    items_count : {vs ws : Values} → ReorderedItems vs ws → count vs ≡ count ws
    items_count no_items = refl
    items_count (item h t) = ap suc (items_count t)

    items_feed : {vs ws : Values} → ReorderedItems vs ws → feed_all hash vs ≡ feed_all hash ws
    items_feed no_items = refl
    items_feed (item h t) = cc (same_feed h, items_feed t)

    fields_count :
        {a b : Attributes} → ReorderedFields a b → count_attributes a ≡ count_attributes b
    fields_count no_fields = refl
    fields_count (same_field name h t) = ap suc (fields_count t)

    fields_feed :
        {a b : Attributes} → ReorderedFields a b → feed_attributes hash a ≡ feed_attributes hash b
    fields_feed no_fields = refl
    fields_feed (same_field name h t) = cc (same_feed h, fields_feed t)

    members_count : {vs ws : Values} → ShuffledMembers vs ws → count vs ≡ count ws
    members_count no_members = refl
    members_count (member h t) = ap suc (members_count t)
    members_count swap_members = refl
    members_count (then_members g h) = members_count g ∙ members_count h

    members_digests :
        {vs ws : Values} → ShuffledMembers vs ws → Permuted (digests hash vs) (digests hash ws)
    members_digests no_members = Permᴰ.nil
    members_digests (member {v} {w} {vs} {ws} h t) =
        rw (same_feed h)
          (cons-Permuted hash (feed hash w) (digests hash vs) (digests hash ws) (members_digests t))
    members_digests (swap_members {v} {w} {vs}) =
        cons_swapped hash (feed hash v) (feed hash w) (digests hash vs)
    members_digests (then_members {us} {vs} {ws} g h) =
        Permuted-trans (digests hash us) (digests hash vs) (digests hash ws) (members_digests g)
          (members_digests h)

    entries_count : {ps qs : Pairs} → ShuffledPairs ps qs → count_pairs ps ≡ count_pairs qs
    entries_count no_entries = refl
    entries_count (entry g h t) = ap suc (entries_count t)
    entries_count swap_entries = refl
    entries_count (then_entries g h) = entries_count g ∙ entries_count h

    entries_digests :
        {ps qs : Pairs}
        → ShuffledPairs ps qs
        → Permuted (pair_digests hash ps) (pair_digests hash qs)
    entries_digests no_entries = Permᴰ.nil
    entries_digests (entry {k} {l} {v} {w} {ps} {qs} g h t) =
        rw (same_feed g, same_feed h)
          (pair-Permuted hash (feed hash l) (feed hash w) (pair_digests hash ps)
            (pair_digests hash qs) (entries_digests t))
    entries_digests (swap_entries {k} {l} {v} {w} {ps}) =
        pair_swapped hash (feed hash k) (feed hash v) (feed hash l) (feed hash w)
          (pair_digests hash ps)
    entries_digests (then_entries {ps} {qs} {rs} g h) =
        Permuted-trans (pair_digests hash ps) (pair_digests hash qs) (pair_digests hash rs)
          (entries_digests g) (entries_digests h)

  -- A value is fed as the same bytes, or refused, whatever the order is in which its sets and dicts
  -- give their members, at any depth inside sequences, fields, keys and items.
  pub feed-Reordered : (v w : Value) → Reordered v w → feed hash v ≡ feed hash w
  feed-Reordered v w h = same_feed h

-- ===== src/Keys/Unique.antt =====
-- src/cachau/keys.py: which values `_feed` tells apart, below their kinds.
use cachau.Keys.Decoding.{
  after_some, both-some, folded-some, folded_pairs-some, peel, peel_count, folded_unique,
  folded_pairs_unique,
}
use cachau.Keys.Framing.{Bytes, emit, emit_count}
use cachau.Keys.Same.{
  IsSmall, AreSmall, AttributesSmall, SameValue, SameValues, SameAttributes, digests_fit, pairs_fit,
  same_folded, same_pairs,
}
use cachau.Keys.Tags.{feed-first}
use cachau.Keys.Values.{
  leaf, sequence, collection, subtype, dataclass, fields, field, dict, tag, Value, leaf_value,
  subclass, labelled, with_rows, label, rows, sequence_value, set_value, dict_value, object,
  unsupported, Values, no_values, value, Attributes, no_attributes, attribute, count, count_pairs,
  count_attributes, after, both, feed, feed_all, feed_attributes, digests, pair_digests,
}
use cachau.Prelude.{ℕ, [], ◌++◌, some, ◌≡◌, sym, ap, ◌∙◌, arith, length}
use mathlib.Core.List.{append_assoc, append-nil}

module _ (hash : Bytes → Bytes) where
  some_eq : {x : Bytes} (a : Bytes) → some x ≡ some a → x ≡ a
  some_eq a h = cc

  regroup :
      (x xs y ys a b r s : Bytes)
      → a ≡ x ++ xs
      → b ≡ y ++ ys
      → a ++ r ≡ b ++ s
      → x ++ (xs ++ r) ≡ y ++ (ys ++ s)
  regroup x xs y ys a b r s e f h =
      sym (append_assoc x xs r)
      ∙ ap (λ z. z ++ r) (sym e)
      ∙ h
      ∙ ap (λ z. z ++ s) f
      ∙ append_assoc y ys s

  module _ (size : ℕ) (fixed : (b : Bytes) → length (hash b) ≡ size) where
    mutual
      unfolding feed IsSmall SameValue

      same_value :
          (v w : Value) (a b r s : Bytes)
          → IsSmall v
          → IsSmall w
          → feed hash v ≡ some a
          → feed hash w ≡ some b
          → a ++ r ≡ b ++ s
          → SameValue hash v w × (r ≡ s)
      same_value (leaf_value k p) (leaf_value l q) a b r s i j e f h =
          let (tags, payload, rest) =
            peel (leaf k) (leaf l) p q [] [] a b r s i j
              (sym (some_eq a e) ∙ sym (append-nil (emit (tag (leaf k)) p)))
              (sym (some_eq b f) ∙ sym (append-nil (emit (tag (leaf l)) q))) h in
          (((cc), payload), rest)
      same_value (subclass k v) (subclass l w) a b r s (i, is') (j, js) e f h =
          let (x, e', a') = after_some (emit (tag subtype) k) a (feed hash v) e in
          let (y, f', b') = after_some (emit (tag subtype) l) b (feed hash w) f in
          let (tags, identity, rest) = peel subtype subtype k l x y a b r s i j a' b' h in
          let (same, over) = same_value v w x y r s is' js e' f' rest in ((identity, same), over)
      same_value (labelled k p v) (labelled l q w) a b r s (i, is') (j, js) e f h =
          let (x, e', a') = after_some (emit (tag (label k)) p) a (feed hash v) e in
          let (y, f', b') = after_some (emit (tag (label l)) q) b (feed hash w) f in
          let (tags, texts, rest) = peel (label k) (label l) p q x y a b r s i j a' b' h in
          let (same, over) = same_value v w x y r s is' js e' f' rest in ((cc, (texts, same)), over)
      same_value (with_rows k n v) (with_rows l m w) a b r s (i, is') (j, js) e f h =
          let (x, e', a') = after_some (emit_count (tag (rows k)) n) a (feed hash v) e in
          let (y, f', b') = after_some (emit_count (tag (rows l)) m) b (feed hash w) f in
          let (tags, counts, rest) = peel_count (rows k) (rows l) n m x y a b r s i j a' b' h in
          let (same, over) = same_value v w x y r s is' js e' f' rest in
          ((cc, (counts, same)), over)
      same_value (sequence_value k vs) (sequence_value l ws) a b r s (i, is') (j, js) e f h =
          let (x, e', a') =
            after_some (emit_count (tag (sequence k)) (count vs)) a (feed_all hash vs) e in
          let (y, f', b') =
            after_some (emit_count (tag (sequence l)) (count ws)) b (feed_all hash ws) f in
          let (tags, counts, rest) =
            peel_count (sequence k) (sequence l) (count vs) (count ws) x y a b r s i j a' b' h in
          let (same, over) = same_values vs ws x y r s is' js counts e' f' rest in
          ((cc, same), over)
      same_value (set_value k vs) (set_value l ws) a b r s i j e f h =
          let (ds, e', a') =
            folded-some (emit_count (tag (collection k)) (count vs)) a (digests hash vs) e in
          let (es, f', b') =
            folded-some (emit_count (tag (collection l)) (count ws)) b (digests hash ws) f in
          let (tags, counts, rest) =
            peel_count (collection k) (collection l) (count vs) (count ws) _ _ a b r s i j a' b'
              h in
          let (fit, n) = digests_fit hash size fixed vs ds e' in
          let (fit', m) = digests_fit hash size fixed ws es f' in
          let (same, over) = folded_unique size ds es r s fit fit' (n ∙ counts ∙ sym m) rest in
          ((cc, same_folded hash size fixed vs ws ds es e' f' same), over)
      same_value (dict_value vs) (dict_value ws) a b r s i j e f h =
          let (ds, e', a') =
            folded_pairs-some (emit_count (tag dict) (count_pairs vs)) a (pair_digests hash vs) e in
          let (es, f', b') =
            folded_pairs-some (emit_count (tag dict) (count_pairs ws)) b (pair_digests hash ws) f in
          let (tags, counts, rest) =
            peel_count dict dict (count_pairs vs) (count_pairs ws) _ _ a b r s i j a' b' h in
          let (fit, n) = pairs_fit hash size fixed vs ds e' in
          let (fit', m) = pairs_fit hash size fixed ws es f' in
          let (same, over) =
            folded_pairs_unique size ds es r s fit fit' (n ∙ counts ∙ sym m) rest in
          (same_pairs hash size fixed vs ws ds es e' f' same, over)
      same_value (object k vs) (object l ws) a b r s (i, (n, is')) (j, (m, js)) e f h =
          let fed = λ (w : Attributes).
            after (emit_count (tag fields) (count_attributes w)) (feed_attributes hash w) in
          let (x, e', a') = after_some (emit (tag dataclass) k) a (fed vs) e in
          let (y, f', b') = after_some (emit (tag dataclass) l) b (fed ws) f in
          let (tags, identity, rest) = peel dataclass dataclass k l x y a b r s i j a' b' h in
          let (x', e1, a1) =
            after_some (emit_count (tag fields) (count_attributes vs)) x (feed_attributes hash vs)
              e' in
          let (y', f1, b1) =
            after_some (emit_count (tag fields) (count_attributes ws)) y (feed_attributes hash ws)
              f' in
          let (tags', counts, rest') =
            peel_count fields fields (count_attributes vs) (count_attributes ws) x' y' x y r s n m
              a1 b1 rest in
          let (same, over) = same_attributes vs ws x' y' r s is' js counts e1 f1 rest' in
          ((identity, same), over)
      same_value unsupported w a b r s i j e f h = absurd (cc)
      same_value v unsupported a b r s i j e f h = absurd (cc)
      same_value v w a b r s i j e f h = absurd (cc (feed-first hash v w a b r s e f h))

      same_values :
          (vs ws : Values) (a b r s : Bytes)
          → AreSmall vs
          → AreSmall ws
          → count vs ≡ count ws
          → feed_all hash vs ≡ some a
          → feed_all hash ws ≡ some b
          → a ++ r ≡ b ++ s
          → SameValues hash vs ws × (r ≡ s)
      same_values no_values no_values a b r s i j n e f h =
          (tt, ap (λ x. x ++ r) (some_eq a e) ∙ h ∙ ap (λ x. x ++ s) (sym (some_eq b f)))
      same_values no_values (value w ws) a b r s i j n e f h = absurd (omega (arith, n))
      same_values (value v vs) no_values a b r s i j n e f h = absurd (omega (arith, n))
      same_values (value v vs) (value w ws) a b r s (i, is') (j, js) n e f h =
          let (x, xs, ex, exs, ax) = both-some a (feed hash v) (feed_all hash vs) e in
          let (y, ys, fy, fys, by) = both-some b (feed hash w) (feed_all hash ws) f in
          let (same, rest) =
            same_value v w x y (xs ++ r) (ys ++ s) i j ex fy (regroup x xs y ys a b r s ax by h) in
          let (more, over) = same_values vs ws xs ys r s is' js (omega (arith, n)) exs fys rest in
          ((same, more), over)

      same_attributes :
          (vs ws : Attributes) (a b r s : Bytes)
          → AttributesSmall vs
          → AttributesSmall ws
          → count_attributes vs ≡ count_attributes ws
          → feed_attributes hash vs ≡ some a
          → feed_attributes hash ws ≡ some b
          → a ++ r ≡ b ++ s
          → SameAttributes hash vs ws × (r ≡ s)
      same_attributes no_attributes no_attributes a b r s i j n e f h =
          (tt, ap (λ x. x ++ r) (some_eq a e) ∙ h ∙ ap (λ x. x ++ s) (sym (some_eq b f)))
      same_attributes no_attributes (attribute l w ws) a b r s i j n e f h =
          absurd (omega (arith, n))
      same_attributes (attribute k v vs) no_attributes a b r s i j n e f h =
          absurd (omega (arith, n))
      same_attributes (attribute k v vs) (attribute l w ws) a b r s (ik, (i, is')) (jl, (j, js)) n e
            f h =
          let (z, ez, az) =
            after_some (emit (tag field) k) a (both (feed hash v) (feed_attributes hash vs)) e in
          let (u, fu, bu) =
            after_some (emit (tag field) l) b (both (feed hash w) (feed_attributes hash ws)) f in
          let (tags, names, below) = peel field field k l z u a b r s ik jl az bu h in
          let (x, xs, ex, exs, ax) = both-some z (feed hash v) (feed_attributes hash vs) ez in
          let (y, ys, fy, fys, by) = both-some u (feed hash w) (feed_attributes hash ws) fu in
          let (same, rest) =
            same_value v w x y (xs ++ r) (ys ++ s) i j ex fy
              (regroup x xs y ys z u r s ax by below) in
          let (more, over) =
            same_attributes vs ws xs ys r s is' js (omega (arith, n)) exs fys rest in
          ((names, (same, more)), over)

    -- Two values that are fed as the same bytes, whatever is fed after them, have the same kinds, texts,
    -- type names and field names at every depth, the same items in the same order, and the same digests
    -- of members, keys and items as often: no content can pass for structure. It is for a hash function
    -- with digests of one length, and for lengths and counts that eight bytes can hold.
    pub feed-SameValue :
        (v w : Value) (a b r s : Bytes)
        → IsSmall v
        → IsSmall w
        → feed hash v ≡ some a
        → feed hash w ≡ some b
        → a ++ r ≡ b ++ s
        → SameValue hash v w × (r ≡ s)
    feed-SameValue = same_value

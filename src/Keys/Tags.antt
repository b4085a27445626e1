-- ===== src/Keys/Tags.antt =====
-- src/cachau/keys.py: the tags of `_feed`, which tell kinds of values apart.
use cachau.Disk.Header.{same_bytes}
use cachau.Keys.Framing.{Bytes, emit, emit_count, IsTag, tag_unique}
use cachau.Keys.Values.{
  nothing, enum, bool, int, float, complex, str, bytes, path_win, path_posix, ndarray_data,
  pl_frame_data, pl_series_data, dataframe_data, series_data, index_data, tuple, list,
  ndarray_object, ndarray_shape, ndarray_dtype, pl_frame_schema, pl_series_name, pl_series_dtype,
  dataframe_columns, dataframe_dtypes, series_name, series_dtype, index_dtype, pl_frame_rows,
  pl_series_rows, label, rows, labelled, with_rows, frozenset, set, Tag, leaf, sequence, collection,
  subtype, dataclass, fields, field, dict, tag, Value, leaf_value, subclass, sequence_value,
  set_value, dict_value, object, unsupported, after, folded, folded_pairs, feed, feed_all,
  feed_attributes, digests, pair_digests, count, count_pairs, count_attributes, join, join_pairs,
  bytes_lt, pair_lt,
}
use cachau.Prelude.Sort.{sorted}
use cachau.Prelude.{
  ℕ, List, [], ◌∷◌, ◌++◌, Bool, true, ◌&&◌, not, Option, none, some, ◌==◌, ◌≡◌, refl, sym, ap, ◌∙◌,
  arith, if◌then◌else◌,
}
use mathlib.Core.List.{append_assoc}

abbrev no_zero : Bytes → Bool
no_zero [] = true
no_zero (b ∷ bs) = not (b == 0) && no_zero bs

no_zero-IsTag : (b : Bytes) → no_zero b ≡ true → IsTag b
no_zero-IsTag [] h = tt
no_zero-IsTag (b ∷ bs) h = (λ e. ground (arith, h, e), no_zero-IsTag bs (ground (arith, h)))

abbrev all_tags : List Tag
all_tags =
    leaf nothing
    ∷ leaf enum
    ∷ leaf bool
    ∷ leaf int
    ∷ leaf float
    ∷ leaf complex
    ∷ leaf str
    ∷ leaf bytes
    ∷ leaf path_win
    ∷ leaf path_posix
    ∷ leaf ndarray_data
    ∷ leaf pl_frame_data
    ∷ leaf pl_series_data
    ∷ leaf dataframe_data
    ∷ leaf series_data
    ∷ leaf index_data
    ∷ sequence tuple
    ∷ sequence list
    ∷ sequence ndarray_object
    ∷ label ndarray_shape
    ∷ label ndarray_dtype
    ∷ label pl_frame_schema
    ∷ label pl_series_name
    ∷ label pl_series_dtype
    ∷ label dataframe_columns
    ∷ label dataframe_dtypes
    ∷ label series_name
    ∷ label series_dtype
    ∷ label index_dtype
    ∷ rows pl_frame_rows
    ∷ rows pl_series_rows
    ∷ collection frozenset
    ∷ collection set
    ∷ subtype
    ∷ dataclass
    ∷ fields
    ∷ field
    ∷ dict
    ∷ []

find_tag : List Tag → Bytes → Option Tag
unfolding same_bytes
find_tag [] b = none
find_tag (t ∷ ts) b = let rest = find_tag ts b in if same_bytes (tag t) b then some t else rest

-- Each tag is without a zero byte, and none is another's.
spelled : (t : Tag) → (no_zero (tag t) ≡ true) × (find_tag all_tags (tag t) ≡ some t)
unfolding find_tag
spelled (leaf nothing) = (refl, refl)
spelled (sequence tuple) = (refl, refl)
spelled (label ndarray_shape) = (refl, refl)
spelled (rows pl_frame_rows) = (refl, refl)
spelled (collection set) = (refl, refl)
spelled _ = (refl, refl)

pub tag-IsTag : (t : Tag) → IsTag (tag t)
tag-IsTag t = no_zero-IsTag (tag t) (spelled t).0

pub tag_distinct : (t u : Tag) → tag t ≡ tag u → t ≡ u
tag_distinct t u h =
    let e : some t ≡ some u = sym (spelled t).1 ∙ ap (find_tag all_tags) h ∙ (spelled u).1 in cc

-- The kind of a value, as the first emission of its branch tells it: `subtype` for a value whose
-- concrete type is not the one that its branch matched.
abbrev pub first : Value → Tag
first (leaf_value kind payload) = leaf kind
first (subclass identity v) = subtype
first (labelled kind text v) = label kind
first (with_rows kind n v) = rows kind
first (sequence_value kind vs) = sequence kind
first (set_value kind vs) = collection kind
first (dict_value ps) = dict
first (object identity entries) = dataclass
first unsupported = subtype

-- The bytes begin with the tag.
abbrev Begins : Tag → Option Bytes → Type 0
Begins t none = Unit
Begins t (some b) = (rest : Bytes) × (b ≡ tag t ++ (0 ∷ rest))

after-Begins :
    (t : Tag) (front : Bytes) (o : Option Bytes) → Begins t (some front) → Begins t (after front o)
after-Begins t front none h = tt
after-Begins t front (some b) (rest, e) =
    (rest ++ b, ap (λ x. x ++ b) e ∙ append_assoc (tag t) (0 ∷ rest) b)

module _ (hash : Bytes → Bytes) where
  emit-Begins : (t : Tag) (payload : Bytes) → Begins t (some (emit (tag t) payload))
  unfolding emit
  emit-Begins t payload = (_, refl)

  emit_count-Begins : (t : Tag) (n : ℕ) → Begins t (some (emit_count (tag t) n))
  unfolding emit_count
  emit_count-Begins t n = (_, refl)

  folded-Begins :
      (t : Tag) (front : Bytes) (o : Option (List Bytes))
      → Begins t (some front)
      → Begins t (folded front o)
  folded-Begins t front none h = tt
  folded-Begins t front (some ds) h = after-Begins t front (some (join (sorted bytes_lt ds))) h

  folded_pairs-Begins :
      (t : Tag) (front : Bytes) (o : Option (List (Bytes × Bytes)))
      → Begins t (some front)
      → Begins t (folded_pairs front o)
  folded_pairs-Begins t front none h = tt
  folded_pairs-Begins t front (some ds) h =
      after-Begins t front (some (join_pairs (sorted pair_lt ds))) h

  feed-Begins : (v : Value) → Begins (first v) (feed hash v)
  unfolding feed
  feed-Begins (leaf_value kind payload) = emit-Begins (leaf kind) payload
  feed-Begins (subclass identity v) =
      after-Begins subtype (emit (tag subtype) identity) (feed hash v)
        (emit-Begins subtype identity)
  feed-Begins (labelled kind text v) =
      after-Begins (label kind) (emit (tag (label kind)) text) (feed hash v)
        (emit-Begins (label kind) text)
  feed-Begins (with_rows kind n v) =
      after-Begins (rows kind) (emit_count (tag (rows kind)) n) (feed hash v)
        (emit_count-Begins (rows kind) n)
  feed-Begins (sequence_value kind vs) =
      after-Begins (sequence kind) (emit_count (tag (sequence kind)) (count vs)) (feed_all hash vs)
        (emit_count-Begins (sequence kind) (count vs))
  feed-Begins (set_value kind vs) =
      folded-Begins (collection kind) (emit_count (tag (collection kind)) (count vs))
        (digests hash vs) (emit_count-Begins (collection kind) (count vs))
  feed-Begins (dict_value ps) =
      folded_pairs-Begins dict (emit_count (tag dict) (count_pairs ps)) (pair_digests hash ps)
        (emit_count-Begins dict (count_pairs ps))
  feed-Begins (object identity entries) =
      after-Begins dataclass (emit (tag dataclass) identity)
        (after (emit_count (tag fields) (count_attributes entries)) (feed_attributes hash entries))
        (emit-Begins dataclass identity)
  feed-Begins unsupported = tt

  same_begin :
      (t u : Tag) (o p : Option Bytes) (a b : Bytes) (r s : Bytes)
      → Begins t o
      → Begins u p
      → o ≡ some a
      → p ≡ some b
      → a ++ r ≡ b ++ s
      → t ≡ u
  same_begin t u none p a b r s x y e f h = cc
  same_begin t u (some c) none a b r s x y e f h = cc
  same_begin t u (some c) (some d) a b r s (m, x) (n, y) e f h =
      let ca : c ≡ a = cc in
      let db : d ≡ b = cc in
      tag_distinct t u
        (tag_unique (tag t) (tag u) (m ++ r) (n ++ s) (tag-IsTag t) (tag-IsTag u) (
          sym (append_assoc (tag t) (0 ∷ m) r)
          ∙ ap (λ z. z ++ r) (sym x ∙ ca)
          ∙ h
          ∙ ap (λ z. z ++ s) (sym db ∙ y)
          ∙ append_assoc (tag u) (0 ∷ n) s)).0

  -- Values of different kinds are never fed as the same bytes, whatever is fed after them: an
  -- integer, a float and a Boolean that compare equal do not share a digest's input, nor do a tuple
  -- and a list, a value and one of a subclass of its type, or a set and a frozen set.
  pub feed-first :
      (v w : Value) (a b r s : Bytes)
      → feed hash v ≡ some a
      → feed hash w ≡ some b
      → a ++ r ≡ b ++ s
      → first v ≡ first w
  feed-first v w a b r s e f h =
      same_begin (first v) (first w) (feed hash v) (feed hash w) a b r s (feed-Begins v)
        (feed-Begins w) e f h

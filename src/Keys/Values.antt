-- ===== src/Keys/Values.antt =====
-- src/cachau/keys.py: `_feed`, over the values that it tells apart. What `_feed_data_object` feeds of an
-- array or a frame is such a value too, with labels and counts of rows in front of its contents.
use cachau.Disk.Header.{ascii}
use cachau.Keys.Framing.{Bytes, emit, emit_count}
use cachau.Prelude.Sort.{sorted}
use cachau.Prelude.{
  ℕ, suc, List, [], ◌∷◌, ◌++◌, Bool, true, false, ◌&&◌, ◌||◌, not, Option, none, some, ltb, ◌==◌,
}

-- The branches that emit one text: a value is known by the bytes that its branch emits, and its kind.
pub data LeafKind : Type 0 where
  nothing enum bool int float complex str bytes path_win path_posix : LeafKind
  ndarray_data pl_frame_data pl_series_data dataframe_data series_data index_data : LeafKind

pub data SequenceKind : Type 0 where
  tuple list ndarray_object : SequenceKind

pub data SetKind : Type 0 where
  frozenset set : SetKind

-- What is emitted of an array or a frame before its contents.
pub data Label : Type 0 where
  ndarray_shape ndarray_dtype pl_frame_schema pl_series_name pl_series_dtype : Label
  dataframe_columns dataframe_dtypes series_name series_dtype index_dtype : Label

pub data RowsKind : Type 0 where
  pl_frame_rows pl_series_rows : RowsKind

pub data Tag : Type 0 where
  leaf : LeafKind → Tag
  sequence : SequenceKind → Tag
  collection : SetKind → Tag
  label : Label → Tag
  rows : RowsKind → Tag
  subtype dataclass fields field dict : Tag

abbrev pub tag : Tag → Bytes
tag (leaf nothing) = ascii "none"
tag (leaf enum) = ascii "enum"
tag (leaf bool) = ascii "bool"
tag (leaf int) = ascii "int"
tag (leaf float) = ascii "float"
tag (leaf complex) = ascii "complex"
tag (leaf str) = ascii "str"
tag (leaf bytes) = ascii "bytes"
tag (leaf path_win) = ascii "path-win"
tag (leaf path_posix) = ascii "path-posix"
tag (leaf ndarray_data) = ascii "ndarray-data"
tag (leaf pl_frame_data) = ascii "pl-frame-data"
tag (leaf pl_series_data) = ascii "pl-series-data"
tag (leaf dataframe_data) = ascii "dataframe-data"
tag (leaf series_data) = ascii "series-data"
tag (leaf index_data) = ascii "index-data"
tag (sequence tuple) = ascii "tuple"
tag (sequence list) = ascii "list"
tag (sequence ndarray_object) = ascii "ndarray-object"
tag (label ndarray_shape) = ascii "ndarray-shape"
tag (label ndarray_dtype) = ascii "ndarray-dtype"
tag (label pl_frame_schema) = ascii "pl-frame-schema"
tag (label pl_series_name) = ascii "pl-series-name"
tag (label pl_series_dtype) = ascii "pl-series-dtype"
tag (label dataframe_columns) = ascii "dataframe-columns"
tag (label dataframe_dtypes) = ascii "dataframe-dtypes"
tag (label series_name) = ascii "series-name"
tag (label series_dtype) = ascii "series-dtype"
tag (label index_dtype) = ascii "index-dtype"
tag (rows pl_frame_rows) = ascii "pl-frame-rows"
tag (rows pl_series_rows) = ascii "pl-series-rows"
tag (collection frozenset) = ascii "frozenset"
tag (collection set) = ascii "set"
tag subtype = ascii "subtype"
tag dataclass = ascii "dataclass"
tag fields = ascii "fields"
tag field = ascii "field"
tag dict = ascii "dict"

mutual
  pub data Value : Type 0 where
    leaf_value : LeafKind → Bytes → Value
    -- a value whose concrete type is not the one that its branch matched, with that type's name
    subclass : Bytes → Value → Value
    labelled : Label → Bytes → Value → Value
    with_rows : RowsKind → ℕ → Value → Value
    sequence_value : SequenceKind → Values → Value
    set_value : SetKind → Values → Value
    dict_value : Pairs → Value
    object : Bytes → Attributes → Value
    unsupported : Value

  pub data Values : Type 0 where
    no_values : Values
    value : Value → Values → Values

  pub data Pairs : Type 0 where
    no_pairs : Pairs
    pair : Value → Value → Pairs → Pairs

  pub data Attributes : Type 0 where
    no_attributes : Attributes
    attribute : Bytes → Value → Attributes → Attributes

abbrev pub count : Values → ℕ
count no_values = 0
count (value v vs) = suc (count vs)

abbrev pub count_pairs : Pairs → ℕ
count_pairs no_pairs = 0
count_pairs (pair k v ps) = suc (count_pairs ps)

abbrev pub count_attributes : Attributes → ℕ
count_attributes no_attributes = 0
count_attributes (attribute name v rest) = suc (count_attributes rest)

-- `<` on bytes, and on pairs of bytes
unfoldable pub bytes_lt : Bytes → Bytes → Bool
bytes_lt a [] = false
bytes_lt [] (y ∷ b) = true
bytes_lt (x ∷ a) (y ∷ b) = ltb x y || ((x == y) && bytes_lt a b)

unfoldable pub pair_lt : Bytes × Bytes → Bytes × Bytes → Bool
unfolding bytes_lt
pair_lt (a, b) (c, d) = bytes_lt a c || (not (bytes_lt c a) && bytes_lt b d)

abbrev pub join : List Bytes → Bytes
join [] = []
join (b ∷ bs) = b ++ join bs

abbrev pub join_pairs : List (Bytes × Bytes) → Bytes
join_pairs [] = []
join_pairs ((a, b) ∷ ps) = a ++ (b ++ join_pairs ps)

-- What comes before, unless the rest raised.
abbrev pub after : Bytes → Option Bytes → Option Bytes
after front none = none
after front (some rest) = some (front ++ rest)

abbrev pub both : Option Bytes → Option Bytes → Option Bytes
both none rest = none
both (some b) rest = after b rest

abbrev pub folded : Bytes → Option (List Bytes) → Option Bytes
folded front none = none
folded front (some digests) = some (front ++ join (sorted bytes_lt digests))

abbrev pub folded_pairs : Bytes → Option (List (Bytes × Bytes)) → Option Bytes
folded_pairs front none = none
folded_pairs front (some digests) = some (front ++ join_pairs (sorted pair_lt digests))

-- `none` is an `UnhashableArgumentError`; `hash` is `hashlib.sha256`.
module _ (hash : Bytes → Bytes) where
  abbrev pub cons_digest : Option Bytes → Option (List Bytes) → Option (List Bytes)
  cons_digest (some b) (some ds) = some (hash b ∷ ds)
  cons_digest _ _ = none

  abbrev pub cons_pair :
      Option Bytes → Option Bytes → Option (List (Bytes × Bytes)) → Option (List (Bytes × Bytes))
  cons_pair (some a) (some b) (some ds) = some ((hash a, hash b) ∷ ds)
  cons_pair _ _ _ = none

  unfoldable mutual
    unfolding emit emit_count sorted bytes_lt pair_lt

    pub feed : Value → Option Bytes
    feed (leaf_value kind payload) = some (emit (tag (leaf kind)) payload)
    feed (subclass identity v) = after (emit (tag subtype) identity) (feed v)
    feed (labelled kind text v) = after (emit (tag (label kind)) text) (feed v)
    feed (with_rows kind n v) = after (emit_count (tag (rows kind)) n) (feed v)
    feed (sequence_value kind vs) =
        after (emit_count (tag (sequence kind)) (count vs)) (feed_all vs)
    feed (set_value kind vs) = folded (emit_count (tag (collection kind)) (count vs)) (digests vs)
    feed (dict_value ps) = folded_pairs (emit_count (tag dict) (count_pairs ps)) (pair_digests ps)
    feed (object identity attributes) =
        after (emit (tag dataclass) identity) (
          after (emit_count (tag fields) (count_attributes attributes))
            (feed_attributes attributes))
    feed unsupported = none

    pub feed_all : Values → Option Bytes
    feed_all no_values = some []
    feed_all (value v vs) = both (feed v) (feed_all vs)

    pub feed_attributes : Attributes → Option Bytes
    feed_attributes no_attributes = some []
    feed_attributes (attribute name v rest) =
        after (emit (tag field) name) (both (feed v) (feed_attributes rest))

    -- `_digest_value` of each member
    pub digests : Values → Option (List Bytes)
    digests no_values = some []
    digests (value v vs) = cons_digest (feed v) (digests vs)

    pub pair_digests : Pairs → Option (List (Bytes × Bytes))
    pair_digests no_pairs = some []
    pair_digests (pair k v ps) = cons_pair (feed k) (feed v) (pair_digests ps)

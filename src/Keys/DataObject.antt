-- ===== src/Keys/DataObject.antt =====
-- src/cachau/keys.py: `_feed_data_object` and `_polars_hash_bytes`. What numpy, polars and pandas report
-- of an object, its texts, its buffer and the hashes of its rows, is its content here.
use cachau.Keys.Framing.{Bytes}
use cachau.Keys.Values.{
  LeafKind, Value, Values, leaf_value, subclass, labelled, with_rows, sequence_value, unsupported,
  ndarray_data, pl_frame_data, pl_series_data, dataframe_data, series_data, index_data,
  ndarray_object, ndarray_shape, ndarray_dtype, pl_frame_schema, pl_series_name, pl_series_dtype,
  dataframe_columns, dataframe_dtypes, series_name, series_dtype, index_dtype, pl_frame_rows,
  pl_series_rows,
}
use cachau.Prelude.{ℕ, zero, suc, ◌/◌, ◌%◌, List, [], ◌∷◌, ◌++◌, Option, none, some}

-- `n.to_bytes(width, "little")`, for what fits
unfoldable pub to_bytes_little : ℕ → ℕ → Bytes
to_bytes_little zero n = []
to_bytes_little (suc width) n = n % 256 ∷ to_bytes_little width (n / 256)

-- `b"".join(item.to_bytes(8, "little") for item in hashes)`
unfoldable pub join_little : List ℕ → Bytes
unfolding to_bytes_little
join_little [] = []
join_little (item ∷ hashes) = to_bytes_little 8 item ++ join_little hashes

-- With numpy imported, the bytes are those of `to_numpy().tobytes()`.
unfoldable pub polars_hash_bytes : Option (List ℕ → Bytes) → List ℕ → Bytes
unfolding join_little
polars_hash_bytes (some to_numpy_bytes) hashes = to_numpy_bytes hashes
polars_hash_bytes none hashes = join_little hashes

-- The branches, in their order. Hashes are `none` where the library raises. A scalar of numpy is its
-- `item()`.
pub data DataObject : Type 0 where
  object_array : (shape : Bytes) → (items : Values) → DataObject
  array : (shape dtype contents : Bytes) → DataObject
  scalar : (item : Value) → DataObject
  pl_frame : (schema : Bytes) → (height : ℕ) → (hashes : Option (List ℕ)) → DataObject
  pl_series : (name dtype : Bytes) → (size : ℕ) → (hashes : Option (List ℕ)) → DataObject
  lazy_frame : DataObject
  dataframe : (columns dtypes : Bytes) → (hashes : Option Bytes) → DataObject
  series : (name dtype : Bytes) → (hashes : Option Bytes) → DataObject
  index : (dtype : Bytes) → (hashes : Option Bytes) → DataObject

-- The type's name, where the concrete type is a subclass.
abbrev pub with_concrete_type : Option Bytes → Value → Value
with_concrete_type none v = v
with_concrete_type (some identity) v = subclass identity v

abbrev pub hashed_rows : LeafKind → Option Bytes → Value
hashed_rows kind none = unsupported
hashed_rows kind (some b) = leaf_value kind b

abbrev pub polars_rows : Option (List ℕ → Bytes) → Option (List ℕ) → Option Bytes
polars_rows numpy none = none
polars_rows numpy (some hashes) = some (polars_hash_bytes numpy hashes)

module _ (numpy : Option (List ℕ → Bytes)) where
  -- What is fed of a data object; a scalar and a plan know no concrete type.
  unfoldable pub feed_data_object : Option Bytes → DataObject → Value
  unfolding polars_hash_bytes
  feed_data_object concrete (object_array shape items) =
      with_concrete_type concrete
        (labelled ndarray_shape shape (sequence_value ndarray_object items))
  feed_data_object concrete (array shape dtype contents) = with_concrete_type concrete (
      labelled ndarray_shape shape
        (labelled ndarray_dtype dtype (leaf_value ndarray_data contents)))
  feed_data_object concrete (scalar item) = item
  feed_data_object concrete (pl_frame schema height hashes) = with_concrete_type concrete (
      labelled pl_frame_schema schema
        (with_rows pl_frame_rows height (hashed_rows pl_frame_data (polars_rows numpy hashes))))
  feed_data_object concrete (pl_series name dtype size hashes) = with_concrete_type concrete (
      labelled pl_series_name name (
        labelled pl_series_dtype dtype
          (with_rows pl_series_rows size (hashed_rows pl_series_data (polars_rows numpy hashes)))))
  feed_data_object concrete lazy_frame = unsupported
  feed_data_object concrete (dataframe columns dtypes hashes) = with_concrete_type concrete (
      labelled dataframe_columns columns
        (labelled dataframe_dtypes dtypes (hashed_rows dataframe_data hashes)))
  feed_data_object concrete (series name dtype hashes) =
      with_concrete_type concrete
        (labelled series_name name (labelled series_dtype dtype (hashed_rows series_data hashes)))
  feed_data_object concrete (index dtype hashes) =
      with_concrete_type concrete (labelled index_dtype dtype (hashed_rows index_data hashes))

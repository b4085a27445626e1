-- ===== src/Disk/Store.antt =====
-- src/cachau/disk.py: the operations of `DiskBackend`.
use cachau.Backend.{CacheEntry, EntryMetadata, CacheBackend}
use cachau.Disk.Files.{Files}
use cachau.Disk.Header.{magic, newline, parse_header, header_metadata}
use cachau.Disk.Json.{Json, null, object, Members, Codec}
use cachau.Disk.Validate.{
  find_member, as_text, entry_from_metadata, metadata_of, optional_int, optional_float,
  lenient_dependencies,
}
use cachau.Prelude.Exec.{Result, ok, raise, Exec, pure, ◌>>=◌, ◌>>◌}
use cachau.Prelude.Sort.{sorted}
use cachau.Prelude.{
  ℕ, String, List, [], ◌∷◌, ◌++◌, Bool, true, false, Option, none, some, str_eq, if◌then◌else◌,
}
use cachau.Dependencies.Changes.{str_lt}
use Prim.Native.String.{◌++◌ as ◌+++◌}

-- What the operations raise.
pub data DiskError : Type 0 where
  os_error : DiskError
  pickling_error : DiskError
  -- `.get` of a header that is no dict
  attribute_error : DiskError
  -- `float` of an integer that no float reaches
  overflow_error : DiskError

module _ {World V : Type 0} (files : Files World) (codec : Codec V) where
  abbrev pub Act : Type 0 → Type 0
  Act A = Exec DiskError World A

  unfoldable pub path_for : String → String
  path_for key = codec.hex_digest key +++ ".cachau"

  unfoldable pub lock_path : String → String
  lock_path key = codec.hex_digest key +++ ".lock"

  -- `_split_file`, `pickle.loads` and `_entry_from_metadata` of a file's bytes.
  abbrev pub load_payload : Json × List ℕ → Option (String × CacheEntry V)
  load_payload (metadata, payload) = elim (codec.pickle_loads payload) [
    | none ↦ none
    | some value ↦ entry_from_metadata metadata value
  ]

  unfoldable pub decode : List ℕ → Option (String × CacheEntry V)
  unfolding parse_header entry_from_metadata
  decode content = elim (parse_header codec content) [
    | none ↦ none
    | some header ↦ load_payload header
  ]

  -- What `_read_entry` makes of what it could read.
  abbrev pub decode_read : Option (List ℕ) → Option (String × CacheEntry V)
  decode_read none = none
  decode_read (some content) = decode content

  -- `stored_key != key`
  abbrev pub only_of : String → Option (String × CacheEntry V) → Option (CacheEntry V)
  only_of key none = none
  only_of key (some (stored_key, entry)) = if str_eq stored_key key then some entry else none

  -- A file that can be read and not be decoded is removed; what `unlink` raises is caught.
  abbrev pub remove_damaged :
      String → Option (List ℕ) → Option (String × CacheEntry V) → World → World
  remove_damaged path none loaded w = w
  remove_damaged path (some content) (some entry) w = w
  remove_damaged path (some content) none w = (files.unlink path w).1

  unfoldable pub peek : String → World → Result DiskError (Option (CacheEntry V))
  unfolding path_for decode
  peek key w = ok (only_of key (decode_read (files.read_bytes (path_for key) w)))

  unfoldable pub get : String → Act (Option (CacheEntry V))
  unfolding path_for decode
  get key w =
      let content = files.read_bytes (path_for key) w in
      (
        ok (only_of key (decode_read content)),
        remove_damaged (path_for key) content (decode_read content) w,
      )

  -- The two lines of the header, and the payload.
  unfoldable pub encode : String → CacheEntry V → List ℕ → List ℕ
  unfolding metadata_of
  encode key entry payload =
      magic ++ (newline ∷ (codec.json_dumps (metadata_of key entry) ++ (newline ∷ payload)))

  -- An `OSError`, or nothing.
  abbrev pub checked : Bool × World → Result DiskError (Unit {0}) × World
  checked (true, w) = (ok tt, w)
  checked (false, w) = (raise os_error, w)

  -- The `finally` of `set`: what `unlink` raises takes the place of what was raised before.
  abbrev pub and_unlink :
      String → Result DiskError (Unit {0}) × World → Result DiskError (Unit {0}) × World
  and_unlink temp (r, w) =
      let (done, w') = files.unlink temp w in (if done then r else raise os_error, w')

  abbrev pub sync_if_replaced : Bool × World → Result DiskError (Unit {0}) × World
  sync_if_replaced (true, w) = (ok tt, files.fsync_directory w)
  sync_if_replaced (false, w) = (raise os_error, w)

  abbrev pub replace_if_written :
      String → String → Bool × World → Result DiskError (Unit {0}) × World
  replace_if_written temp path (true, w) = sync_if_replaced (files.replace temp path w)
  replace_if_written temp path (false, w) = (raise os_error, w)

  -- The `try` of `set`, with its `finally`.
  unfoldable pub write_atomically : String → List ℕ → Act (Unit {0})
  write_atomically path content w =
      let (temp, w') = files.temp_name path w in
      and_unlink temp (replace_if_written temp path (files.write_synced temp content w'))

  abbrev pub set_payload : String → CacheEntry V → Option (List ℕ) → Act (Unit {0})
  set_payload key entry none w = (raise pickling_error, w)
  set_payload key entry (some payload) w =
      write_atomically (path_for key) (encode key entry payload) w

  unfoldable pub set : String → CacheEntry V → Act (Unit {0})
  unfolding write_atomically encode path_for
  set key entry = set_payload key entry (codec.pickle_dumps entry.value)

  unfoldable pub delete : String → Act (Unit {0})
  unfolding path_for
  delete key w = checked (files.unlink (path_for key) w)

  unfoldable pub unlink_all : List String → Act (Unit {0})
  unlink_all [] = pure tt
  unlink_all (name ∷ names) = do (λ w. checked (files.unlink name w)); unlink_all names

  -- `_read_metadata`
  abbrev pub metadata_in : Option (List ℕ) → Option Json
  metadata_in none = none
  metadata_in (some content) = header_metadata codec content

  -- `metadata is not None and metadata.get("namespace") == namespace`; JSON's `null` is `None` too.
  unfoldable pub is_of : String → Option Json → Result DiskError Bool
  is_of namespace none = ok false
  is_of namespace (some null) = ok false
  is_of namespace (some (object members)) = elim (as_text (find_member "namespace" members)) [
    | none ↦ ok false
    | some other ↦ ok (str_eq other namespace)
  ]
  is_of namespace (some _) = raise attribute_error

  unfoldable pub clear_all : String → List String → Act (Unit {0})
  unfolding is_of
  clear_all namespace [] = pure tt
  clear_all namespace (name ∷ names) = do
    selected ← (λ w. (is_of namespace (metadata_in (files.read_bytes name w)), w))
    if selected then (λ w. checked (files.unlink name w)) else pure tt
    clear_all namespace names

  unfoldable pub clear : Option String → Act (Unit {0})
  unfolding unlink_all clear_all
  clear none w =
      (do
        unlink_all (files.temp_names w)
        (λ v. unlink_all (files.lock_names v) v)
        (λ v. unlink_all (files.entry_names v) v))
        w
  clear (some namespace) w = clear_all namespace (files.entry_names w) w

  -- The row with its two instants, unless one of them raised.
  abbrev pub timed_row :
      Members
      → String
      → String
      → Option (Option ℕ)
      → Option (Option ℕ)
      → Result DiskError (List EntryMetadata)
  timed_row fields key namespace (some created_at) (some expires_at) = ok (
      record {
        key = key;
        namespace = namespace;
        size = optional_int (find_member "size" fields);
        created_at = created_at;
        expires_at = expires_at;
        dependency_fingerprints =
            lenient_dependencies (find_member "dependency_fingerprints" fields);
      }
      ∷ [])
  timed_row fields key namespace _ _ = raise overflow_error

  abbrev pub row_of :
      Members → Option String → Option String → Result DiskError (List EntryMetadata)
  row_of fields (some key) (some namespace) =
      timed_row fields key namespace (optional_float (find_member "created_at" fields))
        (optional_float (find_member "expires_at" fields))
  row_of fields _ _ = ok []

  -- The row of one file, or none.
  unfoldable pub metadata_row : Option Json → Result DiskError (List EntryMetadata)
  unfolding optional_int optional_float lenient_dependencies
  metadata_row none = ok []
  metadata_row (some null) = ok []
  metadata_row (some (object members)) =
      row_of members (as_text (find_member "key" members))
        (as_text (find_member "namespace" members))
  metadata_row (some _) = raise attribute_error

  abbrev pub join_rows :
      Result DiskError (List EntryMetadata)
      → Result DiskError (List EntryMetadata)
      → Result DiskError (List EntryMetadata)
  join_rows (ok rows) (ok rest) = ok (rows ++ rest)
  join_rows (ok rows) (raise e) = raise e
  join_rows (raise e) rest = raise e

  unfoldable pub rows_of : World → List String → Result DiskError (List EntryMetadata)
  unfolding metadata_row
  rows_of w [] = ok []
  rows_of w (name ∷ names) =
      join_rows (metadata_row (metadata_in (files.read_bytes name w))) (rows_of w names)

  unfoldable pub iter_metadata : World → Result DiskError (List EntryMetadata)
  unfolding sorted rows_of
  iter_metadata w = rows_of w (sorted str_lt (files.entry_names w))

  -- What can be loaded, under its stored key.
  unfoldable pub load_all : World → List String → List (String × CacheEntry V)
  unfolding decode
  load_all w [] = []
  load_all w (name ∷ names) =
      let rest = load_all w names in
      elim (decode_read (files.read_bytes name w)) [ none ↦ rest | some loaded ↦ loaded ∷ rest ]

  unfoldable iter_entries : World → List (String × CacheEntry V)
  unfolding sorted load_all
  iter_entries w = load_all w (sorted str_lt (files.entry_names w))

  -- The backend as an implementation of the contract.
  abbrev pub disk_backend : CacheBackend World V DiskError
  disk_backend = record {
    get = get;
    peek = peek;
    set = set;
    delete = delete;
    clear = clear;
    iter_metadata = iter_metadata;
  }

-- ===== src/Disk/Damage.antt =====
-- src/cachau/disk.py: at which headers a scan of the metadata raises.
use cachau.Dependencies.Changes.{str_lt}
use cachau.Disk.Files.{Files}
use cachau.Disk.Json.{Json, null, object, boolean, integer, real, text, array, Codec, Members}
use cachau.Disk.Store.{
  DiskError, attribute_error, overflow_error, metadata_in, row_of, timed_row, metadata_row, rows_of,
  iter_metadata, join_rows,
}
use cachau.Backend.{EntryMetadata}
use cachau.Disk.Validate.{find_member, as_text, optional_float}
use cachau.Prelude.Exec.{Result, ok, raise}
use cachau.Prelude.Sort.{sorted}
use cachau.Prelude.{
  ℕ, ◌*◌, second, ◌⊎◌, inl, inr, Bool-cases, ltb, ap, ◌∙◌, String, List, [], ◌∷◌, Bool, true, false,
  ◌||◌, ◌&&◌, Option, none, some, ◌≡◌, refl, arith, leb, if◌then◌else◌,
}
use cachau.Settings.Defs.{float_limit}

-- A field that is a text.
abbrev pub is_text : Option Json → Bool
is_text (some (text t)) = true
is_text _ = false

-- A field that is an integer which no float reaches.
abbrev pub is_huge : Option Json → Bool
is_huge (some (integer n)) = leb float_limit n
is_huge _ = false

-- What is wrong with a header, in a file that can be read and has one.
unfoldable pub fault : Option Json → Option DiskError
unfolding find_member
fault none = none
fault (some null) = none
fault (some (object fields)) =
    if is_text (find_member "key" fields)
      && (is_text (find_member "namespace" fields)
          && (is_huge (find_member "created_at" fields)
              || is_huge (find_member "expires_at" fields)))
    then some overflow_error
    else none
fault (some _) = some attribute_error

abbrev pub or_else : Option DiskError → Option DiskError → Option DiskError
or_else none later = later
or_else (some e) later = some e

abbrev pub raised : {A : Type 0} → Result DiskError A → Option DiskError
raised (ok a) = none
raised (raise e) = some e

module _ {World V : Type 0} (files : Files World) (codec : Codec V) where
  -- The first fault among the files.
  unfoldable pub first_fault : World → List String → Option DiskError
  unfolding fault
  first_fault w [] = none
  first_fault w (name ∷ names) =
      or_else (fault (metadata_in files codec (files.read_bytes name w))) (first_fault w names)

  timing :
      (o : Option Json)
      → ((is_huge o ≡ true) × (optional_float o ≡ none))
        ⊎ ((t : Option ℕ) × (is_huge o ≡ false) × (optional_float o ≡ some t))
  unfolding optional_float
  timing none = inr (none, refl, refl)
  timing (some null) = inr (none, refl, refl)
  timing (some (object fields)) = inr (none, refl, refl)
  timing (some (boolean b)) = inr (none, refl, refl)
  timing (some (integer n)) = elim (Bool-cases (ltb n float_limit)) [
    | inl e ↦ inr (some (n * second), ground (arith, e), rw e refl)
    | inr e ↦ inl (ground (arith, e), rw e refl)
  ]
  timing (some (real t)) = inr (some t, refl, refl)
  timing (some (text t)) = inr (none, refl, refl)
  timing (some (array items)) = inr (none, refl, refl)

  -- The part of a fault that two instants have.
  abbrev if_huge : Option Json → Option Json → Option DiskError
  if_huge c e = if is_huge c || is_huge e then some overflow_error else none

  timed_row-raised :
      (fields : Members) (key namespace : String) (c e : Option Json)
      → raised (timed_row files codec fields key namespace (optional_float c) (optional_float e))
        ≡ if_huge c e
  timed_row-raised fields key namespace c e = elim (timing c) [
    | inl (h, f) ↦ rw (h, f) refl
    | inr (t, h, f) ↦ elim (timing e) [
      | inl (h', f') ↦ rw (h, f, h', f') refl
      | inr (t', h', f') ↦ rw (h, f, h', f') refl
    ]
  ]

  row_of-raised :
      (fields : Members) (key namespace : Option Json)
      → let c = find_member "created_at" fields in
        let e = find_member "expires_at" fields in
        raised (row_of files codec fields (as_text key) (as_text namespace)) ≡ (
          if is_text key && (is_text namespace && (is_huge c || is_huge e))
          then some overflow_error
          else none)
  row_of-raised fields (some (text k)) (some (text n)) =
      timed_row-raised fields k n (find_member "created_at" fields)
        (find_member "expires_at" fields)
  row_of-raised fields (some (text k)) none = refl
  row_of-raised fields (some (text k)) (some _) = refl
  row_of-raised fields none namespace = refl
  row_of-raised fields (some _) namespace = refl

  metadata_row-raised :
      (header : Option Json) → raised (metadata_row files codec header) ≡ fault header
  unfolding metadata_row fault
  metadata_row-raised none = refl
  metadata_row-raised (some null) = refl
  metadata_row-raised (some (object fields)) =
      row_of-raised fields (find_member "key" fields) (find_member "namespace" fields)
  metadata_row-raised (some (boolean b)) = refl
  metadata_row-raised (some (integer n)) = refl
  metadata_row-raised (some (real n)) = refl
  metadata_row-raised (some (text t)) = refl
  metadata_row-raised (some (array items)) = refl

  join_rows-raised :
      (rows rest : Result DiskError (List EntryMetadata))
      → raised (join_rows files codec rows rest) ≡ or_else (raised rows) (raised rest)
  join_rows-raised (ok rows) (ok rest) = refl
  join_rows-raised (ok rows) (raise e) = refl
  join_rows-raised (raise e) rest = refl

  rows_of-raised :
      (w : World) (names : List String) → raised (rows_of files codec w names) ≡ first_fault w names
  unfolding rows_of first_fault
  rows_of-raised w [] = refl
  rows_of-raised w (name ∷ names) =
      let header = metadata_in files codec (files.read_bytes name w) in
      join_rows-raised (metadata_row files codec header) (rows_of files codec w names)
      ∙ ap (λ x. or_else x (raised (rows_of files codec w names))) (metadata_row-raised header)
      ∙ ap (or_else (fault header)) (rows_of-raised w names)

  -- `iter_metadata` raises for the first file, in the order of names, at which something is wrong, and
  -- for no other reason: an `AttributeError` for a header that is JSON but neither an object nor `null`;
  -- an `OverflowError` for an object with a text for its key and its namespace and, for one of its two
  -- instants, an integer that no float reaches. All other damage, at any field, raises nothing. It is for
  -- headers without negative numbers.
  pub iter_metadata-first_fault :
      (w : World)
      → raised (iter_metadata files codec w) ≡ first_fault w (sorted str_lt (files.entry_names w))
  unfolding iter_metadata
  iter_metadata-first_fault w = rows_of-raised w (sorted str_lt (files.entry_names w))

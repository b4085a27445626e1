-- ===== src/Scenario/Folder.antt =====
-- A directory that keeps its promises, and the disk backend's theorems on it.
use Prim.Native.String.{count, ◌++◌ as ◌+++◌}
use cachau.Backend.Laws.{StoreLaws}
use cachau.Backend.{CacheEntry}
use cachau.Disk.Atomic.{set-atomic}
use cachau.Disk.Damage.{raised, first_fault, iter_metadata-first_fault}
use cachau.Dependencies.Changes.{str_lt}
use cachau.Disk.Files.{Files, FilesLaws}
use cachau.Disk.Laws.{disk_backend-StoreLaws}
use cachau.Disk.Header.{header_metadata, parse_header, without_payload}
use cachau.Disk.Prefix.{header_metadata-parse_header}
use cachau.Disk.RoundTrip.{decode-encode}
use cachau.Disk.Store.{disk_backend, path_for, set, encode, decode, iter_metadata}
use cachau.Prelude.Dict.{Dict, lookup, insert, remove, keys, lookup-insert, lookup-remove}
use cachau.Prelude.Exec.{ok}
use cachau.Prelude.Sort.{sorted}
use cachau.Prelude.{
  ℕ, String, List, [], ◌∷◌, Bool, true, false, Option, none, some, str_eq, ◌≡◌, ◌≢◌, refl, ap, ◌⊎◌,
  inl, arith, eq_iff, eq_refl, if◌then◌else◌,
}
use cachau.Scenario.Notation.{
  postfix_codec, postfix_codec-Codable, postfix_codec-distinct, postfix_codec-pickles,
}
use cachau.Wrapper.{others}
use text.Mathlib.TextLemmas.{length-append}

abbrev move : Option (List ℕ) → String → String → Dict (List ℕ) → Bool × Dict (List ℕ)
move none source path w = (false, w)
move (some content) source path w =
    (true, if str_eq source path then w else remove source (insert path content w))

abbrev folder : Files (Dict (List ℕ))
folder = record {
  read_bytes = lookup;
  temp_name = λ path w. ("t.tmp", w);
  write_synced = λ path content w. (true, insert path content w);
  replace = λ source path w. move (lookup source w) source path w;
  unlink = λ path w. (true, remove path w);
  fsync_directory = λ w. w;
  entry_names = λ w. others "t.tmp" (keys w);
  temp_names = λ w. "t.tmp" ∷ [];
  lock_names = λ w. [];
}

temp_is_new : (digest : String) → ◌≢◌ {A = String} "t.tmp" (digest +++ ".cachau")
temp_is_new digest e = omega (arith, ap count e, length-append digest ".cachau")

moved :
    (source path p : String) (o : Option (List ℕ)) (w : Dict (List ℕ))
    → lookup source w ≡ o
    → ((move o source path w).0 ≡ true → lookup path (move o source path w).1 ≡ o)
      × ((move o source path w).0 ≡ false → lookup path (move o source path w).1 ≡ lookup path w)
      × (source ≢ p → path ≢ p → lookup p (move o source path w).1 ≡ lookup p w)
moved source path p none w e = (λ q. cc, λ q. refl, λ a b. refl)
moved source path p (some c) w e = (
  λ q. ground (
    arith,
    e,
    eq_iff source path,
    lookup-remove source path (insert path c w),
    lookup-insert path path c w,
    eq_refl path,
  ),
  λ q. cc,
  λ a b. ground (
    arith,
    eq_iff source path,
    eq_iff source p,
    eq_iff path p,
    lookup-remove source p (insert path c w),
    lookup-insert path p c w,
  ),
)

folder-FilesLaws : FilesLaws folder
folder-FilesLaws = record {
  temp_is_new = λ path digest w. temp_is_new digest;
  temp_reads = λ path p w. refl;
  written = λ path content w h. rw (lookup-insert path path content w, eq_refl path) refl;
  other_written =
      λ path p content w ne. ground (arith, lookup-insert path p content w, eq_iff path p);
  replaced = λ source path w h. (moved source path path (lookup source w) w refl).0 h;
  not_replaced = λ source path w h. (moved source path path (lookup source w) w refl).1 h;
  other_replaced = λ source path p w a b. (moved source path p (lookup source w) w refl).2 a b;
  unlinked = λ path w h. rw (lookup-remove path path w, eq_refl path) refl;
  other_unlinked = λ path p w ne. ground (arith, lookup-remove path p w, eq_iff path p);
  synced = λ p w. refl;
}

disk_backend-StoreLaws_example : StoreLaws (disk_backend folder postfix_codec)
disk_backend-StoreLaws_example =
    disk_backend-StoreLaws folder postfix_codec folder-FilesLaws postfix_codec-distinct
      postfix_codec-Codable

abbrev stored : CacheEntry ℕ
stored = record {
  value = 7;
  namespace = "app.load";
  created_at = 1000;
  expires_at = some 2000;
  size = none;
  dependency_fingerprints = some (("env:MODE", "v:prod") ∷ []);
}

decode-encode_example :
    decode folder postfix_codec (encode folder postfix_codec "k" stored (7 ∷ []))
    ≡ some ("k", stored)
decode-encode_example =
    decode-encode folder postfix_codec "k" stored (7 ∷ [])
      (postfix_codec-Codable "k" stored (7 ∷ []) (postfix_codec-pickles 7))

header_metadata-parse_header_example :
    header_metadata postfix_codec (10 ∷ 1 ∷ [])
    ≡ without_payload (parse_header postfix_codec (10 ∷ 1 ∷ []))
header_metadata-parse_header_example =
    header_metadata-parse_header postfix_codec (10 ∷ 1 ∷ []) (inl (omega arith))

abbrev before : Dict (List ℕ)
before = ("k.cachau", 1 ∷ []) ∷ []

set-atomic_example :
    let path = path_for folder postfix_codec "k" in
    let after = lookup path (set folder postfix_codec "k" stored before).1 in
    ((after ≡ lookup path before)
      ⊎ ((payload : List ℕ) × (postfix_codec.pickle_dumps 7 ≡ some payload)
          × (after ≡ some (encode folder postfix_codec "k" stored payload))))
    × ((set folder postfix_codec "k" stored before).0 ≡ ok tt
        → (payload : List ℕ) × (postfix_codec.pickle_dumps 7 ≡ some payload)
          × (after ≡ some (encode folder postfix_codec "k" stored payload)))
set-atomic_example = set-atomic folder postfix_codec folder-FilesLaws "k" stored before

iter_metadata-first_fault_example :
    raised (iter_metadata folder postfix_codec before)
    ≡ first_fault folder postfix_codec before (sorted str_lt (folder.entry_names before))
iter_metadata-first_fault_example = iter_metadata-first_fault folder postfix_codec before

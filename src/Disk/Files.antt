-- ===== src/Disk/Files.antt =====
-- The file system, as src/cachau/disk.py uses it. A Boolean says whether a call succeeded, and
-- `none` is an `OSError`; a call that fails may have changed files nevertheless.
use cachau.Prelude.{ℕ, String, List, Bool, true, false, Option, none, some, ◌≡◌, ◌≢◌}
use Prim.Native.String.{◌++◌ as ◌+++◌}

pub record Files (World : Type 0) : Type 0 where
  pub read_bytes : String → World → Option (List ℕ)
  -- a new name beside the given one
  pub temp_name : String → World → String × World
  -- `open`, `write`, `flush` and `fsync` of a whole file
  pub write_synced : String → List ℕ → World → Bool × World
  pub replace : String → String → World → Bool × World
  -- `unlink(missing_ok=True)`
  pub unlink : String → World → Bool × World
  -- `_fsync_directory`, which keeps its errors to itself
  pub fsync_directory : World → World
  -- the names in the directory that end in `.cachau`, `.tmp` and `.lock`
  pub entry_names : World → List String
  pub temp_names : World → List String
  pub lock_names : World → List String

-- What the operating system promises: `replace` is atomic, a write that is reported as done can be
-- read back, and no call touches another file.
pub record FilesLaws {World : Type 0} (files : Files World) : Type 0 where
  -- a temporary name is no entry's name
  pub temp_is_new :
      (path digest : String) (w : World) → (files.temp_name path w).0 ≢ digest +++ ".cachau"
  pub temp_reads :
      (path p : String) (w : World)
      → files.read_bytes p (files.temp_name path w).1 ≡ files.read_bytes p w
  pub written :
      (path : String) (content : List ℕ) (w : World)
      → (files.write_synced path content w).0 ≡ true
      → files.read_bytes path (files.write_synced path content w).1 ≡ some content
  pub other_written :
      (path p : String) (content : List ℕ) (w : World)
      → path ≢ p
      → files.read_bytes p (files.write_synced path content w).1 ≡ files.read_bytes p w
  pub replaced :
      (source path : String) (w : World)
      → (files.replace source path w).0 ≡ true
      → files.read_bytes path (files.replace source path w).1 ≡ files.read_bytes source w
  pub not_replaced :
      (source path : String) (w : World)
      → (files.replace source path w).0 ≡ false
      → files.read_bytes path (files.replace source path w).1 ≡ files.read_bytes path w
  pub other_replaced :
      (source path p : String) (w : World)
      → source ≢ p
      → path ≢ p
      → files.read_bytes p (files.replace source path w).1 ≡ files.read_bytes p w
  pub unlinked :
      (path : String) (w : World)
      → (files.unlink path w).0 ≡ true
      → files.read_bytes path (files.unlink path w).1 ≡ none
  pub other_unlinked :
      (path p : String) (w : World)
      → path ≢ p
      → files.read_bytes p (files.unlink path w).1 ≡ files.read_bytes p w
  pub synced :
      (p : String) (w : World) → files.read_bytes p (files.fsync_directory w) ≡ files.read_bytes p w

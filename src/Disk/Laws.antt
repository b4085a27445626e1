-- ===== src/Disk/Laws.antt =====
-- src/cachau/disk.py: the operations of `DiskBackend` and the laws of a store.
use cachau.Backend.Laws.{StoreLaws}
use cachau.Backend.{CacheEntry}
use cachau.Disk.Atomic.{set-atomic}
use cachau.Disk.Files.{Files, FilesLaws}
use cachau.Disk.Json.{Codec}
use cachau.Disk.RoundTrip.{Codable, decode-encode}
use cachau.Disk.Store.{
  path_for, decode_read, only_of, checked, peek, get, set, write_atomically, replace_if_written,
  delete, disk_backend,
}
use cachau.Prelude.Exec.{ok}
use cachau.Prelude.{
  String, List, ℕ, Bool, true, false, some, ◌≡◌, ◌≢◌, refl, ap, ◌∙◌, arith, eq_refl, Bool-cases,
  Option-cases, inl, inr,
}
use text.Mathlib.TextLemmas.{append_cancel_right}

module _ {World V : Type 0} (files : Files World) (codec : Codec V) (laws : FilesLaws files) where
  replace-other :
      (temp path p : String) (b : Bool × World)
      → temp ≢ p
      → path ≢ p
      → files.read_bytes p (replace_if_written files codec temp path b).1 ≡ files.read_bytes p b.1
  replace-other temp path p (false, w) ne me = refl
  replace-other temp path p (true, w) ne me = elim (Bool-cases (files.replace temp path w).0) [
    | inl e ↦ rw e (laws.synced p _ ∙ laws.other_replaced temp path p w ne me)
    | inr e ↦ rw e (laws.other_replaced temp path p w ne me)
  ]

  -- A write leaves the files of the other keys alone.
  write_atomically-other :
      (path p : String) (content : List ℕ) (w : World)
      → (files.temp_name path w).0 ≢ p
      → path ≢ p
      → files.read_bytes p (write_atomically files codec path content w).1 ≡ files.read_bytes p w
  unfolding write_atomically
  write_atomically-other path p content w ne me =
      let temp = (files.temp_name path w).0 in
      let v = (files.temp_name path w).1 in
      laws.other_unlinked temp p _ ne
      ∙ replace-other temp path p (files.write_synced temp content v) ne me
      ∙ laws.other_written temp p content v ne
      ∙ laws.temp_reads path p w

  set-other :
      (key : String) (entry : CacheEntry V) (p : String) (w : World)
      → (files.temp_name (path_for files codec key) w).0 ≢ p
      → path_for files codec key ≢ p
      → files.read_bytes p (set files codec key entry w).1 ≡ files.read_bytes p w
  unfolding set
  set-other key entry p w ne me = elim (Option-cases (codec.pickle_dumps entry.value)) [
    | inl e ↦ rw e refl
    | inr (payload, e) ↦ rw e (write_atomically-other _ p _ w ne me)
  ]

  -- What is read for a key depends on its file alone.
  get-read :
      (key : String) (v w : World)
      → files.read_bytes (path_for files codec key) v
        ≡ files.read_bytes (path_for files codec key) w
      → (get files codec key v).0 ≡ (get files codec key w).0
  unfolding get
  get-read key v w e = ap (λ c. ok (only_of files codec key (decode_read files codec c))) e

  checked_ok : (b : Bool × World) → (checked files codec b).0 ≡ ok tt → b.0 ≡ true
  checked_ok (true, w) h = refl
  checked_ok (false, w) h = cc

  checked_world : (b : Bool × World) → (checked files codec b).1 ≡ b.1
  checked_world (true, w) = refl
  checked_world (false, w) = refl

  path-ne :
      (apart : (j k : String) → j ≢ k → codec.hex_digest j ≢ codec.hex_digest k)
      (key other : String)
      → key ≢ other
      → path_for files codec key ≢ path_for files codec other
  unfolding path_for
  path-ne apart key other ne e = apart key other ne (append_cancel_right _ _ ".cachau" e)

  -- `DiskBackend` meets the contract of a store, where the file system keeps its promises, digests do
  -- not collide, and what `pickle` can write it and `json` can read back.
  pub disk_backend-StoreLaws :
      ((j k : String) → j ≢ k → codec.hex_digest j ≢ codec.hex_digest k)
      → ((key : String) (entry : CacheEntry V) (payload : List ℕ)
          → codec.pickle_dumps entry.value ≡ some payload
          → Codable codec key entry payload)
      → StoreLaws (disk_backend files codec)
  unfolding get peek delete
  disk_backend-StoreLaws apart codable = record {
    get_after_delete = λ key w h.
        rw
          (
            checked_world (files.unlink (path_for files codec key) w),
            laws.unlinked (path_for files codec key) w (checked_ok _ h),
          )
          refl;
    get_after_set = λ key entry w h.
        let (payload, p, q) = (set-atomic files codec laws key entry w).1 h in
        rw q (
          ground (
            arith,
            decode-encode files codec key entry payload (codable key entry payload p),
            eq_refl key,
          ));
    other_after_delete = λ key other w ne. get-read other _ w (
        ap (files.read_bytes (path_for files codec other)) (checked_world _)
        ∙ laws.other_unlinked _ (path_for files codec other) w (path-ne apart key other ne));
    other_after_set = λ key other entry w ne. get-read other _ w (
        set-other key entry _ w (laws.temp_is_new _ (codec.hex_digest other) w)
          (path-ne apart key other ne));
    get_is_peek = λ key w. refl;
  }

-- ===== src/Disk/Atomic.antt =====
-- src/cachau/disk.py: `set`, and the file of its key at each way out.
use cachau.Backend.{CacheEntry}
use cachau.Disk.Files.{Files, FilesLaws}
use cachau.Disk.Json.{Codec}
use cachau.Disk.Store.{
  DiskError, path_for, write_atomically, replace_if_written, and_unlink, encode, set,
}
use cachau.Prelude.Exec.{Result, ok}
use cachau.Prelude.{
  String, List, ℕ, Bool, true, false, some, ◌≡◌, ◌≢◌, refl, ◌∙◌, ◌⊎◌, inl, inr, arith, Bool-cases,
  Option-cases,
}

module _ {World V : Type 0} (files : Files World) (codec : Codec V) (laws : FilesLaws files) where
  -- Where the file at `path` stands after a write of `content`.
  record Written (path : String) (content : List ℕ) (w : World)
      (r : Result DiskError (Unit {0}) × World) : Type 0 where
    pub done : r.0 ≡ ok tt → files.read_bytes path r.1 ≡ some content
    pub either :
        (files.read_bytes path r.1 ≡ files.read_bytes path w)
        ⊎ (files.read_bytes path r.1 ≡ some content)

  unlink-Written :
      (temp path : String) (content : List ℕ) (w : World) (r : Result DiskError (Unit {0}) × World)
      → temp ≢ path
      → Written path content w r
      → Written path content w (and_unlink files codec temp r)
  unlink-Written temp path content w (r, w') ne h =
      let same = laws.other_unlinked temp path w' ne in
      record {
        done = λ q. same ∙ h.done (ground (arith, q));
        either = elim h.either [ inl e ↦ inl (same ∙ e) | inr e ↦ inr (same ∙ e) ];
      }

  replace-Written :
      (temp path : String) (content : List ℕ) (w : World) (b : Bool × World)
      → (b.0 ≡ true → files.read_bytes temp b.1 ≡ some content)
      → files.read_bytes path b.1 ≡ files.read_bytes path w
      → Written path content w (replace_if_written files codec temp path b)
  replace-Written temp path content w (false, v) h same = record {
    done = λ q. cc;
    either = inl same;
  }
  replace-Written temp path content w (true, v) h same =
      elim (Bool-cases (files.replace temp path v).0) [
        | inl e ↦
            let now =
              laws.synced path (files.replace temp path v).1
              ∙ laws.replaced temp path v e
              ∙ h refl in
            rw e (record { done = λ q. now; either = inr now })
        | inr e ↦
            rw e (record { done = λ q. cc; either = inl (laws.not_replaced temp path v e ∙ same) })
      ]

  write_atomically-Written :
      (path : String) (content : List ℕ) (w : World)
      → (files.temp_name path w).0 ≢ path
      → Written path content w (write_atomically files codec path content w)
  unfolding write_atomically
  write_atomically-Written path content w ne =
      let temp = (files.temp_name path w).0 in
      let v = (files.temp_name path w).1 in
      unlink-Written temp path content w _ ne (
        replace-Written temp path content w (files.write_synced temp content v)
          (laws.written temp content v)
          (laws.other_written temp path content v ne ∙ laws.temp_reads path path w))

  -- After DiskBackend.set, whatever failed in it, the entry's file holds what it held before or
  -- the whole new entry; and the new entry, whenever set returns. Assumes an atomic replace and
  -- writes that can be read back when they are reported as done.
  pub set-atomic :
      (key : String) (entry : CacheEntry V) (w : World)
      → let after = files.read_bytes (path_for files codec key) (set files codec key entry w).1 in
        ((after ≡ files.read_bytes (path_for files codec key) w)
          ⊎ ((payload : List ℕ) × (codec.pickle_dumps entry.value ≡ some payload)
              × (after ≡ some (encode files codec key entry payload))))
        × ((set files codec key entry w).0 ≡ ok tt
            → (payload : List ℕ) × (codec.pickle_dumps entry.value ≡ some payload)
              × (after ≡ some (encode files codec key entry payload)))
  unfolding set path_for
  set-atomic key entry w = elim (Option-cases (codec.pickle_dumps entry.value)) [
    | inl e ↦ rw e (inl refl, λ q. cc)
    | inr (payload, e) ↦
        let h =
          write_atomically-Written (path_for files codec key) (encode files codec key entry payload)
            w (laws.temp_is_new _ (codec.hex_digest key) w) in
        rw e (
          elim h.either [ inl q ↦ inl q | inr q ↦ inr (payload, refl, q) ],
          λ q. (payload, refl, h.done q),
        )
  ]

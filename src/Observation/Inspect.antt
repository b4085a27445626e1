-- ===== src/Observation/Inspect.antt =====
-- src/cachau/decorator.py and src/cachau/inspection.py: `inspect`.
use cachau.Backend.{EntryMetadata}
use cachau.Control.{Env}
use cachau.Explanation.{difference}
use cachau.Observation.Explain.{observe, peek_now}
use cachau.Prelude.Dict.{Dict}
use cachau.Prelude.Exec.{pure, gets, ◌>>=◌}
use cachau.Prelude.Int.{ℤ}
use cachau.Prelude.Sort.{sorted}
use cachau.Prelude.{
  ℕ, ◌+◌, ◌-◌, String, List, [], ◌∷◌, Bool, true, false, ◌&&◌, not, Option, none, some, str_eq, ltb,
  leb, contains, if◌then◌else◌,
}
use cachau.Wrapper.{M}

pub record CacheEntryView : Type 0 where
  pub key : String
  pub namespace : String
  pub checked_at : ℕ
  pub created_at : Option ℕ
  pub expires_at : Option ℕ
  pub size_bytes : Option ℕ
  pub dependency_fingerprints : Option (Dict String)

unfoldable pub view_age : CacheEntryView → Option ℤ
view_age v = elim v.created_at [ none ↦ none | some t ↦ some (difference v.checked_at t) ]

unfoldable pub view_ttl_remaining : CacheEntryView → Option ℕ
view_ttl_remaining v = elim v.expires_at [
  | none ↦ none
  | some t ↦ if leb t v.checked_at then none else some (t - v.checked_at)
]

unfoldable pub is_expired_view : CacheEntryView → Bool
is_expired_view v = elim v.expires_at [ none ↦ false | some t ↦ leb t v.checked_at ]

pub record Inspection : Type 0 where
  pub namespace : String
  pub entries : List CacheEntryView

abbrev pub bytes_of : Option ℕ → ℕ
bytes_of none = 0
bytes_of (some size) = size

unfoldable pub sum_bytes : List CacheEntryView → ℕ
sum_bytes [] = 0
sum_bytes (v ∷ views) = bytes_of v.size_bytes + sum_bytes views

unfoldable pub total_bytes : Inspection → ℕ
total_bytes i = sum_bytes i.entries

abbrev pub view_of : ℕ → EntryMetadata → CacheEntryView
view_of checked_at row = record {
  key = row.key;
  namespace = row.namespace;
  checked_at = checked_at;
  created_at = row.created_at;
  expires_at = row.expires_at;
  size_bytes = row.size;
  dependency_fingerprints = row.dependency_fingerprints;
}

-- The comprehension: the rows of the namespace whose key is not quarantined.
unfoldable pub views_of : String → List String → ℕ → List EntryMetadata → List CacheEntryView
views_of namespace pending checked_at [] = []
views_of namespace pending checked_at (row ∷ rows) =
    let rest = views_of namespace pending checked_at rows in
    if str_eq row.namespace namespace && not (contains pending row.key)
    then view_of checked_at row ∷ rest
    else rest

-- The order of `(created_at is None, -(created_at or 0.0))`
abbrev pub created_later : Option ℕ → Option ℕ → Bool
created_later none b = false
created_later (some a) none = true
created_later (some a) (some b) = ltb b a

abbrev pub newer : CacheEntryView → CacheEntryView → Bool
newer a b = created_later a.created_at b.created_at

module _ (env : Env) where
  unfoldable pub inspect : M env Inspection
  unfolding sorted views_of
  inspect = do
    checked_at ← peek_now env
    pending ← gets (λ s. s.pending_invalidations)
    rows ← observe env env.store.iter_metadata
    pure record {
      namespace = env.namespace;
      entries = sorted newer (views_of env.namespace pending checked_at rows);
    }

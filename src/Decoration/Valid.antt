-- ===== src/Decoration/Valid.antt =====
-- src/cachau/decorator.py: what the checks of `_wrap` establish.
use cachau.Control.{certain}
use cachau.Decoration.Configure.{
  Options, Resolved, disk, Persist, no, default_directory, directory, has_lock_path, Problem,
  Decorated, Configured, check, the_value, parsed, outside, is_empty, unknown_names, probability,
  validate_ignore, on_disk, resolve_backend, warn_if, configure,
}
use cachau.Dependencies.Normalize.{
  DependsOn, nothing, not_a_list, entries, NoRepeat, normalize_dependencies,
  normalize_dependencies-Labels,
}
use cachau.Prelude.Exec.Yields.{Holds, Yields, Yields-pure, Yields-bind, yields_ok, holds_if}
use cachau.Prelude.Exec.{Result, ok, raise}
use cachau.Prelude.Int.{pos, negsuc}
use cachau.Prelude.{
  ℕ, ◌*◌, ◌≤◌, ◌<◌, String, List, [], ◌∷◌, Bool, true, false, Option, none, some, leb, contains,
  ◌≡◌, ◌≢◌, refl, arith, All, Bool-cases, inl, inr, if◌then◌else◌, leb→le,
}
use cachau.Settings.Durations.Outcome.{parse_ttl-positive}
use cachau.Settings.Durations.{parse_ttl}
use cachau.Settings.Sizes.{parse_size, SizeOutcome, parse_size-SizeOutcome}
use cachau.Settings.{Setting, absent, boolean, integer, real, text, other, finite, infinite, nan}

-- A positive number, if any.
abbrev pub IsPositive : Option ℕ → Type 0
IsPositive none = Unit
IsPositive (some n) = 0 < n

-- Options that the checks let pass, with what they were read as.
pub record IsConfigured (parameters : List String) (o : Options) (c : Configured) : Type 0 where
  pub exclusive : o.key_given ≡ true → o.ignore ≡ []
  pub named : All (λ name. contains parameters name ≡ true) c.ignored
  pub probable : c.config.verify_probability ≤ certain
  pub labelled : NoRepeat c.config.dependencies
  pub lasting : IsPositive c.config.ttl_seconds
  pub limited : IsPositive c.max_memory_bytes
  pub lockable : c.config.process_flight ≡ true → has_lock_path c.backend ≡ true
  pub own_store : o.persist ≢ no → o.backend ≡ none

-- What an option holds, if anything.
abbrev IfSome : {A : Type 0} → (A → Type 0) → Option A → Type 0
IfSome P none = Unit
IfSome P (some a) = P a

some_if :
    (n : ℕ) (b : Bool)
    → (b ≡ true → n ≤ certain)
    → IfSome (λ p. p ≤ certain) (if b then some n else none)
some_if n true h = h refl
some_if n false h = tt

probability-le : (verify : Setting) → IfSome (λ p. p ≤ certain) (probability verify)
unfolding probability
probability-le absent = tt
probability-le (boolean true) = omega arith
probability-le (boolean false) = omega arith
probability-le (integer (pos n)) =
    some_if (n * certain) (leb n 1) (λ e. omega (arith, leb→le n 1 e))
probability-le (integer (negsuc n)) = tt
probability-le (real (finite (pos n))) = some_if n (leb n certain) (leb→le n certain)
probability-le (real (finite (negsuc n))) = tt
probability-le (real infinite) = tt
probability-le (real nan) = tt
probability-le (text t) = tt
probability-le other = tt

known :
    (parameters names : List String)
    → is_empty (unknown_names parameters names) ≡ true
    → All (λ name. contains parameters name ≡ true) names
unfolding unknown_names
known parameters [] h = tt
known parameters (name ∷ names) h = elim (Bool-cases (contains parameters name)) [
  | inl e ↦ (e, known parameters names (ground (arith, h, e)))
  | inr e ↦ ground (arith, h, e)
]

emptied : (names : List String) → is_empty names ≡ true → names ≡ []
emptied [] h = refl
emptied (name ∷ names) h = cc

labels : (d : DependsOn) → Holds NoRepeat (normalize_dependencies d)
unfolding normalize_dependencies
labels nothing = tt
labels not_a_list = tt
labels (entries specs) =
    holds_if (normalize_dependencies (entries specs))
      λ l e. (normalize_dependencies-Labels specs l e).distinct

ttl : (float_of : _) (value : Setting) → Holds IsPositive (parse_ttl float_of value)
ttl f value = positive_ttl (parse_ttl f value) refl
  where
    positive_ttl : (r : _) → parse_ttl f value ≡ r → Holds IsPositive r
    positive_ttl (ok none) h = tt
    positive_ttl (ok (some t)) h = parse_ttl-positive f value t h
    positive_ttl (raise e) h = tt

size :
    (float_of : _) (upper : _) (value : Setting)
    → Holds IsPositive (parse_size float_of upper value)
size f g value = positive_size (parse_size f g value) (parse_size-SizeOutcome f g value)
  where
    positive_size : (r : _) → SizeOutcome f g value r → Holds IsPositive r
    positive_size (ok none) h = tt
    positive_size (ok (some t)) h = h
    positive_size (raise e) h = tt

module _ {World Exn : Type 0} (function : Decorated World Exn) where
  check-Yields :
      (b : Bool) (problem : Problem Exn) → Yields (λ u. b ≡ true) (check function b problem)
  check-Yields true problem = record { at = λ w. refl }
  check-Yields false problem = record { at = λ w. tt }

  parsed-Yields :
      {A E : Type 0} {P : A → Type 0} (problem : E → Problem Exn) (r : Result E A)
      → Holds P r
      → Yields P (parsed function problem r)
  parsed-Yields problem (ok a) h = record { at = λ w. h }
  parsed-Yields problem (raise e) h = record { at = λ w. tt }

  outside-Yields :
      {A : Type 0} (r : Result Exn A × World) → Holds (λ a. Unit {0}) (outside function r).0
  outside-Yields (ok a, w) = tt
  outside-Yields (raise e, w) = tt

  the_value-Yields :
      {A : Type 0} {P : A → Type 0} (o : Option A) (problem : Problem Exn)
      → IfSome P o
      → Yields P (the_value function o problem)
  the_value-Yields none problem h = record { at = λ w. tt }
  the_value-Yields (some a) problem h = record { at = λ w. h }

  validate_ignore-Yields :
      (ignore : List String)
      → Yields
          (λ names. All (λ name. contains function.parameters name ≡ true) names)
          (validate_ignore function ignore)
  unfolding validate_ignore
  validate_ignore-Yields ignore =
      Yields-bind (check-Yields _ _) λ u e. Yields-pure ignore (known function.parameters ignore e)

  on_disk-Yields :
      {P : Resolved → Type 0} (name : String) → P (disk name) → Yields P (on_disk function name)
  on_disk-Yields name p =
      Yields-bind {P = λ u. Unit {0}}
        (record { at = λ w. outside-Yields (function.make_directory name w) })
        λ u e. Yields-pure (disk name) p

  resolve_backend-Yields :
      (persist : Persist) (backend : Option Bool)
      → Yields (λ r. persist ≢ no → backend ≡ none) (resolve_backend function persist backend)
  unfolding resolve_backend
  resolve_backend-Yields no none = Yields-pure _ (λ ne. refl)
  resolve_backend-Yields no (some has) = Yields-pure _ (λ ne. absurd (ne refl))
  resolve_backend-Yields default_directory (some has) = record { at = λ w. tt }
  resolve_backend-Yields (directory name) (some has) = record { at = λ w. tt }
  resolve_backend-Yields default_directory none = on_disk-Yields _ (λ ne. refl)
  resolve_backend-Yields (directory name) none = on_disk-Yields name (λ ne. refl)

  warn_if-Yields : (b : Bool) → Yields (λ u. Unit {0}) (warn_if function b)
  warn_if-Yields true = record { at = λ w. outside-Yields (function.warn w) }
  warn_if-Yields false = record { at = λ w. tt }

  configure-Yields :
      (fuel : ℕ) (o : Options)
      → Yields (IsConfigured function.parameters o) (configure function fuel o)
  unfolding configure
  configure-Yields fuel o = Yields-bind (check-Yields _ _) λ u1 exclusive.
      Yields-bind (the_value-Yields (probability o.verify) _ (probability-le o.verify))
        λ p probable. Yields-bind (validate_ignore-Yields o.ignore) λ names named.
          Yields-bind (parsed-Yields _ _ (labels o.depends_on)) λ labels labelled.
            Yields-bind (parsed-Yields _ _ (ttl function.float_of o.ttl)) λ t lasting.
              Yields-bind (parsed-Yields _ _ (size function.float_of function.upper o.max_memory))
                λ m limited. Yields-bind (warn_if-Yields _) λ u2 e2.
                  Yields-bind (resolve_backend-Yields o.persist o.backend) λ backend own_store.
                    Yields-bind (check-Yields _ _) λ u3 coalesce.
                      Yields-bind (check-Yields _ _) λ u4 lockable. Yields-pure _ record {
                        exclusive = λ h. emptied o.ignore (ground (arith, h, exclusive));
                        named = named;
                        probable = probable;
                        labelled = labelled;
                        lasting = lasting;
                        limited = limited;
                        lockable = λ h. ground (arith, h, lockable);
                        own_store = own_store;
                      }

  -- Where the checks of a decoration let options pass, `key=` and `ignore=` are not both given, the
  -- ignored names are parameters, the probability is at most 1, no dependency is named twice, the
  -- lifetime and the memory limit are positive if there are any, `coalesce="processes"` has a store
  -- with lock files, and `persist=` comes without `backend=`.
  pub configure-IsConfigured :
      (fuel : ℕ) (o : Options) (w : World) (c : Configured)
      → (configure function fuel o w).0 ≡ ok c
      → IsConfigured function.parameters o c
  configure-IsConfigured fuel o w c h = yields_ok w c (configure-Yields fuel o) h

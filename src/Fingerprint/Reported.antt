-- ===== src/Fingerprint/Reported.antt =====
-- src/cachau/fingerprint.py: which functions `referenced_global_functions` names.
use cachau.Disk.Header.{same_bytes, ascii}
use cachau.Fingerprint.Chains.{Names, attribute_chains, all_code_names}
use cachau.Fingerprint.Code.{Code}
use cachau.Fingerprint.Globals.{
  Interpreter, Found, put_found, put_if, chain_lt, is_first_party_module, is_user_file, top_name,
  occurs, slashes, undispatched, plain_first_party, first_party_function, follow, find_names,
  find_from, dotted, find_chains, found_in, referenced_global_functions,
}
use cachau.Fingerprint.Names.{same_bytes-eq, same_bytes_refl}
use cachau.Fingerprint.Objects.{Heap, name_lt}
use cachau.Fingerprint.Unwrap.{unwrap}
use cachau.Keys.Framing.{Bytes}
use cachau.Keys.Values.{bytes_lt}
use cachau.Prelude.Sort.{sorted, All-sorted}
use cachau.Prelude.{
  ℕ, List, [], ◌∷◌, Bool, true, false, ◌&&◌, ◌||◌, not, Option, none, some, ◌==◌, ◌≡◌, ◌≢◌, ◌⊎◌,
  refl, arith, All, if◌then◌else◌, Bool-cases, inl, inr,
}

module _ (python : Interpreter) (heap : Heap) (fuel : ℕ) where
  -- The module has a name, is neither of the standard library nor this package, and has a file that is
  -- in no folder for installed packages, however its path is spelled.
  pub record IsUsers (name : Bytes) : Type 0 where
    pub named : top_name name ≢ []
    pub not_cachau : top_name name ≢ ascii "cachau"
    pub not_stdlib : python.is_stdlib (top_name name) ≡ false
    pub path : Bytes
    pub has_file : python.file (top_name name) ≡ some path
    pub not_in_site : occurs (ascii "site-packages") (python.lower (slashes path)) ≡ false
    pub not_in_dist : occurs (ascii "dist-packages") (python.lower (slashes path)) ≡ false

  user_file :
      (file : Option Bytes)
      → is_user_file python heap fuel file ≡ true
      → (path : Bytes) × (file ≡ some path)
        × (occurs (ascii "site-packages") (python.lower (slashes path)) ≡ false)
        × (occurs (ascii "dist-packages") (python.lower (slashes path)) ≡ false)
  unfolding is_user_file
  user_file none h = absurd (cc)
  user_file (some path) h = (path, refl, ground (arith, h), ground (arith, h))

  first_party-IsUsers :
      (name : Bytes) → is_first_party_module python heap fuel name ≡ true → IsUsers name
  unfolding is_first_party_module
  first_party-IsUsers name h =
      let (path, e, s, d) = user_file (python.file (top_name name)) (ground (arith, h)) in
      record {
        named = λ e. ground (arith, h, e, same_bytes_refl (top_name name));
        not_cachau = λ e. ground (arith, h, e, same_bytes_refl (top_name name));
        not_stdlib = ground (arith, h);
        path = path;
        has_file = e;
        not_in_site = s;
        not_in_dist = d;
      }

  -- A plain function, not the one asked about, of the same module or of one that the user owns.
  abbrev pub IsReported : ℕ → ℕ → ℕ → Type 0
  IsReported target func f =
      (python.is_function f ≡ true)
      × (f ≢ target)
      × (f ≢ func)
      × ((python.module_name f ≡ python.module_name target) ⊎ IsUsers (python.module_name f))

  module _ (target func : ℕ) where
    abbrev own : Bytes
    own = python.module_name target

    abbrev Reports : Found → Type 0
    Reports = All (λ p. IsReported target func p.1)

    -- Where a function came out.
    abbrev Allows : Option ℕ → Type 0
    Allows none = Unit
    Allows (some f) = IsReported target func f

    put_found-Reports :
        (found : Found) (label : Bytes) (f : ℕ)
        → IsReported target func f
        → Reports found
        → Reports (put_found found label f)
    unfolding put_found
    put_found-Reports [] label f r h = (r, tt)
    put_found-Reports ((k, v) ∷ rest) label f r (h, hs) = elim (Bool-cases (same_bytes k label)) [
      | inl e ↦ rw (put_found, e) (r, hs)
      | inr e ↦ rw (put_found, e) (h, put_found-Reports rest label f r hs)
    ]

    put_if-Reports :
        (o : Option ℕ) (label : Bytes) (found : Found)
        → Allows o
        → Reports found
        → Reports (put_if o label found)
    put_if-Reports none label found r h = h
    put_if-Reports (some f) label found r h = put_found-Reports found label f r h

    checked :
        (f : ℕ) (a b c d e : Bool)
        → python.is_function f ≡ a
        → (f == target) ≡ b
        → (f == func) ≡ c
        → same_bytes (python.module_name f) own ≡ d
        → is_first_party_module python heap fuel (python.module_name f) ≡ e
        → Allows (if a && (not b && (not c && (d || e))) then some f else none)
    checked f true false false true e p q r s t = (
      p,
      (λ h. ground (arith, h, q)),
      (λ h. ground (arith, h, r)),
      inl (same_bytes-eq (python.module_name f) own s),
    )
    checked f true false false false true p q r s t = (
      p,
      (λ h. ground (arith, h, q)),
      (λ h. ground (arith, h, r)),
      inr (first_party-IsUsers (python.module_name f) t),
    )
    checked f true false false false false p q r s t = tt
    checked f true false true d e p q r s t = tt
    checked f true true c d e p q r s t = tt
    checked f false b c d e p q r s t = tt

    plain-Allows : (f : ℕ) → Allows (plain_first_party python heap fuel target func own f)
    unfolding plain_first_party
    plain-Allows f = checked f _ _ _ _ _ refl refl refl refl refl

    unwrapped-Allows :
        (callable : Bool) (o : Option ℕ)
        → Allows (
            if callable
            then elim o [
              | none ↦ none
              | some f ↦
                  plain_first_party python heap fuel target func own
                    (undispatched python heap fuel f)
            ]
            else none)
    unwrapped-Allows false o = tt
    unwrapped-Allows true none = tt
    unwrapped-Allows true (some f) = plain-Allows (undispatched python heap fuel f)

    first_party-Allows :
        (o : Option ℕ) → Allows (first_party_function python heap fuel target func own o)
    unfolding first_party_function
    first_party-Allows none = tt
    first_party-Allows (some value) =
        unwrapped-Allows (heap value).is_callable (unwrap heap fuel [] value)

    names-Reports :
        (names : List Bytes) (found : Found)
        → Reports found
        → Reports (find_names python heap fuel target func own names found)
    unfolding find_names
    names-Reports [] found h = h
    names-Reports (name ∷ names) found h = names-Reports names _ (
        put_if-Reports
          (first_party_function python heap fuel target func own (python.global target name)) name
          found (first_party-Allows (python.global target name)) h)

    root-Reports :
        (b : Bool) (last : Option ℕ) (label : Bytes) (found : Found)
        → Reports found
        → Reports (
            if b
            then put_if (first_party_function python heap fuel target func own last) label found
            else found)
    root-Reports false last label found h = h
    root-Reports true last label found h = put_if-Reports _ label found (first_party-Allows last) h

    from-Reports :
        (o : Option ℕ) (chain : Names) (found : Found)
        → Reports found
        → Reports (find_from python heap fuel target func own o chain found)
    unfolding find_from
    from-Reports none chain found h = h
    from-Reports (some root) (base, attrs) found h =
        let (labels, last) = follow python heap fuel (some root) attrs in
        root-Reports (python.is_module root) last (dotted base labels) found h

    chains-Reports :
        (chains : List Names) (found : Found)
        → Reports found
        → Reports (find_chains python heap fuel target func own chains found)
    unfolding find_chains
    chains-Reports [] found h = h
    chains-Reports ((base, attrs) ∷ chains) found h =
        chains-Reports chains _ (from-Reports (python.global target base) (base, attrs) found h)

    found_in-Reports : (c : Option Code) → Reports (found_in python heap fuel target func c)
    found_in-Reports none = tt
    found_in-Reports (some c) =
        let names = sorted bytes_lt (all_code_names c) in
        let chains = sorted chain_lt (attribute_chains python.instructions c) in
        All-sorted name_lt (λ p. IsReported target func p.1)
          (find_chains python heap fuel target func own chains
            (find_names python heap fuel target func own names []))
          (chains-Reports chains (find_names python heap fuel target func own names [])
            (names-Reports names [] tt))

  -- Every function that is reported is a plain Python function, other than the one asked about and
  -- than the Python function behind it, and stands in the same module or in one that is neither of the
  -- standard library nor this package, and whose file is there and in no folder for installed packages:
  -- however it was found, by its name or through modules.
  pub referenced_global_functions-IsReported :
      (func : ℕ)
      → All
          (λ p. IsReported (undispatched python heap fuel func) func p.1)
          (referenced_global_functions python heap fuel func)
  unfolding referenced_global_functions
  referenced_global_functions-IsReported func =
      found_in-Reports (undispatched python heap fuel func) func
        (heap (undispatched python heap fuel func)).code

-- ===== src/Dependencies/Unchanged.antt =====
-- src/cachau/dependencies.py: what equal fingerprints say of the resource.
use cachau.Dependencies.Descriptors.{
  content, mtime, Descriptor, file, env, installed_package, token, code, World, DependencyError,
  unhashable_token, absent, chunk_size, read_chunks, short_hexdigest, short_token,
  content_fingerprint, stat_fingerprint, env_fingerprint, package_fingerprint, resolved,
  token_fingerprint, shortened, fingerprint, content_digest_chars,
}
use cachau.Dependencies.Readback.{first_byte, read_chunks_all, no_stat, stat_unique}
use cachau.Fingerprint.Code.{Code, feed_code}
use cachau.Fingerprint.Functions.{Failure, Primitives, function_fingerprint}
use cachau.Fingerprint.Identity.{code_of, fingerprint-Digests}
use cachau.Fingerprint.Unique.{Collision, compared, SameListing, IsCode, feed_code_unique}
use cachau.Keys.Framing.{Bytes}
use cachau.Keys.Same.{IsSmall, SameValue}
use cachau.Keys.Unique.{feed-SameValue}
use cachau.Keys.Values.{Value, feed}
use cachau.Prelude.Exec.{Result, ok, raise}
use cachau.Prelude.{
  ℕ, suc, [], ◌++◌, Option, none, some, ◌≡◌, ◌≢◌, ◌⊎◌, refl, sym, ap, ◌∙◌, arith, take, length, inl,
  inr,
}

module _ (prim : Primitives) (hex : Bytes → Bytes) where
  abbrev SameResolved : Option Value → Option Value → Type 0
  SameResolved (some v) (some w) = SameValue prim.hash v w
  SameResolved _ _ = ⊥

  abbrev SameFunction : Option Code → Option Code → Type 0
  SameFunction (some c) (some d) = SameListing c d
  SameFunction _ _ = ⊥

  -- What of the resource is the same at both moments: its bytes, what `stat` says, the value, the version,
  -- what the token gives, or what `_feed_code` reads of the function's code.
  unfoldable pub SameResource : World → World → Descriptor → Type 0
  SameResource w w' (file path content) = w.contents path ≡ w'.contents path
  SameResource w w' (file path mtime) = w.stat path ≡ w'.stat path
  SameResource w w' (env name) = w.environ name ≡ w'.environ name
  SameResource w w' (installed_package name) = w.version name ≡ w'.version name
  SameResource w w' (token value name) =
      SameResolved (resolved prim hex w value) (resolved prim hex w' value)
  SameResource w w' (code func name) = SameFunction (code_of w.heap func) (code_of w'.heap func)

  abbrev SmallResolved : Option Value → Type 0
  SmallResolved none = Unit
  SmallResolved (some v) = IsSmall v

  abbrev NamedSource : Option Code → Type 0
  NamedSource none = ⊥
  NamedSource (some c) = IsCode c

  -- No version is `<absent>`, a token's lengths are small, and a function has code with proper names.
  unfoldable pub IsUsual : World → Descriptor → Type 0
  IsUsual w (file path on) = Unit
  IsUsual w (env name) = Unit
  IsUsual w (installed_package name) = w.version name ≢ some absent
  IsUsual w (token value name) = SmallResolved (resolved prim hex w value)
  IsUsual w (code func name) = NamedSource (code_of w.heap func)

  -- Two texts that differ and have the same shortened digest, or the same hash.
  abbrev pub Clash : Type 0
  Clash =
      Collision (short_hexdigest prim hex)
      ⊎ (Collision (short_token prim hex) ⊎ Collision prim.hash)

  content_same :
      ((b : Bytes) → short_hexdigest prim hex b ≢ absent)
      → (o p : Option Bytes) → content_fingerprint prim hex o ≡ content_fingerprint prim hex p
      → (o ≡ p) ⊎ Clash
  unfolding content_fingerprint
  content_same never none none h = inl refl
  content_same never none (some b) h =
      absurd (never (read_chunks (suc (length b)) chunk_size b) (sym h))
  content_same never (some a) none h = absurd (never (read_chunks (suc (length a)) chunk_size a) h)
  content_same never (some a) (some b) h =
      let whole = λ (c : Bytes). read_chunks_all (suc (length c)) 1_048_575 c (omega arith) in
      elim (compared (short_hexdigest prim hex) a b
        (ap (short_hexdigest prim hex) (sym (whole a))
          ∙ h
          ∙ ap (short_hexdigest prim hex) (whole b))
        (λ e. inl e)) [ inl e ↦ inl (ap some e) | inr c ↦ inr (inl c) ]

  stat_same :
      (o p : Option (ℕ × ℕ)) → stat_fingerprint prim hex o ≡ stat_fingerprint prim hex p → o ≡ p
  unfolding stat_fingerprint
  stat_same none none h = refl
  stat_same none (some (a, b)) h = absurd (no_stat a b (sym h))
  stat_same (some (a, b)) none h = absurd (no_stat a b h)
  stat_same (some (a, b)) (some (c, d)) h = let (e, f) = stat_unique a b c d h in cc

  env_same : (o p : Option Bytes) → env_fingerprint prim hex o ≡ env_fingerprint prim hex p → o ≡ p
  unfolding env_fingerprint
  env_same none none h = refl
  env_same none (some v) h = absurd (omega (arith, ap first_byte h))
  env_same (some v) none h = absurd (omega (arith, ap first_byte h))
  env_same (some v) (some w) h = cc

  package_same :
      (o p : Option Bytes)
      → o ≢ some absent
      → p ≢ some absent
      → package_fingerprint prim hex o ≡ package_fingerprint prim hex p
      → o ≡ p
  unfolding package_fingerprint
  package_same none none i j h = refl
  package_same none (some v) i j h = absurd (j (cc))
  package_same (some v) none i j h = absurd (i (cc))
  package_same (some v) (some w) i j h = cc

  fed_ok :
      (o : Option Bytes) (f : Bytes)
      → (elim o [ none ↦ raise unhashable_token | some b ↦ ok (short_token prim hex b) ]) ≡ ok f
      → (b : Bytes) × (o ≡ some b) × (f ≡ short_token prim hex b)
  fed_ok none f h = cc
  fed_ok (some b) f h = (b, refl, cc)

  token_same :
      (size : ℕ)
      → ((b : Bytes) → length (prim.hash b) ≡ size)
      → (o p : Option Value) (f : Bytes) → SmallResolved o
      → SmallResolved p
      → token_fingerprint prim hex o ≡ ok f
      → token_fingerprint prim hex p ≡ ok f
      → SameResolved o p ⊎ Clash
  unfolding token_fingerprint
  token_same size fixed none p f i j h g = cc
  token_same size fixed (some v) none f i j h g = cc
  token_same size fixed (some v) (some w) f i j h g =
      let (a, ea, ha) = fed_ok (feed prim.hash v) f h in
      let (b, eb, hb) = fed_ok (feed prim.hash w) f g in
      elim (compared (short_token prim hex) a b (sym ha ∙ hb) (λ e. inl e)) [
        | inl e ↦
            inl
              (feed-SameValue prim.hash size fixed v w a b [] [] i j ea eb (ap (λ x. x ++ []) e)).0
        | inr c ↦ inr (inr (inl c))
      ]

  shortened_ok :
      (r : Result Failure Bytes) (f : Bytes)
      → shortened prim hex r ≡ ok f
      → (digest : Bytes) × (r ≡ ok digest) × (f ≡ take content_digest_chars digest)
  shortened_ok (ok digest) f h = (digest, refl, cc)
  shortened_ok (raise e) f h = cc

  code_same :
      (fuel fuel' : ℕ) (w w' : World) (func : ℕ) (o p : Option Code) (f : Bytes)
      → code_of w.heap func ≡ o
      → code_of w'.heap func ≡ p
      → NamedSource o
      → NamedSource p
      → shortened prim hex (function_fingerprint prim w.heap fuel func) ≡ ok f
      → shortened prim hex (function_fingerprint prim w'.heap fuel' func) ≡ ok f
      → SameFunction o p ⊎ Clash
  code_same fuel fuel' w w' func none p f ec ed i j h g = absurd i
  code_same fuel fuel' w w' func (some c) none f ec ed i j h g = absurd j
  code_same fuel fuel' w w' func (some c) (some d) f ec ed i j h g =
      let (x, ex, hx) = shortened_ok (function_fingerprint prim w.heap fuel func) f h in
      let (y, ey, hy) = shortened_ok (function_fingerprint prim w'.heap fuel' func) f g in
      let (r, over_r, er) = fingerprint-Digests prim w.heap fuel func x c ex ec in
      let (s, over_s, es) = fingerprint-Digests prim w'.heap fuel' func y d ey ed in
      let short = λ (b : Bytes). take content_digest_chars b in
      elim (compared (short_hexdigest prim hex) {A = SameListing c d ⊎ Collision prim.hash}
        (feed_code prim.hash c ++ r) (feed_code prim.hash d ++ s)
        (ap short (sym er) ∙ sym hx ∙ hy ∙ ap short es)
        (λ e. elim (feed_code_unique prim.hash c d r s i j over_r over_s e) [
          | inl (same, _) ↦ inl (inl same)
          | inr k ↦ inl (inr k)
        ])) [ inl (inl same) ↦ inl same | inl (inr k) ↦ inr (inr (inr k)) | inr k ↦ inr (inl k) ]

  ok_same :
      (a b f : Bytes)
      → ◌≡◌ {A = Result DependencyError Bytes} (ok a) (ok f)
      → ◌≡◌ {A = Result DependencyError Bytes} (ok b) (ok f)
      → a ≡ b
  ok_same a b f h g = cc

  -- What two moments have in common at which a dependency has the same fingerprint: a file has the same
  -- content, or the same time and size, a variable and a package have the same value and version or
  -- neither time any, a token gives the same value, and a function has the same bytecode, names, names of
  -- variables and rendered constants at every depth, though argument counts, flags and free variables may
  -- differ; unless two texts that differ have the same shortened digest or hash. It is for a hash
  -- function with digests of one length, none of them spelled `<absent>`, and for versions, lengths and
  -- names as is usual.
  pub fingerprint-SameResource :
      (size : ℕ)
      → ((b : Bytes) → length (prim.hash b) ≡ size)
      → ((b : Bytes) → short_hexdigest prim hex b ≢ absent)
      → (fuel fuel' : ℕ) (w w' : World) (d : Descriptor) (f : Bytes) → IsUsual w d
      → IsUsual w' d
      → fingerprint prim hex fuel w d ≡ ok f
      → fingerprint prim hex fuel' w' d ≡ ok f
      → SameResource w w' d ⊎ Clash
  unfolding fingerprint SameResource IsUsual
  fingerprint-SameResource size fixed never fuel fuel' w w' (file path content) f i j h g =
      content_same never (w.contents path) (w'.contents path) (ok_same _ _ f h g)
  fingerprint-SameResource size fixed never fuel fuel' w w' (file path mtime) f i j h g =
      inl (stat_same (w.stat path) (w'.stat path) (ok_same _ _ f h g))
  fingerprint-SameResource size fixed never fuel fuel' w w' (env name) f i j h g =
      inl (env_same (w.environ name) (w'.environ name) (ok_same _ _ f h g))
  fingerprint-SameResource size fixed never fuel fuel' w w' (installed_package name) f i j h g =
      inl (package_same (w.version name) (w'.version name) i j (ok_same _ _ f h g))
  fingerprint-SameResource size fixed never fuel fuel' w w' (token value name) f i j h g =
      token_same size fixed (resolved prim hex w value) (resolved prim hex w' value) f i j h g
  fingerprint-SameResource size fixed never fuel fuel' w w' (code func name) f i j h g =
      code_same fuel fuel' w w' func (code_of w.heap func) (code_of w'.heap func) f refl refl i j h
        g

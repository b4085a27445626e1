-- ===== src/CallKey.antt =====
-- src/cachau/decorator.py: the key of a call, from the function's code and the call's arguments:
-- `build_key`, with the fingerprint that `_wrap` takes of the function.
use cachau.Fingerprint.Code.{Code, colon}
use cachau.Fingerprint.Functions.{Failure, Primitives, function_fingerprint}
use cachau.Fingerprint.Identity.{code_of, fingerprint-Digests, function_fingerprint_unique}
use cachau.Fingerprint.Names.{excluded}
use cachau.Fingerprint.Objects.{Heap}
use cachau.Fingerprint.Unique.{IsCode, SameListing, Collision}
use cachau.Keys.Arguments.{
  Identity, digest_call, SameIdentity, SmallIdentity, digest_call-SameIdentity,
  digest_call-hexdigest,
}
use cachau.Keys.Framing.{Bytes, Excludes}
use cachau.Prelude.Exec.{Result, ok, raise}
use cachau.Prelude.{
  ℕ, [], ◌∷◌, ◌++◌, Option, none, some, ◌≡◌, ◌⊎◌, refl, sym, ap, ◌∙◌, length, inl, inr,
}
use mathlib.Core.List.{append_assoc}
use mathlib.Core.Path.{subst}

-- A call of a decorated function: the objects of its process, the function, and the namespace and the
-- identity of the call.
pub record Call (hash hexdigest : Bytes → Bytes) : Type 0 where
  pub heap : Heap
  pub func : ℕ
  pub namespace : Bytes
  pub identity : Identity hash hexdigest

-- `f"{resolved_namespace}:{fingerprint}:{digest}"`
unfoldable pub join_key : Bytes → Bytes → Bytes → Bytes
join_key namespace fingerprint digest = namespace ++ (colon ∷ (fingerprint ++ (colon ∷ digest)))

abbrev pub keyed : Bytes → Result Failure Bytes → Option Bytes → Option Bytes
keyed namespace (ok fingerprint) (some digest) = some (join_key namespace fingerprint digest)
keyed namespace _ _ = none

module _ (prim : Primitives) where
  -- `none` where the function cannot be fingerprinted or an argument cannot be hashed. The fuel is the
  -- depth of the functions that refer to one another.
  unfoldable pub call_key : ℕ → Call prim.hash prim.hexdigest → Option Bytes
  unfolding function_fingerprint digest_call join_key
  call_key fuel c =
      keyed c.namespace (function_fingerprint prim c.heap fuel c.func)
        (digest_call prim.hash prim.hexdigest c.identity)

-- What stands behind the last delimiter.
last_delimited :
    (a a' b b' : Bytes)
    → Excludes colon b
    → Excludes colon b'
    → a ++ (colon ∷ b) ≡ a' ++ (colon ∷ b')
    → (a ≡ a') × (b ≡ b')
last_delimited [] [] b b' p q h = (refl, cc)
last_delimited [] (y ∷ a') b b' p q h =
    let e : b ≡ a' ++ (colon ∷ b') = cc in
    absurd (excluded colon a' b' (subst (Excludes colon) e p))
last_delimited (x ∷ a) [] b b' p q h =
    let e : b' ≡ a ++ (colon ∷ b) = cc in absurd (excluded colon a b (subst (Excludes colon) e q))
last_delimited (x ∷ a) (y ∷ a') b b' p q h =
    let (e, f) = last_delimited a a' b b' p q (cc) in (cc, f)

join_key_unique :
    (n m f g d e : Bytes)
    → Excludes colon f
    → Excludes colon g
    → Excludes colon d
    → Excludes colon e
    → join_key n f d ≡ join_key m g e
    → (n ≡ m) × (f ≡ g) × (d ≡ e)
unfolding join_key
join_key_unique n m f g d e xf xg xd xe h =
    let (front, digests) =
      last_delimited (n ++ (colon ∷ f)) (m ++ (colon ∷ g)) d e xd xe (
        append_assoc n (colon ∷ f) (colon ∷ d)
        ∙ h
        ∙ sym (append_assoc m (colon ∷ g) (colon ∷ e))) in
    let (names, fingerprints) = last_delimited n m f g xf xg front in (names, fingerprints, digests)

keyed-some :
    (namespace key : Bytes) (r : Result Failure Bytes) (o : Option Bytes)
    → keyed namespace r o ≡ some key
    → (f d : Bytes) × (r ≡ ok f) × (o ≡ some d) × (key ≡ join_key namespace f d)
keyed-some namespace key (ok f) (some d) h = (f, d, refl, refl, cc)
keyed-some namespace key (ok f) none h = cc
keyed-some namespace key (raise e) o h = cc

module _ (prim : Primitives) (size : ℕ) (fixed : (b : Bytes) → length (prim.hash b) ≡ size)
    (hexadecimal : (b : Bytes) → Excludes colon (prim.hexdigest b)) where
  fingerprint-Excludes :
      (heap : Heap) (fuel func : ℕ) (c : Code) (f : Bytes)
      → code_of heap func ≡ some c
      → function_fingerprint prim heap fuel func ≡ ok f
      → Excludes colon f
  fingerprint-Excludes heap fuel func c f e h =
      let (rest, over, digest) = fingerprint-Digests prim heap fuel func f c h e in
      subst (Excludes colon) (sym digest) (hexadecimal _)

  digest-Excludes :
      (i : Identity prim.hash prim.hexdigest) (d : Bytes)
      → digest_call prim.hash prim.hexdigest i ≡ some d
      → Excludes colon d
  digest-Excludes i d h =
      let (b, digest) = digest_call-hexdigest prim.hash prim.hexdigest i d h in
      subst (Excludes colon) (sym digest) (hexadecimal b)

  -- Two calls with the same key, in one process or in two, are of functions with the same namespace and
  -- the same bytecode, names, names of variables and rendered constants at every depth of nesting, and
  -- have the same arguments besides the ignored ones, or the same value of `key=`; unless two texts that
  -- differ have the same hash or hexadecimal digest. Argument counts, flags and free variables are not
  -- compared, and may differ. It is for hashes of one length and hexadecimal digests without a colon,
  -- for names that are neither empty nor have a comma, and for lengths and counts that eight bytes can
  -- hold. What sets and dicts hold is compared by its digests.
  pub call_key-SameCall :
      (fuel fuel' : ℕ) (c d : Call prim.hash prim.hexdigest) (key : Bytes) (k l : Code)
      → code_of c.heap c.func ≡ some k
      → code_of d.heap d.func ≡ some l
      → IsCode k
      → IsCode l
      → SmallIdentity prim.hash prim.hexdigest c.identity
      → SmallIdentity prim.hash prim.hexdigest d.identity
      → call_key prim fuel c ≡ some key
      → call_key prim fuel' d ≡ some key
      → ((c.namespace ≡ d.namespace)
          × SameListing k l
          × SameIdentity prim.hash prim.hexdigest c.identity d.identity)
        ⊎ (Collision prim.hash ⊎ Collision prim.hexdigest)
  unfolding call_key
  call_key-SameCall fuel fuel' c d key k l ek el ik il sc sd hc hd =
      let (f, x, ef, ex, kc) = keyed-some c.namespace key _ _ hc in
      let (g, y, eg, ey, kd) = keyed-some d.namespace key _ _ hd in
      let (names, prints, digests) =
        join_key_unique c.namespace d.namespace f g x y
          (fingerprint-Excludes c.heap fuel c.func k f ek ef)
          (fingerprint-Excludes d.heap fuel' d.func l g el eg) (digest-Excludes c.identity x ex)
          (digest-Excludes d.identity y ey) (sym kc ∙ kd) in
      elim (function_fingerprint_unique prim c.heap d.heap fuel fuel' c.func d.func g k l
        (ef ∙ ap ok prints) eg ek el ik il) [
          | inr collision ↦ inr collision
          | inl same_code ↦
              elim (digest_call-SameIdentity prim.hash prim.hexdigest size fixed c.identity
                d.identity y sc sd (ex ∙ ap some digests) ey) [
                  | inl same ↦ inl (names, same_code, same)
                  | inr collision ↦ inr (inr collision)
                ]
        ]

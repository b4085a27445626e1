-- ===== src/Keys/Arguments.antt =====
-- src/cachau/keys.py: `digest_arguments` and `digest_custom_key`, from the normalized call on, which
-- `inspect` makes.
use cachau.Disk.Header.{ascii, same_bytes}
use cachau.Fingerprint.Unique.{Collision, compared}
use cachau.Keys.Decoding.{after_some, both-some}
use cachau.Keys.Framing.{Bytes, emit, IsTag, IsShort, emit_unique}
use cachau.Keys.Same.{IsSmall, SameValue}
use cachau.Keys.Unique.{feed-SameValue}
use cachau.Keys.Values.{Value, after, both, feed}
use cachau.Prelude.{
  ℕ, List, [], ◌∷◌, ◌++◌, Bool, true, false, ◌||◌, Option, none, some, ◌≡◌, ◌≢◌, ◌⊎◌, refl, sym, ap,
  ◌∙◌, arith, length, if◌then◌else◌, inl,
}
use mathlib.Core.List.{append_cancel_left}

-- `bound.arguments.items()`
abbrev pub Arguments : Type 0
Arguments = List (Bytes × Value)

-- `name in ignore`
unfoldable pub is_ignored : List Bytes → Bytes → Bool
unfolding same_bytes
is_ignored [] name = false
is_ignored (i ∷ ignore) name = same_bytes i name || is_ignored ignore name

abbrev pub arg_tag : Bytes
arg_tag = ascii "arg"

abbrev pub custom_key_tag : Bytes
custom_key_tag = ascii "custom-key"

-- `none` is an `UnhashableArgumentError`.
abbrev pub digested : (Bytes → Bytes) → Option Bytes → Option Bytes
digested hexdigest none = none
digested hexdigest (some b) = some (hexdigest b)

module _ (hash hexdigest : Bytes → Bytes) where
  unfoldable pub feed_arguments : List Bytes → Arguments → Option Bytes
  unfolding feed emit is_ignored
  feed_arguments ignore [] = some []
  feed_arguments ignore ((name, v) ∷ rest) =
      let fed = feed_arguments ignore rest in
      if is_ignored ignore name then fed else after (emit arg_tag name) (both (feed hash v) fed)

  unfoldable pub digest_arguments : List Bytes → Arguments → Option Bytes
  unfolding feed_arguments
  digest_arguments ignore arguments = digested hexdigest (feed_arguments ignore arguments)

  unfoldable pub digest_custom_key : Value → Option Bytes
  unfolding feed emit
  digest_custom_key key = digested hexdigest (after (emit custom_key_tag []) (feed hash key))

  -- The arguments that are part of a call's identity.
  unfoldable pub kept : List Bytes → Arguments → Arguments
  unfolding is_ignored
  kept ignore [] = []
  kept ignore ((name, v) ∷ rest) =
      let more = kept ignore rest in if is_ignored ignore name then more else (name, v) ∷ more

  abbrev pub SmallArguments : Arguments → Type 0
  SmallArguments [] = Unit
  SmallArguments ((name, v) ∷ rest) = IsShort (length name) × (IsSmall v × SmallArguments rest)

  -- The same names with the same values.
  abbrev pub SameArguments : Arguments → Arguments → Type 0
  SameArguments [] [] = Unit
  SameArguments ((n, v) ∷ a) ((m, w) ∷ b) = (n ≡ m) × (SameValue hash v w × SameArguments a b)
  SameArguments _ _ = ⊥

  -- What is fed of arguments none of which is ignored.
  abbrev feed_kept : Arguments → Option Bytes
  feed_kept [] = some []
  feed_kept ((name, v) ∷ rest) = after (emit arg_tag name) (both (feed hash v) (feed_kept rest))

  skip :
      (b : Bool) (name : Bytes) (v : Value) (rest : Arguments) (fed : Option Bytes)
      → fed ≡ feed_kept rest
      → (if b then fed else after (emit arg_tag name) (both (feed hash v) fed))
        ≡ feed_kept (if b then rest else (name, v) ∷ rest)
  skip true name v rest fed e = e
  skip false name v rest fed e = ap (λ x. after (emit arg_tag name) (both (feed hash v) x)) e

  feed_arguments-kept :
      (ignore : List Bytes) (arguments : Arguments)
      → feed_arguments ignore arguments ≡ feed_kept (kept ignore arguments)
  unfolding feed_arguments kept
  feed_arguments-kept ignore [] = refl
  feed_arguments-kept ignore ((name, v) ∷ rest) =
      skip (is_ignored ignore name) name v (kept ignore rest) (feed_arguments ignore rest)
        (feed_arguments-kept ignore rest)

  arg_tag-IsTag : IsTag arg_tag
  arg_tag-IsTag =
      ((λ e. omega (arith, e)), ((λ e. omega (arith, e)), ((λ e. omega (arith, e)), tt)))

  emitted : (t p x : Bytes) → emit t p ++ x ≢ []
  unfolding emit
  emitted [] p x h = cc
  emitted (b ∷ t) p x h = cc

  digested-some :
      (o : Option Bytes) (digest : Bytes)
      → digested hexdigest o ≡ some digest
      → (b : Bytes) × (o ≡ some b) × (digest ≡ hexdigest b)
  digested-some none digest h = cc
  digested-some (some b) digest h = (b, refl, cc)

  module _ (size : ℕ) (fixed : (b : Bytes) → length (hash b) ≡ size) where
    kept_unique :
        (as' bs : Arguments) (a b : Bytes)
        → SmallArguments as'
        → SmallArguments bs
        → feed_kept as' ≡ some a
        → feed_kept bs ≡ some b
        → a ≡ b
        → SameArguments as' bs
    kept_unique [] [] a b i j e f h = tt
    kept_unique [] ((m, w) ∷ bs) a b i j e f h =
        let (y, fy, by) = after_some (emit arg_tag m) b (both (feed hash w) (feed_kept bs)) f in
        absurd (emitted arg_tag m y (cc))
    kept_unique ((n, v) ∷ as') [] a b i j e f h =
        let (x, ex, ax) = after_some (emit arg_tag n) a (both (feed hash v) (feed_kept as')) e in
        absurd (emitted arg_tag n x (cc))
    kept_unique ((n, v) ∷ as') ((m, w) ∷ bs) a b (in', (iv, is')) (jm, (jw, js)) e f h =
        let (x, ex, ax) = after_some (emit arg_tag n) a (both (feed hash v) (feed_kept as')) e in
        let (y, fy, by) = after_some (emit arg_tag m) b (both (feed hash w) (feed_kept bs)) f in
        let (tags, names, below) =
          emit_unique arg_tag arg_tag n m x y arg_tag-IsTag arg_tag-IsTag in' jm
            (sym ax ∙ h ∙ by) in
        let (p, ps, ep, eps, xp) = both-some x (feed hash v) (feed_kept as') ex in
        let (q, qs, fq, fqs, yq) = both-some y (feed hash w) (feed_kept bs) fy in
        let (same, rest) =
          feed-SameValue hash size fixed v w p q ps qs iv jw ep fq (sym xp ∙ below ∙ yq) in
        (names, (same, kept_unique as' bs ps qs is' js eps fqs rest))

  custom_key_differs :
      (as' : Arguments) (key : Option Bytes) (a b : Bytes)
      → after (emit custom_key_tag []) key ≡ some a
      → feed_kept as' ≡ some b
      → a ≢ b
  unfolding emit
  custom_key_differs [] none a b e f h = cc
  custom_key_differs [] (some k) a b e f h = cc
  custom_key_differs ((n, v) ∷ as') none a b e f h = cc
  custom_key_differs ((n, v) ∷ as') (some k) a b e f h =
      let (y, fy, by) = after_some (emit arg_tag n) b (both (feed hash v) (feed_kept as')) f in cc

  -- What identifies a call: its arguments besides the ignored ones, or the value of its `key=`.
  pub data Identity : Type 0 where
    by_arguments : List Bytes → Arguments → Identity
    by_key : Value → Identity

  unfoldable pub digest_call : Identity → Option Bytes
  unfolding digest_arguments digest_custom_key
  digest_call (by_arguments ignore arguments) = digest_arguments ignore arguments
  digest_call (by_key key) = digest_custom_key key

  -- Arguments and a key are never the same.
  unfoldable pub SameIdentity : Identity → Identity → Type 0
  SameIdentity (by_arguments ignore a) (by_arguments ignore' b) =
      SameArguments (kept ignore a) (kept ignore' b)
  SameIdentity (by_key v) (by_key w) = SameValue hash v w
  SameIdentity _ _ = ⊥

  unfoldable pub SmallIdentity : Identity → Type 0
  SmallIdentity (by_arguments ignore a) = SmallArguments (kept ignore a)
  SmallIdentity (by_key v) = IsSmall v

  -- What is hashed for a call.
  abbrev stream_of : Identity → Option Bytes
  stream_of (by_arguments ignore a) = feed_kept (kept ignore a)
  stream_of (by_key v) = after (emit custom_key_tag []) (feed hash v)

  digest-stream_of : (c : Identity) → digest_call c ≡ digested hexdigest (stream_of c)
  unfolding digest_call
  digest-stream_of (by_arguments ignore a) = ap (digested hexdigest) (feed_arguments-kept ignore a)
  digest-stream_of (by_key v) = refl

  pub digest_call-hexdigest :
      (c : Identity) (digest : Bytes)
      → digest_call c ≡ some digest
      → (b : Bytes) × (digest ≡ hexdigest b)
  digest_call-hexdigest c digest h =
      let (b, e, f) = digested-some (stream_of c) digest (sym (digest-stream_of c) ∙ h) in (b, f)

  module _ (size : ℕ) (fixed : (b : Bytes) → length (hash b) ≡ size) where
    stream_unique :
        (c d : Identity) (a b : Bytes)
        → SmallIdentity c
        → SmallIdentity d
        → stream_of c ≡ some a
        → stream_of d ≡ some b
        → a ≡ b
        → SameIdentity c d
    unfolding SmallIdentity SameIdentity
    stream_unique (by_arguments x as') (by_arguments y bs) a b i j e f h =
        kept_unique size fixed (kept x as') (kept y bs) a b i j e f h
    stream_unique (by_arguments x as') (by_key w) a b i j e f h =
        custom_key_differs (kept x as') (feed hash w) b a f e (sym h)
    stream_unique (by_key v) (by_arguments y bs) a b i j e f h =
        custom_key_differs (kept y bs) (feed hash v) a b e f h
    stream_unique (by_key v) (by_key w) a b i j e f h =
        let (x, ex, ax) = after_some (emit custom_key_tag []) a (feed hash v) e in
        let (y, fy, by) = after_some (emit custom_key_tag []) b (feed hash w) f in
        let rest = append_cancel_left (emit custom_key_tag []) x y (sym ax ∙ h ∙ by) in
        (feed-SameValue hash size fixed v w x y [] [] i j ex fy (ap (λ z. z ++ []) rest)).0

    -- Two calls with the same digest have the same arguments besides those that `ignore` names, or the
    -- same value of `key=`: the same names and the same values, and never arguments on one side and a
    -- key on the other, unless two texts that differ have the same hexadecimal digest. It is for a hash
    -- function with digests of one length and for lengths that eight bytes can hold.
    pub digest_call-SameIdentity :
        (c d : Identity) (digest : Bytes)
        → SmallIdentity c
        → SmallIdentity d
        → digest_call c ≡ some digest
        → digest_call d ≡ some digest
        → SameIdentity c d ⊎ Collision hexdigest
    digest_call-SameIdentity c d digest i j h g =
        let (a, ea, ha) = digested-some (stream_of c) digest (sym (digest-stream_of c) ∙ h) in
        let (b, eb, hb) = digested-some (stream_of d) digest (sym (digest-stream_of d) ∙ g) in
        compared hexdigest a b (sym ha ∙ hb) (λ e. inl (stream_unique c d a b i j ea eb e))

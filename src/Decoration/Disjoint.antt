-- ===== src/Decoration/Disjoint.antt =====
-- src/cachau/decorator.py: the purge of a decoration and the keys of the decorated function.
use cachau.Backend.Laws.{StoreLaws}
use cachau.Backend.{EntryMetadata}
use cachau.Control.{Env, State}
use cachau.Decoration.Purge.{purge_stale_fingerprints_apart}
use cachau.Decoration.Startup.{current_prefix, is_stale, purge_stale_fingerprints}
use cachau.Prelude.Exec.Yields.{holds_if, Yields, Yields-pure, Yields-bind, yields_ok}
use cachau.Prelude.Exec.{ok}
use cachau.Prelude.{String, List, [], ◌∷◌, true, ◌≡◌, ◌≢◌, ap, sym, ◌∙◌, arith, All}
use cachau.Wrapper.{build_key, lift}
use package.text.Mathlib.Text.{starts_with}
use package.text.Mathlib.TextLemmas.{append_assoc}
use package.text.Mathlib.TextPositions.{starts_with-append}
use Prim.Native.String.{◌++◌ as ◌+++◌}

All-every : {A : Type 0} {P : A → Type 0} (l : List A) → ((a : A) → P a) → All P l
All-every [] f = tt
All-every (a ∷ l) f = (f a, All-every l f)

built_prefix :
    (namespace fingerprint digest : String)
    → starts_with
        (namespace +++ (":" +++ (fingerprint +++ (":" +++ digest))))
        (current_prefix namespace fingerprint)
      ≡ true
built_prefix namespace fingerprint digest =
    ap (λ t. starts_with t (current_prefix namespace fingerprint))
      (sym (
        append_assoc namespace (":" +++ (fingerprint +++ ":")) digest
        ∙ ap (λ t. namespace +++ t)
            (append_assoc ":" (fingerprint +++ ":") digest
              ∙ ap (λ t. ":" +++ t) (append_assoc fingerprint ":" digest))))
    ∙ starts_with-append (current_prefix namespace fingerprint) digest

-- A stale row has another key.
is_stale_apart :
    (namespace fingerprint : String) (row : EntryMetadata) (key : String)
    → starts_with key (current_prefix namespace fingerprint) ≡ true
    → is_stale namespace fingerprint row ≡ true
    → row.key ≢ key
unfolding is_stale
is_stale_apart namespace fingerprint row key current stale e =
    let same = ap (λ k. starts_with k (current_prefix namespace fingerprint)) e ∙ current in
    ground (arith, stale, same)

module _ (env : Env) where
  build_key-Yields :
      (args : env.Args)
      → Yields
          (λ key. starts_with key (current_prefix env.namespace env.fingerprint) ≡ true)
          (build_key env args)
  unfolding build_key
  build_key-Yields args =
      Yields-bind {P = λ digest. Unit {0}}
        (record { at = λ s. holds_if (lift env (env.digest args) s).0 λ a e. tt })
        λ digest u. Yields-pure _ (built_prefix env.namespace env.fingerprint digest)

  -- Whatever rows the store listed, the purge of a decoration leaves alone the entry of each key that
  -- the decorated function builds.
  pub build_key-purge_stale_fingerprints :
      (laws : StoreLaws env.store) (args : env.Args) (s : State env.World) (key : String)
      (rows : List EntryMetadata) (w : env.World)
      → (build_key env args s).0 ≡ ok key
      → (env.store.get key
          (purge_stale_fingerprints env.store env.namespace env.fingerprint rows w).1).0
        ≡ (env.store.get key w).0
  build_key-purge_stale_fingerprints laws args s key rows w h =
      let current = yields_ok s key (build_key-Yields args) h in
      purge_stale_fingerprints_apart env.store laws env.namespace env.fingerprint key rows w
        (All-every rows λ row. is_stale_apart env.namespace env.fingerprint row key current)

-- ===== src/Fingerprint/Unique.antt =====
-- src/cachau/fingerprint.py: which code objects `_feed_code` tells apart.
use cachau.Disk.Header.{same_bytes}
use cachau.Fingerprint.Code.{
  Layout, frame, comma_join, Code, code, Entries, no_entries, plain, nested, canonical_const,
  feed_code, feed_consts, code_tag, names_tag, varnames_tag, const_tag, nested_tag,
}
use cachau.Fingerprint.Framing.{frame_unique}
use cachau.Fingerprint.Names.{IsName, comma_join_unique, same_bytes-eq, same_bytes_refl}
use cachau.Keys.Framing.{Bytes}
use cachau.Prelude.{
  List, [], ◌∷◌, ◌++◌, ◌≡◌, ◌≢◌, ◌⊎◌, refl, sym, ap, ◌∙◌, arith, All, ◌==◌, ◌&&◌, ◌||◌, Bool,
  Bool-cases, true, false, inl, inr,
}
use mathlib.Core.List.{append_assoc}

unfoldable mutual
  pub IsCode : Code → Type 0
  IsCode (code how co_code names varnames freevars consts) =
      All IsName names × All IsName varnames × IsEntries consts

  pub IsEntries : Entries → Type 0
  IsEntries no_entries = Unit
  IsEntries (plain c rest) = IsEntries rest
  IsEntries (nested c rest) = IsCode c × IsEntries rest

-- What of two code objects is alike: the bytecode, the names, the names of the variables and the
-- rendered constants, at every depth. It leaves out the layout, and the free variables, so that it
-- holds also of functions that take their arguments differently.
unfoldable mutual
  pub SameListing : Code → Code → Type 0
  SameListing (code how a names vars free consts) (code how' a' names' vars' free' consts') =
      (a ≡ a') × (names ≡ names') × (vars ≡ vars') × SameEntries consts consts'

  pub SameEntries : Entries → Entries → Type 0
  SameEntries no_entries no_entries = Unit
  SameEntries (plain c cs) (plain d ds) =
      (canonical_const c ≡ canonical_const d) × SameEntries cs ds
  SameEntries (nested c cs) (nested d ds) = SameListing c d × SameEntries cs ds
  SameEntries _ _ = ⊥

-- Two texts that the hash function does not tell apart.
abbrev pub Collision : (Bytes → Bytes) → Type 0
Collision hash = (a b : Bytes) × (a ≢ b) × (hash a ≡ hash b)

unfoldable pub starts_with : Bytes → Bytes → Bool
starts_with [] b = true
starts_with (x ∷ t) [] = false
starts_with (x ∷ t) (y ∷ b) = (x == y) && starts_with t b

-- No further constant follows.
abbrev pub IsOver : Bytes → Type 0
IsOver b = starts_with const_tag b || starts_with nested_tag b ≡ false

module _ (hash : Bytes → Bytes) where
  pub compared :
      {A : Type 0} (a b : Bytes)
      → hash a ≡ hash b
      → (a ≡ b → A ⊎ Collision hash)
      → A ⊎ Collision hash
  compared a b h f = elim (Bool-cases (same_bytes a b)) [
    | inl e ↦ f (same_bytes-eq a b e)
    | inr e ↦ inr (a, b, (λ p. ground (arith, same_bytes_refl a, rw (sym p) at e)), h)
  ]

  front : (t p x y : Bytes) → (frame t p ++ x) ++ y ≡ frame t p ++ (x ++ y)
  front t p x y = append_assoc (frame t p) x y

  more_constants : (p x : Bytes) → IsOver (frame const_tag p ++ x) → ⊥
  unfolding frame starts_with
  more_constants p x h = cc

  more_nested : (p x : Bytes) → IsOver (frame nested_tag p ++ x) → ⊥
  unfolding frame starts_with
  more_nested p x h = cc

  different_tags : (p q x y : Bytes) → frame const_tag p ++ x ≢ frame nested_tag q ++ y
  unfolding frame starts_with
  different_tags p q x y h = let e = ap (starts_with const_tag) h in cc

  pub nothing-IsOver : IsOver []
  unfolding starts_with
  nothing-IsOver = refl

  arranged :
      (how : Layout) (a : Bytes) (n v free : List Bytes) (e : Entries) (r : Bytes)
      → feed_code hash (code how a n v free e) ++ r
        ≡ frame code_tag a
          ++ (frame names_tag (comma_join n)
              ++ (frame varnames_tag (comma_join v) ++ (feed_consts hash e ++ r)))
  unfolding feed_code
  arranged how a n v free e r =
      let variables = frame varnames_tag (comma_join v) ++ feed_consts hash e in
      front code_tag a (frame names_tag (comma_join n) ++ variables) r
      ∙ ap (λ x. frame code_tag a ++ x)
          (front names_tag (comma_join n) variables r
            ∙ ap (λ x. frame names_tag (comma_join n) ++ x)
                (front varnames_tag (comma_join v) (feed_consts hash e) r))

  mutual
    unfolding feed_code IsCode IsEntries SameListing SameEntries

    same_code :
        (c d : Code) (r s : Bytes)
        → IsCode c
        → IsCode d
        → IsOver r
        → IsOver s
        → feed_code hash c ++ r ≡ feed_code hash d ++ s
        → (SameListing c d × (r ≡ s)) ⊎ Collision hash
    same_code (code how a n v free e) (code how' a' n' v' free' e') r s (ns, vs, es) (ns', vs', es')
          o o' h =
        let rest = λ (w : List Bytes) (x : Entries) (t : Bytes).
          frame varnames_tag (comma_join w) ++ (feed_consts hash x ++ t) in
        let (bytecode, h1) =
          frame_unique code_tag a a' (frame names_tag (comma_join n) ++ rest v e r)
            (frame names_tag (comma_join n') ++ rest v' e' s)
            (sym (arranged how a n v free e r) ∙ h ∙ arranged how' a' n' v' free' e' s) in
        let (names, h2) =
          frame_unique names_tag (comma_join n) (comma_join n') (rest v e r) (rest v' e' s) h1 in
        let (variables, h3) =
          frame_unique varnames_tag (comma_join v) (comma_join v') (feed_consts hash e ++ r)
            (feed_consts hash e' ++ s) h2 in
        elim (same_entries e e' r s es es' o o' h3) [
          | inr c ↦ inr c
          | inl (same, over) ↦ inl (
            (
              bytecode,
              comma_join_unique n n' ns ns' names,
              comma_join_unique v v' vs vs' variables,
              same,
            ),
            over,
          )
        ]

    same_entries :
        (c d : Entries) (r s : Bytes)
        → IsEntries c
        → IsEntries d
        → IsOver r
        → IsOver s
        → feed_consts hash c ++ r ≡ feed_consts hash d ++ s
        → (SameEntries c d × (r ≡ s)) ⊎ Collision hash
    same_entries no_entries no_entries r s i j o o' h = inl (tt, h)
    same_entries no_entries (plain d ds) r s i j o o' h = absurd (
        more_constants (canonical_const d) (feed_consts hash ds ++ s)
          (rw (h ∙ front const_tag (canonical_const d) (feed_consts hash ds) s) at o))
    same_entries no_entries (nested d ds) r s i j o o' h = absurd (
        more_nested (hash (feed_code hash d)) (feed_consts hash ds ++ s)
          (rw (h ∙ front nested_tag (hash (feed_code hash d)) (feed_consts hash ds) s) at o))
    same_entries (plain c cs) no_entries r s i j o o' h = absurd (
        more_constants (canonical_const c) (feed_consts hash cs ++ r)
          (rw (sym h ∙ front const_tag (canonical_const c) (feed_consts hash cs) r) at o'))
    same_entries (nested c cs) no_entries r s i j o o' h = absurd (
        more_nested (hash (feed_code hash c)) (feed_consts hash cs ++ r)
          (rw (sym h ∙ front nested_tag (hash (feed_code hash c)) (feed_consts hash cs) r) at o'))
    same_entries (plain c cs) (nested d ds) r s i j o o' h = absurd (
        different_tags (canonical_const c) (hash (feed_code hash d)) (feed_consts hash cs ++ r)
          (feed_consts hash ds ++ s)
          (sym (front const_tag (canonical_const c) (feed_consts hash cs) r)
            ∙ h
            ∙ front nested_tag (hash (feed_code hash d)) (feed_consts hash ds) s))
    same_entries (nested c cs) (plain d ds) r s i j o o' h = absurd (
        different_tags (canonical_const d) (hash (feed_code hash c)) (feed_consts hash ds ++ s)
          (feed_consts hash cs ++ r)
          (sym (front const_tag (canonical_const d) (feed_consts hash ds) s)
            ∙ sym h
            ∙ front nested_tag (hash (feed_code hash c)) (feed_consts hash cs) r))
    same_entries (plain c cs) (plain d ds) r s i j o o' h =
        let (here, rest) =
          frame_unique const_tag (canonical_const c) (canonical_const d) (feed_consts hash cs ++ r)
            (feed_consts hash ds ++ s)
            (sym (front const_tag (canonical_const c) (feed_consts hash cs) r)
              ∙ h
              ∙ front const_tag (canonical_const d) (feed_consts hash ds) s) in
        elim (same_entries cs ds r s i j o o' rest) [
          | inl (same, e) ↦ inl ((here, same), e)
          | inr c ↦ inr c
        ]
    same_entries (nested c cs) (nested d ds) r s (i, is') (j, js) o o' h =
        let (here, rest) =
          frame_unique nested_tag (hash (feed_code hash c)) (hash (feed_code hash d))
            (feed_consts hash cs ++ r) (feed_consts hash ds ++ s)
            (sym (front nested_tag (hash (feed_code hash c)) (feed_consts hash cs) r)
              ∙ h
              ∙ front nested_tag (hash (feed_code hash d)) (feed_consts hash ds) s) in
        elim (compared (feed_code hash c) (feed_code hash d) here
          (λ e. same_code c d [] [] i j nothing-IsOver nothing-IsOver (ap (λ x. x ++ []) e))) [
            | inr c ↦ inr c
            | inl (same_here, _) ↦ elim (same_entries cs ds r s is' js o o' rest) [
              | inl (same, e) ↦ inl ((same_here, same), e)
              | inr c ↦ inr c
            ]
          ]

  -- Two code objects whose bytes agree, whatever comes after them that does not begin like a further
  -- constant, have the same bytecode, the same names, the same variables and the same rendered
  -- constants at every depth of nesting, unless the bytes of two nested code objects that differ
  -- have the same hash. It is for names that are not empty and have no comma.
  pub feed_code_unique :
      (c d : Code) (r s : Bytes)
      → IsCode c
      → IsCode d
      → IsOver r
      → IsOver s
      → feed_code hash c ++ r ≡ feed_code hash d ++ s
      → (SameListing c d × (r ≡ s)) ⊎ Collision hash
  feed_code_unique = same_code

  -- Nothing else of them is read: code objects that are alike so feed the same bytes, whatever their
  -- layouts and their free variables.
  mutual
    unfolding feed_code SameListing SameEntries

    pub SameListing-feed_code : (c d : Code) → SameListing c d → feed_code hash c ≡ feed_code hash d
    SameListing-feed_code (code how a n v free e) (code how' a' n' v' free' e') (p, q, r, h) =
        rw (p, q, r, SameEntries-feed_consts e e' h) refl

    SameEntries-feed_consts :
        (c d : Entries) → SameEntries c d → feed_consts hash c ≡ feed_consts hash d
    SameEntries-feed_consts no_entries no_entries h = refl
    SameEntries-feed_consts no_entries (plain d ds) h = absurd h
    SameEntries-feed_consts no_entries (nested d ds) h = absurd h
    SameEntries-feed_consts (plain c cs) no_entries h = absurd h
    SameEntries-feed_consts (plain c cs) (plain d ds) (p, h) =
        rw (p, SameEntries-feed_consts cs ds h) refl
    SameEntries-feed_consts (plain c cs) (nested d ds) h = absurd h
    SameEntries-feed_consts (nested c cs) no_entries h = absurd h
    SameEntries-feed_consts (nested c cs) (plain d ds) h = absurd h
    SameEntries-feed_consts (nested c cs) (nested d ds) (p, h) =
        rw (SameListing-feed_code c d p, SameEntries-feed_consts cs ds h) refl

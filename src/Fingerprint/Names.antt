-- ===== src/Fingerprint/Names.antt =====
-- src/cachau/fingerprint.py: `",".join(names)`, and the comparison of texts.
use cachau.Disk.Header.{same_bytes}
use cachau.Fingerprint.Code.{comma, comma_join}
use cachau.Keys.Framing.{Bytes, Excludes, delimited_unique}
use cachau.Prelude.{ℕ, List, [], ◌∷◌, ◌++◌, ◌≡◌, ◌≢◌, refl, sym, arith, All, true}

-- Neither empty nor with a comma, as identifiers are.
abbrev pub IsName : Bytes → Type 0
IsName b = (b ≢ []) × Excludes comma b

pub excluded : (d : ℕ) (t r : Bytes) → Excludes d (t ++ (d ∷ r)) → ⊥
excluded d [] r (p, ps) = p refl
excluded d (x ∷ t) r (p, ps) = excluded d t r ps

not_empty : (t r : Bytes) (d : ℕ) → t ++ (d ∷ r) ≢ []
not_empty [] r d h = cc
not_empty (x ∷ t) r d h = cc

pub comma_join_unique :
    (a b : List Bytes) → All IsName a → All IsName b → comma_join a ≡ comma_join b → a ≡ b
unfolding comma_join
comma_join_unique [] [] p q h = refl
comma_join_unique [] (y ∷ []) p ((n, _), _) h = absurd (n (sym h))
comma_join_unique [] (y ∷ z ∷ b) p q h = absurd (not_empty y (comma_join (z ∷ b)) comma (sym h))
comma_join_unique (x ∷ []) [] ((n, _), _) q h = absurd (n h)
comma_join_unique (x ∷ []) (y ∷ []) p q h = cc
comma_join_unique (x ∷ []) (y ∷ z ∷ b) ((_, e), _) q h =
    absurd (excluded comma y (comma_join (z ∷ b)) (rw h at e))
comma_join_unique (x ∷ w ∷ a) [] p q h = absurd (not_empty x (comma_join (w ∷ a)) comma h)
comma_join_unique (x ∷ w ∷ a) (y ∷ []) p ((_, e), _) h =
    absurd (excluded comma x (comma_join (w ∷ a)) (rw (sym h) at e))
comma_join_unique (x ∷ w ∷ a) (y ∷ z ∷ b) ((_, e), ps) ((_, f), qs) h =
    let (same, rest) = delimited_unique comma x y (comma_join (w ∷ a)) (comma_join (z ∷ b)) e f h in
    let tail = comma_join_unique (w ∷ a) (z ∷ b) ps qs rest in cc

pub same_bytes-eq : (a b : Bytes) → same_bytes a b ≡ true → a ≡ b
unfolding same_bytes
same_bytes-eq [] [] h = refl
same_bytes-eq [] (y ∷ b) h = cc
same_bytes-eq (x ∷ a) [] h = cc
same_bytes-eq (x ∷ a) (y ∷ b) h =
    let e : x ≡ y = ground (arith, h) in let f = same_bytes-eq a b (ground (arith, h)) in cc

pub same_bytes_refl : (a : Bytes) → same_bytes a a ≡ true
unfolding same_bytes
same_bytes_refl [] = refl
same_bytes_refl (x ∷ a) = ground (arith, same_bytes_refl a)

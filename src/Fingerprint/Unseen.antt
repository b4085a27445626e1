-- ===== src/Fingerprint/Unseen.antt =====
-- src/cachau/fingerprint.py: the functions that a walk over references has not seen yet.
use cachau.Fingerprint.Objects.{has}
use cachau.Prelude.{ℕ, suc, ◌≤◌, ◌<◌, List, [], ◌∷◌, ◌≡◌, true, false, arith, length, if◌then◌else◌}

-- How many of the universe's members are not seen.
unfoldable pub unseen : List ℕ → List ℕ → ℕ
unseen [] seen = 0
unseen (i ∷ universe) seen =
    let rest = unseen universe seen in if has seen i then rest else suc rest

pub unseen-length : (universe seen : List ℕ) → unseen universe seen ≤ length universe
unfolding unseen
unseen-length [] seen = omega arith
unseen-length (i ∷ universe) seen = ground (arith, unseen-length universe seen)

pub unseen-le : (universe seen : List ℕ) (x : ℕ) → unseen universe (x ∷ seen) ≤ unseen universe seen
unfolding unseen
unseen-le [] seen x = omega arith
unseen-le (i ∷ universe) seen x = ground (arith, unseen-le universe seen x)

-- A member that is seen for the first time makes them fewer.
pub unseen-lt :
    (universe seen : List ℕ) (x : ℕ)
    → has universe x ≡ true
    → has seen x ≡ false
    → unseen universe (x ∷ seen) < unseen universe seen
unfolding unseen
unseen-lt [] seen x m n = cc
unseen-lt (i ∷ universe) seen x m n =
    ground (arith, m, n, unseen-le universe seen x, unseen-lt universe seen x)

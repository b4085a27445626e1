-- ===== src/Dependencies/Readback.antt =====
-- src/cachau/dependencies.py: what can be read back from the text of a fingerprint.
use cachau.Dependencies.Descriptors.{absent, read_chunks}
use cachau.Fingerprint.Code.{colon, decimal_text}
use cachau.Fingerprint.Framing.{spelled, spelled-digits, digits-Excludes}
use cachau.Fingerprint.Names.{excluded}
use cachau.Keys.Framing.{Bytes, Excludes, delimited_unique}
use cachau.Prelude.{
  ℕ, zero, suc, ◌≤◌, ◌<◌, [], ◌∷◌, ◌++◌, ◌≡◌, ◌≢◌, refl, sym, ap, ◌∙◌, arith, take, drop, length,
}
use mathlib.Core.Path.{subst}

abbrev pub first_byte : Bytes → ℕ
first_byte [] = 0
first_byte (b ∷ bs) = b

-- One chunk after another is the whole.
rejoined : (n : ℕ) (b : Bytes) → take n b ++ drop n b ≡ b
rejoined zero b = refl
rejoined (suc n) [] = refl
rejoined (suc n) (x ∷ b) = ap (λ r. x ∷ r) (rejoined n b)

length-drop : (n : ℕ) (b : Bytes) → length (drop n b) ≤ length b
length-drop zero b = omega arith
length-drop (suc n) [] = omega arith
length-drop (suc n) (x ∷ b) = omega (arith, length-drop n b)

pub read_chunks_all :
    (fuel size : ℕ) (b : Bytes) → length b < fuel → read_chunks fuel (suc size) b ≡ b
unfolding read_chunks
read_chunks_all zero size b h = absurd (omega (arith, h))
read_chunks_all (suc fuel) size [] h = refl
read_chunks_all (suc fuel) size (x ∷ b) h =
    ap (λ r. x ∷ (take size b ++ r))
      (read_chunks_all fuel size (drop size b) (omega (arith, h, length-drop size b)))
    ∙ ap (λ r. x ∷ r) (rejoined size b)

no_colon : Excludes colon absent
no_colon = (
  (λ e. omega (arith, e)),
  (
    (λ e. omega (arith, e)),
    (
      (λ e. omega (arith, e)),
      (
        (λ e. omega (arith, e)),
        (
          (λ e. omega (arith, e)),
          ((λ e. omega (arith, e)), ((λ e. omega (arith, e)), ((λ e. omega (arith, e)), tt))),
        ),
      ),
    ),
  ),
)

pub no_stat : (a b : ℕ) → decimal_text a ++ (colon ∷ decimal_text b) ≢ absent
no_stat a b h =
    excluded colon (decimal_text a) (decimal_text b) (subst (Excludes colon) (sym h) no_colon)

-- What a `stat` says can be read back.
pub stat_unique :
    (a b c d : ℕ)
    → decimal_text a ++ (colon ∷ decimal_text b) ≡ decimal_text c ++ (colon ∷ decimal_text d)
    → (a ≡ c) × (b ≡ d)
stat_unique a b c d h =
    let (times, sizes) =
      delimited_unique colon (decimal_text a) (decimal_text c) (decimal_text b) (decimal_text d)
        (digits-Excludes colon (omega arith) a a) (digits-Excludes colon (omega arith) c c) h in
    (
      sym (spelled-digits a a (omega arith))
          ∙ ap (spelled 0) times
          ∙ spelled-digits c c (omega arith),
      sym (spelled-digits b b (omega arith))
          ∙ ap (spelled 0) sizes
          ∙ spelled-digits d d (omega arith),
    )

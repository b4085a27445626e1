-- ===== src/Keys/Bag.antt =====
-- src/cachau/keys.py: what `_feed` hashes of a set, as a function of the bag of its members' digests.
use cachau.Keys.Decoding.{folded_unique}
use cachau.Keys.Framing.{Bytes}
use cachau.Keys.Order.{bytes_lt-IsTotal}
use cachau.Keys.Values.{join, bytes_lt, folded}
use cachau.Prelude.Sort.Invariance.{sorted_perm}
use cachau.Prelude.Sort.{sorted}
use cachau.Prelude.{ℕ, List, [], ◌++◌, some, ◌≡◌, ◌↔◌, refl, sym, ap, ◌∙◌, length, All}
use mathlib.Core.List.{Permᴰ, append_cancel_left}
use mathlib.Core.Quot
use mathlib.Core.Quot.{Quot}

-- Digests of the members, of which the order is forgotten.
abbrev pub Bag : Type 0
Bag = Quot (λ (a b : List Bytes). Permᴰ a b)

-- What is hashed after the count.
unfoldable pub bag_bytes : Bag → Bytes
bag_bytes =
    Quot.lift (hlevel) (λ ds. join (sorted bytes_lt ds))
      (λ a b h. ap join (sorted_perm bytes_lt bytes_lt-IsTotal h))

-- The bag of a list.
abbrev pub bag_of : List Bytes → Bag
bag_of ds = Quot.mk ds

from_bag :
    (front : Bytes) (ds : List Bytes)
    → folded front (some ds) ≡ some (front ++ bag_bytes (bag_of ds))
unfolding bag_bytes
from_bag front ds = refl

-- What is hashed of a set is a function of the bag of its members' digests, and tells any two bags of
-- as many members apart, for digests of one length: two lists of digests are fed as the same bytes
-- exactly where they are the same bag.
pub folded-bag_of :
    (size : ℕ) (front : Bytes) (a b : List Bytes)
    → All (λ d. length d ≡ size) a
    → All (λ d. length d ≡ size) b
    → length a ≡ length b
    → (folded front (some a) ≡ folded front (some b)) ↔ (bag_of a ≡ bag_of b)
folded-bag_of size front a b p q e = (apart, together)
  where
    some_eq : (x y : Bytes) → some x ≡ some y → x ≡ y
    some_eq x y h = cc

    apart : folded front (some a) ≡ folded front (some b) → bag_of a ≡ bag_of b
    apart h =
        let same =
          append_cancel_left front (join (sorted bytes_lt a)) (join (sorted bytes_lt b))
            (some_eq _ _ h) in
        Quot.sound (folded_unique size a b [] [] p q e (ap (λ x. x ++ []) same)).0

    together : bag_of a ≡ bag_of b → folded front (some a) ≡ folded front (some b)
    together h = from_bag front a ∙ ap (λ g. some (front ++ bag_bytes g)) h ∙ sym (from_bag front b)

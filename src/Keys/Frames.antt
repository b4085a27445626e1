-- ===== src/Keys/Frames.antt =====
-- src/cachau/keys.py: which arrays, frames and series `_feed_data_object` tells apart.
use cachau.Keys.DataObject.{
  to_bytes_little, join_little, polars_hash_bytes, DataObject, object_array, pl_frame, pl_series,
  polars_rows, feed_data_object,
}
use cachau.Keys.Framing.{Bytes}
use cachau.Prelude.{
  ℕ, zero, suc, ◌/◌, ◌%◌, ◌^◌, ◌<◌, List, [], ◌∷◌, ◌++◌, Option, none, some, ◌≡◌, refl, ap, arith,
  All,
}

-- The hashes of rows are unsigned numbers of 64 bits.
abbrev pub AreWords : List ℕ → Type 0
AreWords = All (λ h. h < 256 ^ 8)

-- numpy, where it is imported, writes them with the low byte first.
abbrev pub IsLittle : Option (List ℕ → Bytes) → Type 0
IsLittle none = Unit
IsLittle (some to_numpy_bytes) = (hashes : List ℕ) → to_numpy_bytes hashes ≡ join_little hashes

little_unique :
    (width n m : ℕ) (r s : Bytes)
    → n < 256 ^ width
    → m < 256 ^ width
    → to_bytes_little width n ++ r ≡ to_bytes_little width m ++ s
    → (n ≡ m) × (r ≡ s)
unfolding to_bytes_little
little_unique zero n m r s p q h = (omega arith, h)
little_unique (suc width) n m r s p q h =
    let low : n % 256 ≡ m % 256 = cc in
    let (high, rest) =
      little_unique width (n / 256) (m / 256) r s (omega arith) (omega arith) (cc) in
    (omega arith, rest)

pub join_little_unique :
    (a b : List ℕ) → AreWords a → AreWords b → join_little a ≡ join_little b → a ≡ b
unfolding join_little
join_little_unique [] [] p q h = refl
join_little_unique [] (y ∷ b) p q h = cc
join_little_unique (x ∷ a) [] p q h = cc
join_little_unique (x ∷ a) (y ∷ b) (p, ps) (q, qs) h =
    let (here, rest) = little_unique 8 x y (join_little a) (join_little b) p q h in
    let more = join_little_unique a b ps qs rest in cc

polars_rows-little :
    (numpy : Option (List ℕ → Bytes)) (hashes : Option (List ℕ))
    → IsLittle numpy
    → polars_rows numpy hashes ≡ polars_rows none hashes
unfolding polars_hash_bytes
polars_rows-little numpy none little = refl
polars_rows-little none (some hs) little = refl
polars_rows-little (some f) (some hs) little = ap some (little hs)

pub feed_data_object-little :
    (numpy : Option (List ℕ → Bytes)) (concrete : Option Bytes) (d : DataObject)
    → IsLittle numpy
    → feed_data_object numpy concrete d ≡ feed_data_object none concrete d
unfolding feed_data_object
feed_data_object-little numpy c (pl_frame schema height hashes) little =
    rw (polars_rows-little numpy hashes little) refl
feed_data_object-little numpy c (pl_series name dtype size hashes) little =
    rw (polars_rows-little numpy hashes little) refl
feed_data_object-little numpy c (object_array shape items) little = refl
feed_data_object-little numpy c d little = refl

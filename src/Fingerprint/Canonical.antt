-- ===== src/Fingerprint/Canonical.antt =====
-- src/cachau/fingerprint.py: the order of iteration of the sets among a code object's constants.
use cachau.Fingerprint.Code.{
  Constant, literal, collection, tuple, Constants, no_constants, constant, canonical_const,
  rendered, kind_name, comma_join,
}
use cachau.Keys.Order.{bytes_lt-IsTotal}
use cachau.Keys.Framing.{Bytes}
use cachau.Keys.Values.{SetKind, bytes_lt}
use cachau.Disk.Header.{ascii}
use cachau.Prelude.Sort.Invariance.{sorted_perm}
use cachau.Prelude.{◌++◌, ◌≡◌, refl, ap}
use mathlib.Core.List.{Permᴰ}

-- The same constant, but for the order in which its sets iterate, at every depth.
mutual
  pub data SameConstant : Constant → Constant → Type 0 where
    same_literal : (repr : Bytes) → SameConstant (literal repr) (literal repr)
    same_tuple : {a b : Constants} → SameItems a b → SameConstant (tuple a) (tuple b)
    same_collection :
        (kind : SetKind) {a b : Constants}
        → Shuffled a b
        → SameConstant (collection kind a) (collection kind b)

  pub data SameItems : Constants → Constants → Type 0 where
    no_items : SameItems no_constants no_constants
    item :
        {c d : Constant} {a b : Constants}
        → SameConstant c d
        → SameItems a b
        → SameItems (constant c a) (constant d b)

  pub data Shuffled : Constants → Constants → Type 0 where
    nothing : Shuffled no_constants no_constants
    keep :
        {c d : Constant} {a b : Constants}
        → SameConstant c d
        → Shuffled a b
        → Shuffled (constant c a) (constant d b)
    exchange :
        {c d : Constant} {a : Constants}
        → Shuffled (constant c (constant d a)) (constant d (constant c a))
    twice : {a b c : Constants} → Shuffled a b → Shuffled b c → Shuffled a c

mutual
  unfolding canonical_const

  same_text : {c d : Constant} → SameConstant c d → canonical_const c ≡ canonical_const d
  same_text (same_literal repr) = refl
  same_text (same_tuple h) = ap (λ x. ascii "(" ++ (comma_join x ++ ascii ")")) (same_texts h)
  same_text (same_collection kind h) =
      ap (λ x. kind_name kind ++ (ascii "({" ++ (comma_join x ++ ascii "})")))
        (sorted_perm bytes_lt bytes_lt-IsTotal (permuted h))

  same_texts : {a b : Constants} → SameItems a b → rendered a ≡ rendered b
  same_texts no_items = refl
  same_texts (item h t) = cc (same_text h, same_texts t)

  permuted : {a b : Constants} → Shuffled a b → Permᴰ (rendered a) (rendered b)
  permuted nothing = Permᴰ.nil
  permuted (keep h t) = Permᴰ.cons (same_text h) (permuted t)
  permuted exchange = Permᴰ.swap refl refl
  permuted (twice g h) = Permᴰ.trans (permuted g) (permuted h)

-- A constant is rendered as the same text whatever the order is in which its sets iterate, at any
-- depth inside tuples and other sets, so its fingerprint survives a restart.
pub canonical_const-SameConstant :
    (c d : Constant) → SameConstant c d → canonical_const c ≡ canonical_const d
canonical_const-SameConstant c d h = same_text h

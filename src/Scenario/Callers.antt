-- ===== src/Scenario/Callers.antt =====
-- src/cachau/decorator.py: two calls with the same key, one with a logger that is ignored.
use cachau.CallKey.{Call, call_key, call_key-SameCall}
use cachau.Disk.Header.{ascii}
use cachau.Fingerprint.Functions.{Primitives}
use cachau.Fingerprint.Unique.{SameListing, Collision}
use cachau.Keys.Arguments.{by_arguments, SameIdentity, SmallIdentity, kept}
use cachau.Keys.Framing.{Bytes, Excludes}
use cachau.Keys.Values.{unsupported}
use cachau.Prelude.{
  ℕ, ◌+◌, ◌/◌, ◌%◌, [], ◌∷◌, Option, none, some, ltb, if◌then◌else◌, ◌≡◌, ◌≢◌, ◌⊎◌, refl, arith,
}
use cachau.Scenario.Fingerprints.{outer, outer-IsCode, heap}
use cachau.Scenario.Frames.{accepted, accepted-IsSmall, last, last_fixed}

abbrev hex_digit : ℕ → ℕ
hex_digit d = if ltb d 10 then 48 + d else 87 + d

hex_digit_ne : (d : ℕ) → hex_digit d ≢ 58
hex_digit_ne d e = ground (arith, e)

abbrev hex : Bytes → Bytes
hex [] = []
hex (b ∷ bs) = hex_digit (b / 16) ∷ hex_digit (b % 16) ∷ hex bs

hexadecimal : (b : Bytes) → Excludes 58 (hex b)
hexadecimal [] = tt
hexadecimal (b ∷ bs) = (hex_digit_ne (b / 16), (hex_digit_ne (b % 16), hexadecimal bs))

abbrev prim : Primitives
prim = record { hash = last; hexdigest = hex; repr_options = λ o. []; repr_locals = λ o. [] }

abbrev logged : Call last hex
logged = record {
  heap = heap;
  func = 1;
  namespace = ascii "app.f";
  identity =
      by_arguments (ascii "log" ∷ []) ((ascii "x", accepted) ∷ (ascii "log", unsupported) ∷ []);
}

-- Without the logger, of a decoration that ignores nothing.
abbrev plain : Call last hex
plain = record {
  heap = heap;
  func = 1;
  namespace = ascii "app.f";
  identity = by_arguments [] ((ascii "x", accepted) ∷ []);
}

small : SmallIdentity last hex logged.identity
unfolding SmallIdentity kept
small = (omega arith, (accepted-IsSmall, tt))

small_too : SmallIdentity last hex plain.identity
unfolding SmallIdentity kept
small_too = (omega arith, (accepted-IsSmall, tt))

abbrev written : Option Bytes → Bytes
written none = []
written (some b) = b

unfoldable the_key : Bytes
unfolding call_key
the_key = written (call_key prim 3 logged)

keyed : call_key prim 3 logged ≡ some the_key
unfolding call_key the_key
keyed = refl

keyed_too : call_key prim 2 plain ≡ some the_key
unfolding call_key the_key
keyed_too = refl

call_key-SameCall_example :
    ((logged.namespace ≡ plain.namespace)
      × SameListing outer outer
      × SameIdentity last hex logged.identity plain.identity)
    ⊎ (Collision last ⊎ Collision hex)
call_key-SameCall_example =
    call_key-SameCall prim 2 last_fixed hexadecimal 3 2 logged plain the_key outer outer refl refl
      outer-IsCode outer-IsCode small small_too keyed keyed_too

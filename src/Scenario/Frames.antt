-- ===== src/Scenario/Frames.antt =====
-- Arguments of a call whose bytes are compared: a tuple of a string and a dict, sets in two orders.
use cachau.Disk.Header.{ascii}
use cachau.Keys.Arguments.{Arguments, Identity, by_arguments, digest_call}
use cachau.Keys.Bag.{bag_of, folded-bag_of}
use cachau.Keys.Framing.{Bytes}
use cachau.Keys.Reordered.{
  Reordered, same_sequence, item, no_items, same_dict, swap_entries, same_set, swap_members,
  feed-Reordered,
}
use cachau.Keys.Same.{IsSmall, SameValue}
use cachau.Keys.Unique.{feed-SameValue}
use cachau.Keys.Values.{
  Value, leaf_value, sequence_value, set_value, dict_value, unsupported, value, no_values, pair,
  no_pairs, str, nothing, tuple, list, set, folded, feed,
}
use cachau.Prelude.{List, ◌↔◌, Option, some, none, [], ◌∷◌, ◌≡◌, refl, arith, length}

-- A tuple of a string and a dict with a member that has no support.
abbrev refused : Value
refused = sequence_value tuple (
    value (leaf_value str (97 ∷ []))
      (value (dict_value (pair (leaf_value nothing []) unsupported no_pairs)) no_values))

abbrev text_a : Value
text_a = leaf_value str (ascii "a")

abbrev text_b : Value
text_b = leaf_value str (ascii "b")

-- `(["a", "b"], {"a": "b", "b": "a"}, {"a", "b"})`
abbrev pub accepted : Value
accepted = sequence_value tuple (
    value (sequence_value list (value text_a (value text_b no_values))) (
      value (dict_value (pair text_a text_b (pair text_b text_a no_pairs)))
        (value (set_value set (value text_a (value text_b no_values))) no_values)))

abbrev turned : Value
turned = sequence_value tuple (
    value (sequence_value list (value text_a (value text_b no_values))) (
      value (dict_value (pair text_b text_a (pair text_a text_b no_pairs)))
        (value (set_value set (value text_b (value text_a no_values))) no_values)))

-- A hash function with digests of two bytes: the length and the last byte.
abbrev pub last : Bytes → Bytes
last [] = 0 ∷ 0 ∷ []
last (b ∷ []) = 1 ∷ b ∷ []
last (b ∷ c ∷ bs) = last (c ∷ bs)

pub last_fixed : (b : Bytes) → length (last b) ≡ 2
last_fixed [] = refl
last_fixed (b ∷ []) = refl
last_fixed (b ∷ c ∷ bs) = last_fixed (c ∷ bs)

feed-Reordered_example : feed last accepted ≡ feed last turned
feed-Reordered_example = feed-Reordered last accepted turned (
    same_sequence tuple (
      item (Reordered.as_is _)
        (item (same_dict swap_entries) (item (same_set set swap_members) no_items))))

abbrev written : Option Bytes → Bytes
written none = []
written (some b) = b

unfoldable the_stream : Bytes
unfolding feed
the_stream = written (feed last accepted)

streamed : feed last accepted ≡ some the_stream
unfolding feed the_stream
streamed = refl

pub accepted-IsSmall : IsSmall accepted
unfolding IsSmall
accepted-IsSmall = (
  omega arith,
  ((omega arith, (omega arith, (omega arith, tt))), (omega arith, (omega arith, tt))),
)

feed-SameValue_example : SameValue last accepted accepted × (the_stream ≡ the_stream)
feed-SameValue_example =
    feed-SameValue last 2 last_fixed accepted accepted the_stream the_stream the_stream the_stream
      accepted-IsSmall accepted-IsSmall streamed streamed refl

abbrev arguments : Arguments
arguments = (ascii "x", accepted) ∷ (ascii "log", unsupported) ∷ []

abbrev logged : Identity last (λ b. b)
logged = by_arguments (ascii "log" ∷ []) arguments

-- With `ignore=["verbose"]`, and called with an argument more.
abbrev verbose : Identity last (λ b. b)
verbose =
    by_arguments (ascii "verbose" ∷ [])
      ((ascii "verbose", unsupported) ∷ (ascii "x", accepted) ∷ [])

unfoldable the_digest : Bytes
unfolding digest_call
the_digest = written (digest_call last (λ b. b) logged)

digested : digest_call last (λ b. b) logged ≡ some the_digest
unfolding digest_call the_digest
digested = refl

digested_too : digest_call last (λ b. b) verbose ≡ some the_digest
unfolding digest_call the_digest
digested_too = refl

abbrev one_way : List Bytes
one_way = (1 ∷ 97 ∷ []) ∷ (1 ∷ 98 ∷ []) ∷ []

abbrev other_way : List Bytes
other_way = (1 ∷ 98 ∷ []) ∷ (1 ∷ 97 ∷ []) ∷ []

folded-bag_of_example :
    (folded (ascii "set") (some one_way) ≡ folded (ascii "set") (some other_way))
    ↔ (bag_of one_way ≡ bag_of other_way)
folded-bag_of_example =
    folded-bag_of 2 (ascii "set") one_way other_way (refl, (refl, tt)) (refl, (refl, tt)) refl

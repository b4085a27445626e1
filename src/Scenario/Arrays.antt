-- ===== src/Scenario/Arrays.antt =====
-- src/cachau/keys.py: a polars frame that is hashed with numpy imported and without it, and others.
use cachau.Disk.Header.{ascii}
use cachau.Keys.DataObject.{
  join_little, DataObject, object_array, scalar, pl_frame, lazy_frame, dataframe, feed_data_object,
}
use cachau.Keys.Framing.{Bytes, emit, emit_count}
use cachau.Keys.Same.{IsSmall}
use cachau.Keys.SameObject.{SameObject, feed_data_object-SameObject}
use cachau.Keys.Values.{leaf_value, int, value, no_values, feed}
use cachau.Prelude.{ℕ, List, [], ◌∷◌, ◌++◌, Option, none, some, ◌≡◌, ◌↔◌, refl, arith}
use cachau.Scenario.Frames.{last, last_fixed}

abbrev two_rows : DataObject
two_rows = pl_frame (ascii "[('x', 'Int64')]") 2 (some (7 ∷ 65535 ∷ []))

abbrev numpy : Option (List ℕ → Bytes)
numpy = some join_little

abbrev written : Option Bytes → Bytes
written none = []
written (some b) = b

unfoldable the_stream : Bytes
unfolding feed feed_data_object
the_stream = written (feed last (feed_data_object none none two_rows))

with_numpy : feed last (feed_data_object numpy none two_rows) ≡ some the_stream
unfolding feed feed_data_object the_stream
with_numpy = refl

without_numpy : feed last (feed_data_object none none two_rows) ≡ some the_stream
unfolding feed feed_data_object the_stream
without_numpy = refl

small : IsSmall (feed_data_object none none two_rows)
unfolding IsSmall feed_data_object
small = (omega arith, (omega arith, omega arith))

feed_data_object-SameObject_example :
    (the_stream ≡ the_stream) ↔ SameObject last none two_rows none two_rows
feed_data_object-SameObject_example =
    feed_data_object-SameObject last 2 last_fixed numpy none none none two_rows two_rows the_stream
      the_stream (λ hashes. refl) tt (omega arith, (omega arith, tt))
      (omega arith, (omega arith, tt)) small small with_numpy without_numpy

-- A plan is refused, and so is a frame with cells that pandas does not hash.
plan : feed last (feed_data_object none none lazy_frame) ≡ none
unfolding feed feed_data_object
plan = refl

unhashable :
    feed last (feed_data_object none none (dataframe (ascii "['x']") (ascii "[]") none)) ≡ none
unfolding feed feed_data_object
unhashable = refl

-- An array of objects, of a subclass, with one number.
objects :
    feed last (
      feed_data_object none
        (some (ascii "m.A"))
        (object_array (ascii "(1,)") (value (leaf_value int (ascii "5")) no_values)))
    ≡ some (
        emit (ascii "subtype") (ascii "m.A")
        ++ (emit (ascii "ndarray-shape") (ascii "(1,)")
            ++ (emit_count (ascii "ndarray-object") 1 ++ emit (ascii "int") (ascii "5"))))
unfolding feed feed_data_object
objects = refl

-- `np.int64(5)` is fed as `5`.
number :
    feed last (feed_data_object none none (scalar (leaf_value int (ascii "5"))))
    ≡ some (emit (ascii "int") (ascii "5"))
unfolding feed feed_data_object
number = refl

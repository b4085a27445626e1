-- ===== src/Scenario/Notation.antt =====
-- A codec to run the disk backend with: JSON values in postfix notation, each number above the
-- newline's.
use cachau.Scenario.Machine.{
  token, execute, spell, postfix, postfix_items, postfix_members, execute-postfix,
}
use Prim.Native.Char.{code}
use cachau.Backend.{CacheEntry}
use cachau.Disk.RoundTrip.{Codable}
use cachau.Disk.Validate.{metadata_of}
use cachau.Disk.Header.{count_newlines}
use cachau.Disk.Json.{
  Json, null, boolean, integer, real, text, array, object, Items, no_items, item, Members,
  no_members, member, Codec,
}
use cachau.Prelude.{
  ℕ, ◌+◌, String, List, [], ◌∷◌, ◌++◌, true, false, Option, none, some, ◌≡◌, ◌≢◌, refl, sym, ap,
  ◌∙◌, arith,
}
use mathlib.Core.List.{append-nil}

nothing : count_newlines [] ≡ 0
unfolding count_newlines
nothing = refl

count_newlines-append :
    (a b : List ℕ) → count_newlines (a ++ b) ≡ count_newlines a + count_newlines b
unfolding count_newlines
count_newlines-append [] b = omega arith
count_newlines-append (x ∷ a) b = omega (arith, count_newlines-append a b)

count_newlines-token :
    (kind n : ℕ) (rest : List ℕ) → count_newlines (token kind n ∷ rest) ≡ count_newlines rest
unfolding count_newlines
count_newlines-token kind n rest = ground arith

one_line-spell : (s : String) → count_newlines (spell s) ≡ 0
unfolding spell
one_line-spell String.[] = count_newlines-token 4 0 [] ∙ (unfold count_newlines in refl)
one_line-spell (String.◌∷◌ c s) = omega (
  arith,
  count_newlines-append (spell s) (token 5 (code c) ∷ []),
  count_newlines-token 5 (code c) [],
  one_line-spell s,
  nothing,
)

ruleset one_line = (arith, count_newlines-append, count_newlines-token, nothing, one_line-spell)

mutual
  unfolding postfix postfix_items postfix_members

  one_line-postfix : (j : Json) → count_newlines (postfix j) ≡ 0
  one_line-postfix null = omega one_line
  one_line-postfix (boolean true) = omega one_line
  one_line-postfix (boolean false) = omega one_line
  one_line-postfix (integer n) = omega one_line
  one_line-postfix (real n) = omega one_line
  one_line-postfix (text s) = one_line-spell s
  one_line-postfix (array items) = one_line-items items
  one_line-postfix (object fields) = one_line-members fields

  one_line-items : (items : Items) → count_newlines (postfix_items items) ≡ 0
  one_line-items no_items = omega one_line
  one_line-items (item value items) = omega (one_line, one_line-items items, one_line-postfix value)

  one_line-members : (fields : Members) → count_newlines (postfix_members fields) ≡ 0
  one_line-members no_members = omega one_line
  one_line-members (member name value fields) =
      omega (one_line, one_line-members fields, one_line-postfix value)

abbrev top : List Json → Option Json
top [] = none
top (j ∷ stack) = some j

abbrev one_number : List ℕ → Option ℕ
one_number (n ∷ []) = some n
one_number _ = none

pub postfix_codec : Codec ℕ
postfix_codec = record {
  json_dumps = postfix;
  json_loads = λ tokens. top (execute tokens []);
  pickle_dumps = λ n. some (n ∷ []);
  pickle_loads = one_number;
  hex_digest = λ key. key;
}

json_back : (j : Json) → top (execute (postfix j) []) ≡ some j
unfolding execute
json_back j =
    ap (λ t. top (execute t [])) (sym (append-nil (postfix j))) ∙ ap top (execute-postfix j [] [])

pub postfix_codec-Codable :
    (key : String) (entry : CacheEntry ℕ) (payload : List ℕ)
    → postfix_codec.pickle_dumps entry.value ≡ some payload
    → Codable postfix_codec key entry payload
unfolding postfix_codec
postfix_codec-Codable key entry payload h = record {
  one_line = one_line-postfix (metadata_of key entry);
  json_back = json_back (metadata_of key entry);
  pickle_back = ground (arith, h);
}

pub postfix_codec-distinct :
    (j k : String) → j ≢ k → postfix_codec.hex_digest j ≢ postfix_codec.hex_digest k
unfolding postfix_codec
postfix_codec-distinct j k ne = ne

pub postfix_codec-pickles : (n : ℕ) → postfix_codec.pickle_dumps n ≡ some (n ∷ [])
unfolding postfix_codec
postfix_codec-pickles n = refl

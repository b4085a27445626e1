-- ===== src/Disk/RoundTrip.antt =====
-- src/cachau/disk.py: encoding an entry, and decoding it.
use cachau.Backend.{CacheEntry}
use cachau.Disk.Header.{
  newline, magic, same_bytes, split_line, parse_metadata, parse_header, count_newlines,
}
use cachau.Disk.Json.{Codec, object, real, integer}
use cachau.Disk.Store.{encode, decode}
use cachau.Disk.Validate.{
  find_member, text_members, members_of, or_null, metadata_of, entry_from_metadata, as_dependencies,
  as_timestamp, as_size,
}
use cachau.Disk.Files.{Files}
use cachau.Prelude.Dict.{Dict}
use cachau.Prelude.{ℕ, String, List, [], ◌∷◌, ◌++◌, true, Option, none, some, ◌≡◌, refl, ap, arith}

-- What `json` and `pickle` owe to an entry that they can write.
pub record Codable {V : Type 0} (codec : Codec V) (key : String) (entry : CacheEntry V)
    (payload : List ℕ) : Type 0 where
  -- the text is on one line
  pub one_line : count_newlines (codec.json_dumps (metadata_of key entry)) ≡ 0
  pub json_back :
      codec.json_loads (codec.json_dumps (metadata_of key entry)) ≡ some (metadata_of key entry)
  pub pickle_back : codec.pickle_loads payload ≡ some entry.value

split_line-newline :
    (line rest : List ℕ)
    → count_newlines line ≡ 0
    → split_line (line ++ (newline ∷ rest)) ≡ some (line, rest)
unfolding split_line count_newlines
split_line-newline [] rest h = refl
split_line-newline (b ∷ line) rest h = ground (arith, split_line-newline line rest)

text_members-members_of : (d : Dict String) → text_members (members_of d) ≡ some d
unfolding text_members members_of
text_members-members_of [] = refl
text_members-members_of ((name, value) ∷ d) = rw (text_members-members_of d) refl

as_dependencies-or_null :
    (d : Option (Dict String))
    → as_dependencies (some (or_null (λ x. object (members_of x)) d)) ≡ some d
as_dependencies-or_null none = refl
as_dependencies-or_null (some d) = ground (arith, text_members-members_of d)

as_timestamp-or_null : (t : Option ℕ) → as_timestamp true (some (or_null real t)) ≡ some t
as_timestamp-or_null none = refl
as_timestamp-or_null (some t) = refl

as_size-or_null : (n : Option ℕ) → as_size (some (or_null integer n)) ≡ some n
as_size-or_null none = refl
as_size-or_null (some n) = refl

entry_from_metadata-metadata_of :
    {V : Type 0} (key : String) (entry : CacheEntry V)
    → entry_from_metadata (metadata_of key entry) entry.value ≡ some (key, entry)
unfolding entry_from_metadata metadata_of find_member
entry_from_metadata-metadata_of key entry =
    rw
      (
        as_timestamp-or_null entry.expires_at,
        as_size-or_null entry.size,
        as_dependencies-or_null entry.dependency_fingerprints,
      )
      refl

parse_header-magic :
    {V : Type 0} (codec : Codec V) (line payload : List ℕ)
    → count_newlines line ≡ 0
    → parse_header codec (magic ++ (newline ∷ (line ++ (newline ∷ payload))))
      ≡ parse_metadata codec (some (line, payload))
unfolding parse_header split_line same_bytes
parse_header-magic codec line payload h =
    ap (parse_metadata codec) (split_line-newline line payload h)

-- Decoding the bytes of an entry's file gives its key and the entry, with every field, where json
-- writes one line and it and pickle give back what they wrote.
pub decode-encode :
    {World V : Type 0} (files : Files World) (codec : Codec V) (key : String) (entry : CacheEntry V)
    (payload : List ℕ)
    → Codable codec key entry payload
    → decode files codec (encode files codec key entry payload) ≡ some (key, entry)
unfolding decode encode
decode-encode files codec key entry payload h = ground (
  arith,
  parse_header-magic codec (codec.json_dumps (metadata_of key entry)) payload h.one_line,
  h.json_back,
  h.pickle_back,
  entry_from_metadata-metadata_of key entry,
)

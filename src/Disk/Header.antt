-- ===== src/Disk/Header.antt =====
-- src/cachau/disk.py: `_parse_header`, `_split_file` and the loop of `_read_metadata`.
use Prim.Native.Char.{code}
use cachau.Disk.Json.{Json, Codec}
use cachau.Prelude.{
  ℕ, zero, suc, ◌+◌, ◌*◌, String, List, [], ◌∷◌, ◌++◌, Bool, true, false, ◌&&◌, Option, none, some,
  ltb, ◌==◌, length, take, drop, if◌then◌else◌,
}

-- The bytes of an ASCII text.
abbrev pub ascii : String → List ℕ
ascii String.[] = []
ascii (String.◌∷◌ c s) = code c ∷ ascii s

abbrev pub newline : ℕ
newline = 10

-- `==` on bytes
unfoldable pub same_bytes : List ℕ → List ℕ → Bool
same_bytes [] [] = true
same_bytes [] (b ∷ bs) = false
same_bytes (a ∷ as') [] = false
same_bytes (a ∷ as') (b ∷ bs) = (a == b) && same_bytes as' bs

-- `_MAGIC_PREFIX + str(FORMAT_VERSION).encode()`
abbrev pub magic : List ℕ
magic = ascii "cachau-entry/1"

-- What stands before the first newline, and what after it; `none` where `index` raises.
unfoldable pub split_line : List ℕ → Option (List ℕ × List ℕ)
split_line [] = none
split_line (b ∷ bs) =
    let rest = split_line bs in
    if b == newline
    then some ([], bs)
    else elim rest [ none ↦ none | some (line, after) ↦ some (b ∷ line, after) ]

module _ {V : Type 0} (codec : Codec V) where
  abbrev pub parse_metadata : Option (List ℕ × List ℕ) → Option (Json × List ℕ)
  parse_metadata none = none
  parse_metadata (some (line, payload)) = elim (codec.json_loads line) [
    | none ↦ none
    | some metadata ↦ some (metadata, payload)
  ]

  abbrev pub parse_magic : Option (List ℕ × List ℕ) → Option (Json × List ℕ)
  parse_magic none = none
  parse_magic (some (line, rest)) =
      if same_bytes line magic then parse_metadata (split_line rest) else none

  -- The metadata, and the bytes from the payload's offset on; `none` is a raise.
  unfoldable pub parse_header : List ℕ → Option (Json × List ℕ)
  unfolding split_line same_bytes
  parse_header content = parse_magic (split_line content)

unfoldable pub count_newlines : List ℕ → ℕ
count_newlines [] = 0
count_newlines (b ∷ bs) = (if b == newline then 1 else 0) + count_newlines bs

abbrev pub header_chunk : ℕ
header_chunk = 8 * 1024

abbrev pub header_limit : ℕ
header_limit = 1024 * 1024

-- The `while` loop, with the chunk and the limit as they are given, over what is left of the file.
-- The fuel bounds the rounds.
unfoldable pub read_prefix : ℕ → ℕ → ℕ → List ℕ → List ℕ → List ℕ
read_prefix zero chunk limit prefix rest = prefix
read_prefix (suc fuel) chunk limit prefix [] = prefix
read_prefix (suc fuel) chunk limit prefix (b ∷ rest) =
    let more =
      read_prefix fuel chunk limit (prefix ++ take chunk (b ∷ rest)) (drop chunk (b ∷ rest)) in
    if ltb (count_newlines prefix) 2 && ltb (length prefix) limit then more else prefix

-- Every round but the last reads a whole chunk.
abbrev pub header_rounds : ℕ
header_rounds = 129

abbrev pub without_payload : Option (Json × List ℕ) → Option Json
without_payload none = none
without_payload (some (metadata, payload)) = some metadata

module _ {V : Type 0} (codec : Codec V) where
  -- `_read_metadata` of a file that can be read.
  unfoldable pub header_metadata : List ℕ → Option Json
  unfolding read_prefix
  header_metadata content =
      without_payload
        (parse_header codec (read_prefix header_rounds header_chunk header_limit [] content))

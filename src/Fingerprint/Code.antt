-- ===== src/Fingerprint/Code.antt =====
-- src/cachau/fingerprint.py: `_feed_framed`, `_feed_code` and `_canonical_const`.
-- A text is its bytes, and a hasher is what it was fed.
use cachau.Disk.Header.{ascii}
use cachau.Keys.Framing.{Bytes}
use cachau.Keys.Values.{SetKind, set, frozenset, bytes_lt}
use cachau.Prelude.Sort.{sorted}
use cachau.Prelude.{ℕ, zero, suc, ◌+◌, ◌/◌, ◌%◌, List, [], ◌∷◌, ◌++◌, length, ltb, if◌then◌else◌}

-- `str(n)` for `n` up to `fuel`
unfoldable pub digits : ℕ → ℕ → Bytes
digits zero n = (48 + n % 10) ∷ []
digits (suc fuel) n =
    let rest = digits fuel (n / 10) in
    if ltb n 10 then (48 + n) ∷ [] else rest ++ ((48 + n % 10) ∷ [])

abbrev pub decimal_text : ℕ → Bytes
decimal_text n = digits n n

abbrev pub colon : ℕ
colon = 58

abbrev pub comma : ℕ
comma = 44

-- The bytes that `_feed_framed` adds.
unfoldable pub frame : Bytes → Bytes → Bytes
unfolding digits
frame tag payload = tag ++ (decimal_text (length payload) ++ (colon ∷ payload))

-- `",".join(texts)`
unfoldable pub comma_join : List Bytes → Bytes
comma_join [] = []
comma_join (t ∷ []) = t
comma_join (t ∷ u ∷ ts) = t ++ (comma ∷ comma_join (u ∷ ts))

-- A constant that is neither a set nor a tuple is known by its `repr`.
mutual
  pub data Constant : Type 0 where
    literal : Bytes → Constant
    -- with its elements in the order of iteration
    collection : SetKind → Constants → Constant
    tuple : Constants → Constant

  pub data Constants : Type 0 where
    no_constants : Constants
    constant : Constant → Constants → Constants

-- `type(const).__name__`
abbrev pub kind_name : SetKind → Bytes
kind_name frozenset = ascii "frozenset"
kind_name set = ascii "set"

unfoldable mutual
  unfolding comma_join sorted bytes_lt

  pub canonical_const : Constant → Bytes
  canonical_const (literal repr) = repr
  canonical_const (collection kind items) =
      kind_name kind
      ++ (ascii "({" ++ (comma_join (sorted bytes_lt (rendered items)) ++ ascii "})"))
  canonical_const (tuple items) = ascii "(" ++ (comma_join (rendered items) ++ ascii ")")

  pub rendered : Constants → List Bytes
  rendered no_constants = []
  rendered (constant c cs) = canonical_const c ∷ rendered cs

-- How a code object takes its arguments, of which `_feed_code` reads nothing: `co_flags` says whether
-- the last ones are `*args` and `**kwargs`.
pub record Layout : Type 0 where
  pub co_argcount : ℕ
  pub co_posonlyargcount : ℕ
  pub co_kwonlyargcount : ℕ
  pub co_flags : ℕ

-- A code object: its layout, its bytecode, its names, its variables' names, its free variables and its
-- constants.
mutual
  pub data Code : Type 0 where
    code : Layout → Bytes → List Bytes → List Bytes → List Bytes → Entries → Code

  -- `co_consts`, where a nested code object is a constant too
  pub data Entries : Type 0 where
    no_entries : Entries
    plain : Constant → Entries → Entries
    nested : Code → Entries → Entries

abbrev pub code_tag : Bytes
code_tag = ascii "|code:"

abbrev pub names_tag : Bytes
names_tag = ascii "|names:"

abbrev pub varnames_tag : Bytes
varnames_tag = ascii "|varnames:"

abbrev pub const_tag : Bytes
const_tag = ascii "|const:"

abbrev pub nested_tag : Bytes
nested_tag = ascii "|nested:"

-- `hash` is `hashlib.sha256`.
module _ (hash : Bytes → Bytes) where
  unfoldable mutual
    unfolding frame comma_join canonical_const

    pub feed_code : Code → Bytes
    feed_code (code layout co_code names varnames freevars consts) =
        frame code_tag co_code
        ++ (frame names_tag (comma_join names)
            ++ (frame varnames_tag (comma_join varnames) ++ feed_consts consts))

    pub feed_consts : Entries → Bytes
    feed_consts no_entries = []
    feed_consts (plain c rest) = frame const_tag (canonical_const c) ++ feed_consts rest
    feed_consts (nested c rest) = frame nested_tag (hash (feed_code c)) ++ feed_consts rest

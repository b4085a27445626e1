-- ===== src/Dependencies/Descriptors.antt =====
-- src/cachau/dependencies.py: the descriptors, their labels and their fingerprints.
-- A text is its bytes.
use cachau.Disk.Header.{ascii, same_bytes}
use cachau.Fingerprint.Code.{decimal_text}
use cachau.Fingerprint.Functions.{Failure, Primitives, function_fingerprint}
use cachau.Fingerprint.Objects.{Heap}
use cachau.Fingerprint.Unwrap.{unwrap}
use cachau.Keys.Framing.{Bytes}
use cachau.Keys.Values.{Value, feed}
use cachau.Prelude.Exec.{Result, ok, raise}
use cachau.Prelude.{
  ℕ, zero, suc, ◌*◌, [], ◌∷◌, ◌++◌, Option, none, some, take, drop, length, if◌then◌else◌,
}

pub data On : Type 0 where
  content mtime : On

-- A token's value, or its callable by a number.
pub data TokenValue : Type 0 where
  plain : Value → TokenValue
  callable : ℕ → TokenValue

pub data Descriptor : Type 0 where
  file : Bytes → On → Descriptor
  env : Bytes → Descriptor
  installed_package : Bytes → Descriptor
  token : TokenValue → Option Bytes → Descriptor
  code : ℕ → Option Bytes → Descriptor

-- The world at one moment. A read, a `stat`, a version or a call that raises is `none`.
pub record World : Type 0 where
  pub contents : Bytes → Option Bytes
  -- `st_mtime_ns` and `st_size`, for times from the epoch on
  pub stat : Bytes → Option (ℕ × ℕ)
  pub environ : Bytes → Option Bytes
  pub version : Bytes → Option Bytes
  pub call : ℕ → Option Value
  pub heap : Heap
  pub module_name : ℕ → Bytes
  pub qualname : ℕ → Bytes

pub data DependencyError : Type 0 where
  bad_on not_callable unhashable_token token_raised : DependencyError
  not_fingerprinted : Failure → DependencyError

abbrev pub absent : Bytes
absent = ascii "<absent>"

abbrev pub unset : Bytes
unset = ascii "<unset>"

abbrev pub content_digest_chars : ℕ
content_digest_chars = 32

abbrev pub chunk_size : ℕ
chunk_size = 1024 * 1024

-- The loop of `iter(lambda: handle.read(size), b"")`, from what is left to read on; a round reads one
-- byte at least.
unfoldable pub read_chunks : ℕ → ℕ → Bytes → Bytes
read_chunks zero size left = []
read_chunks (suc fuel) size left =
    let rest = read_chunks fuel size (drop size left) in
    elim (take size left) [ [] ↦ [] | b ∷ chunk ↦ (b ∷ chunk) ++ rest ]

-- `hex` is `bytes.hex`.
module _ (prim : Primitives) (hex : Bytes → Bytes) where
  abbrev pub short_hexdigest : Bytes → Bytes
  short_hexdigest b = take content_digest_chars (prim.hexdigest b)

  abbrev pub short_token : Bytes → Bytes
  short_token b = take content_digest_chars (hex (prim.hash b))

  unfoldable pub content_fingerprint : Option Bytes → Bytes
  unfolding read_chunks
  content_fingerprint none = absent
  content_fingerprint (some b) = short_hexdigest (read_chunks (suc (length b)) chunk_size b)

  unfoldable pub stat_fingerprint : Option (ℕ × ℕ) → Bytes
  stat_fingerprint none = absent
  stat_fingerprint (some (mtime_ns, size)) =
      decimal_text mtime_ns ++ (ascii ":" ++ decimal_text size)

  unfoldable pub env_fingerprint : Option Bytes → Bytes
  env_fingerprint none = unset
  env_fingerprint (some v) = ascii "v:" ++ v

  unfoldable pub package_fingerprint : Option Bytes → Bytes
  package_fingerprint none = absent
  package_fingerprint (some version) = version

  abbrev pub resolved : World → TokenValue → Option Value
  resolved world (plain v) = some v
  resolved world (callable f) = world.call f

  unfoldable pub token_fingerprint : Option Value → Result DependencyError Bytes
  unfolding feed
  token_fingerprint none = raise token_raised
  token_fingerprint (some v) = elim (feed prim.hash v) [
    | none ↦ raise unhashable_token
    | some b ↦ ok (short_token b)
  ]

  abbrev pub shortened : Result Failure Bytes → Result DependencyError Bytes
  shortened (ok digest) = ok (take content_digest_chars digest)
  shortened (raise e) = raise (not_fingerprinted e)

  unfoldable pub fingerprint : ℕ → World → Descriptor → Result DependencyError Bytes
  unfolding content_fingerprint stat_fingerprint env_fingerprint package_fingerprint
      token_fingerprint function_fingerprint
  fingerprint fuel world (file path content) = ok (content_fingerprint (world.contents path))
  fingerprint fuel world (file path mtime) = ok (stat_fingerprint (world.stat path))
  fingerprint fuel world (env name) = ok (env_fingerprint (world.environ name))
  fingerprint fuel world (installed_package name) = ok (package_fingerprint (world.version name))
  fingerprint fuel world (token value name) = token_fingerprint (resolved world value)
  fingerprint fuel world (code func name) =
      shortened (function_fingerprint prim world.heap fuel func)

  -- `f"{func.__module__}.{func.__qualname__}"`
  unfoldable pub function_namespace : World → ℕ → Bytes
  function_namespace world func = world.module_name func ++ (ascii "." ++ world.qualname func)

  unfoldable pub label : World → Descriptor → Option Bytes
  unfolding function_namespace
  label world (file path on) = some (ascii "file:" ++ path)
  label world (env name) = some (ascii "env:" ++ name)
  label world (installed_package name) = some (ascii "package:" ++ name)
  label world (token value none) = none
  label world (token value (some name)) = some (ascii "token:" ++ name)
  label world (code func none) = some (ascii "code:" ++ function_namespace world func)
  label world (code func (some name)) = some (ascii "code:" ++ name)

  -- `FileDependency(path, on)` with its `__post_init__`
  unfoldable pub file_dependency : Bytes → Bytes → Result DependencyError Descriptor
  unfolding same_bytes
  file_dependency path on =
      if same_bytes on (ascii "mtime")
      then ok (file path mtime)
      else if same_bytes on (ascii "content")
      then ok (file path content)
      else raise bad_on

  abbrev pub declared : Option Bytes → ℕ → Result Failure Bytes → Result DependencyError Descriptor
  declared name func (ok digest) = ok (code func name)
  declared name func (raise e) = raise (not_fingerprinted e)

  -- `CodeDependency(func, name)` with its `__post_init__`; the fuel suffices to unwrap.
  unfoldable pub code_dependency : ℕ → World → ℕ → Option Bytes → Result DependencyError Descriptor
  unfolding unwrap function_fingerprint
  code_dependency fuel world func name =
      if (world.heap func).is_callable
      then elim (unwrap world.heap fuel [] func) [
        | none ↦ raise not_callable
        | some unwrapped ↦
            declared name unwrapped (function_fingerprint prim world.heap fuel unwrapped)
      ]
      else raise not_callable

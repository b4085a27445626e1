-- ===== src/Scenario/Resources.antt =====
-- A file whose bytes are the same at two moments at which all else differs.
use cachau.Dependencies.Descriptors.{
  Descriptor, file, content, World, fingerprint, short_hexdigest, absent,
}
use cachau.Dependencies.Readback.{first_byte}
use cachau.Dependencies.Unchanged.{SameResource, Clash, IsUsual, fingerprint-SameResource}
use cachau.Disk.Header.{ascii}
use cachau.Fingerprint.Functions.{Primitives}
use cachau.Fingerprint.Objects.{Object}
use cachau.Keys.Framing.{Bytes}
use cachau.Keys.Values.{leaf_value, int, unsupported}
use cachau.Prelude.Exec.{ok}
use cachau.Prelude.{ℕ, [], ◌∷◌, false, none, some, ◌≡◌, ◌≢◌, ◌⊎◌, refl, ap, arith}

-- Digests of one byte, and hexadecimal digests that begin with a letter.
abbrev prim : Primitives
prim = record {
  hash = λ b. 0 ∷ [];
  hexdigest = λ b. 97 ∷ b;
  repr_options = λ o. [];
  repr_locals = λ o. [];
}

abbrev nobody : Object
nobody = record {
  code = none;
  closure = [];
  defaults = [];
  kwdefaults = [];
  wrapped = none;
  py_func = none;
  options = none;
  locals = [];
  is_callable = false;
  type_name = [];
  value = unsupported;
}

-- The world in which every file has been written at the time.
abbrev world : ℕ → World
world time = record {
  contents = λ path. some (1 ∷ 2 ∷ 3 ∷ []);
  stat = λ path. some (time, 3);
  environ = λ name. none;
  version = λ name. none;
  call = λ f. some (leaf_value int (48 ∷ []));
  heap = λ i. nobody;
  module_name = λ i. [];
  qualname = λ i. [];
}

abbrev table : Descriptor
table = file (ascii "table.csv") content

seen : (time : ℕ) → fingerprint prim (λ b. b) 1 (world time) table ≡ ok (97 ∷ 1 ∷ 2 ∷ 3 ∷ [])
unfolding fingerprint
seen time = refl

proper : (b : Bytes) → short_hexdigest prim (λ b. b) b ≢ absent
proper b h = omega (arith, ap first_byte h)

usual : (time : ℕ) → IsUsual prim (λ b. b) (world time) table
unfolding IsUsual
usual time = tt

fingerprint-SameResource_example :
    SameResource prim (λ b. b) (world 5) (world 9) table ⊎ Clash prim (λ b. b)
fingerprint-SameResource_example =
    fingerprint-SameResource prim (λ b. b) 1 (λ b. refl) proper 1 1 (world 5) (world 9) table
      (97 ∷ 1 ∷ 2 ∷ 3 ∷ []) (usual 5) (usual 9) (seen 5) (seen 9)

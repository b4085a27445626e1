-- ===== src/Disk/Json.antt =====
-- src/cachau/disk.py: the metadata of an entry's file, as `json` and `pickle` read and write it.
-- Numbers are not negative here, and a float is a number of microseconds.
use cachau.Prelude.{ℕ, String, List, Bool, Option}

mutual
  pub data Json : Type 0 where
    null : Json
    boolean : Bool → Json
    integer : ℕ → Json
    real : ℕ → Json
    text : String → Json
    array : Items → Json
    object : Members → Json

  pub data Items : Type 0 where
    no_items : Items
    item : Json → Items → Items

  -- A dict: each key once.
  pub data Members : Type 0 where
    no_members : Members
    member : String → Json → Members → Members

-- `json`, `pickle` and the name of a key's file, which are not this program's. `none` is a raise.
pub record Codec (V : Type 0) : Type 0 where
  pub json_dumps : Json → List ℕ
  pub json_loads : List ℕ → Option Json
  pub pickle_dumps : V → Option (List ℕ)
  pub pickle_loads : List ℕ → Option V
  pub hex_digest : String → String

-- ===== src/Json.antt =====
-- JSON documents as Python's `json` hands them over: the values, and the `dict` operations that
-- the program uses on an object. The text layout of a document is not modelled.
pub mod Dict
use edgepi_e87n.Base.{
  ℕ, String, Bool, true, false, Option, none, some, List, [], ◌∷◌, ◌≈◌, if◌then◌else◌, elem,
}

-- An int of JSON; `negsuc n` is -(n + 1).
pub data ℤ : Type 0 where
  pos : ℕ → ℤ
  negsuc : ℕ → ℤ

mutual
  pub data Value : Type 0 where
    str : String → Value
    num : ℤ → Value
    float : String → Value
    bool : Bool → Value
    obj : Fields → Value
    arr : Items → Value
    null : Value

  -- The pairs of an object, in their order; a `dict` is such a list with distinct keys.
  pub data Fields : Type 0 where
    end : Fields
    field : String → Value → Fields → Fields

  pub data Items : Type 0 where
    nil : Items
    cons : Value → Items → Items

unfoldable pub keys : Fields → List String
keys end = []
keys (field k v fs) = k ∷ keys fs

unfoldable pub item : String → Fields → Option Value
item k end = none
item k (field j v fs) = if k ≈ j then some v else item k fs

-- config[k] = v keeps the place of a key that is there, and appends a new one.
unfoldable pub put : String → Value → Fields → Fields
put k v end = field k v end
put k v (field j w fs) = if k ≈ j then field j v fs else field j w (put k v fs)

-- config.update(changes), dict(config, **changes)
unfoldable pub update : Fields → Fields → Fields
update config end = config
update config (field k v changes) = update (put k v config) changes

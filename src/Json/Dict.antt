-- ===== src/Json/Dict.antt =====
-- `keys`, `item`, `put` and `update` against each other.
use edgepi_e87n.Base.{
  String, ◌≡◌, refl, ◌∙◌, ◌||◌, Option, some, ◌≈◌, ≈_iff, if◌then◌else◌, elem, arith,
}
use edgepi_e87n.Json.{Value, Fields, end, field, keys, item, put, update}

pub item-put :
    (k j : String) (v : Value) (fs : Fields)
    → item j (put k v fs) ≡ (if j ≈ k then some v else item j fs)
unfolding item put
item-put k j v end = refl
item-put k j v (field i w fs) = ground (arith, ≈_iff k i, ≈_iff j i, ≈_iff j k, item-put k j v fs)

pub elem-keys-put :
    (k j : String) (v : Value) (fs : Fields)
    → elem j (keys (put k v fs)) ≡ (j ≈ k || elem j (keys fs))
unfolding keys put
elem-keys-put k j v end = refl
elem-keys-put k j v (field i w fs) =
    ground (arith, ≈_iff k i, ≈_iff j i, ≈_iff j k, elem-keys-put k j v fs)

-- What the changes say, where they say something; the last of several pairs counts.
abbrev pub last_item : String → Fields → Option Value → Option Value
last_item k end old = old
last_item k (field j v fs) old = last_item k fs (if k ≈ j then some v else old)

pub item-update :
    (k : String) (config changes : Fields)
    → item k (update config changes) ≡ last_item k changes (item k config)
unfolding update
item-update k config end = refl
item-update k config (field j v fs) = item-update k (put j v config) fs ∙ cc (item-put j k v config)

pub elem-keys-update :
    (k : String) (config changes : Fields)
    → elem k (keys (update config changes)) ≡ (elem k (keys changes) || elem k (keys config))
unfolding update keys
elem-keys-update k config end = refl
elem-keys-update k config (field j v fs) =
    ground (arith, elem-keys-update k (put j v config) fs, elem-keys-put j k v config)

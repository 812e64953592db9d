-- ===== src/Hardware/Config/Keys.antt =====
-- The keys of a configuration through `_validate_config`.
use edgepi_e87n.Base.{
  String, ◌≡◌, refl, true, false, ◌≈◌, ≈_iff, elem, same_set, elem-same_set, same_set_intro, ok,
  arith, Bool-cases, inl, inr, Option, none, some, distinct, if◌then◌else◌,
}
use edgepi_e87n.Json.{Value, Fields, end, field, keys, item, put, update, str}
use edgepi_e87n.Json.Dict.{elem-keys-put, elem-keys-update, last_item}
use edgepi_e87n.Hardware.Config.{
  default_config, legacy_keys, config_keys, expand, set_theme, legacy_theme, remap_theme,
}

abbrev pub HasExactKeys : Fields → Type 0
HasExactKeys config = same_set (keys config) config_keys ≡ true

update-HasExactKeys :
    (config : Fields)
    → same_set (keys config) legacy_keys ≡ true
    → HasExactKeys (update default_config config)
unfolding keys
update-HasExactKeys config h = same_set_intro (keys (update default_config config)) config_keys λ s.
    ground
      (arith, elem-keys-update s default_config config, elem-same_set s (keys config) legacy_keys h)

pub expand-HasExactKeys :
    (config : Fields) {result : Fields} → expand config ≡ ok result → HasExactKeys result
unfolding expand
expand-HasExactKeys config h = ground (arith, update-HasExactKeys config)

exact_not_legacy :
    (config : Fields) → HasExactKeys config → same_set (keys config) legacy_keys ≡ false
exact_not_legacy config h = elim (Bool-cases (same_set (keys config) legacy_keys)) [
  | inl legacy ↦ cc (
    elem-same_set "theme" (keys config) legacy_keys legacy,
    elem-same_set "theme" (keys config) config_keys h,
  )
  | inr other ↦ other
]

pub expand_exact : (config : Fields) → HasExactKeys config → expand config ≡ ok config
unfolding expand
expand_exact config h = ground (arith, exact_not_legacy config)

put_theme-HasExactKeys :
    (v : Value) (config : Fields) → HasExactKeys config → HasExactKeys (put "theme" v config)
put_theme-HasExactKeys v config h = same_set_intro (keys (put "theme" v config)) config_keys λ s.
    ground (
      arith,
      elem-keys-put "theme" s v config,
      elem-same_set s (keys config) config_keys h,
      ≈_iff s "theme",
    )

set_theme-HasExactKeys :
    (o : Option String) (config : Fields) → HasExactKeys config → HasExactKeys (set_theme o config)
set_theme-HasExactKeys none config h = h
set_theme-HasExactKeys (some t) config h = put_theme-HasExactKeys (str t) config h

pub remap_theme-HasExactKeys :
    (v : Value) (config : Fields) → HasExactKeys config → HasExactKeys (remap_theme v config)
unfolding remap_theme
remap_theme-HasExactKeys (str t) config h = set_theme-HasExactKeys (legacy_theme t) config h
remap_theme-HasExactKeys _ config h = h

-- A key that a `dict` has leads to a value.
pub item_of_elem :
    (k : String) (config : Fields)
    → elem k (keys config) ≡ true
    → (v : Value) × (item k config ≡ some v)
unfolding keys item
item_of_elem k end h = cc
item_of_elem k (field j v fs) h = elim (Bool-cases (k ≈ j)) [
  | inl same ↦ (v, ground arith)
  | inr other ↦ let (w, e) = item_of_elem k fs (ground arith) in (w, ground arith)
]

-- With distinct keys, as a `dict` has them, the last pair for a key is the only one.
pub last_item-distinct :
    (k : String) (config : Fields) (old : Option Value)
    → distinct (keys config) ≡ true
    → last_item k config old ≡ (if elem k (keys config) then item k config else old)
unfolding keys item
last_item-distinct k end old h = refl
last_item-distinct k (field j v fs) old h =
    ground (arith, last_item-distinct k fs (if k ≈ j then some v else old), ≈_iff k j)

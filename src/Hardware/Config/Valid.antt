-- ===== src/Hardware/Config/Valid.antt =====
-- What `_validate_config` accepts and returns.
use edgepi_e87n.Base.{
  String, ◌≡◌, refl, ◌∙◌, Bool, true, false, none, some, ≈_iff, elem, same_set, elem-same_set, ok,
  err, bind-eq-ok, arith, Option-cases, inl, inr, bind-eq-err, ◌>>=◌, ◌↔◌, ◌≢◌, ◌⊎◌,
}
use edgepi_e87n.Json.{Value, null, bool, num, float, str, arr, obj, Fields, keys, item}
use edgepi_e87n.Hardware.{HardwareError, key_error}
use edgepi_e87n.Hardware.Config.Keys.{
  HasExactKeys, expand-HasExactKeys, expand_exact, remap_theme-HasExactKeys, item_of_elem,
}
use edgepi_e87n.Hardware.Config.{
  screens, themes, config_keys, is_bool, is_int_in, is_one_of, is_rotation, expand, legacy_theme,
  remap_theme, get, check, check_fields, validate_config,
}

-- `test` holds of the value that `key` has.
abbrev pub holds_at : (Value → Bool) → String → Fields → Bool
holds_at test key config = elim (item key config) [ none ↦ false | some v ↦ test v ]

-- The documented contract of a display configuration, one line a field.
pub record IsConfig (config : Fields) : Type 0 where
  pub exact_keys : same_set (keys config) config_keys ≡ true
  pub enabled : holds_at is_bool "enabled" config ≡ true
  pub brightness : holds_at (is_int_in 0 100) "brightness_percent" config ≡ true
  pub screen : holds_at (is_one_of screens) "screen" config ≡ true
  pub refresh : holds_at (is_int_in 2 60) "refresh_seconds" config ≡ true
  pub theme : holds_at (is_one_of themes) "theme" config ≡ true
  pub rotation_enabled : holds_at is_bool "rotation_enabled" config ≡ true
  pub rotation_seconds : holds_at (is_int_in 2 60) "rotation_seconds" config ≡ true
  pub rotation_screens : holds_at is_rotation "rotation_screens" config ≡ true

check-eq-ok :
    (test : Value → Bool) (key : String) (e : HardwareError) (config : Fields)
    → check test key e config ≡ ok tt
    → holds_at test key config ≡ true
check-eq-ok test key e config h = ground arith

pub check_fields-IsConfig :
    (config : Fields) {result : Fields}
    → HasExactKeys config
    → check_fields config ≡ ok result
    → (result ≡ config) × IsConfig config
unfolding check_fields
check_fields-IsConfig config k h = ground arith

check_fields_complete : (config : Fields) → IsConfig config → check_fields config ≡ ok config
unfolding check_fields
check_fields_complete config v = ground arith

-- `_validate_config` returns only configurations that meet the whole contract: exactly the eight
-- documented keys, each with a value of the documented type and range.
pub validate_config-IsConfig :
    (v : Value) (result : Fields) → validate_config v ≡ ok result → IsConfig result
unfolding validate_config
validate_config-IsConfig (obj config) result h =
    let (c, expanded, rest) = bind-eq-ok (expand config) _ h in
    let (theme, found, checked) = bind-eq-ok (get c "theme") _ rest in
    let keyed = remap_theme-HasExactKeys theme c (expand-HasExactKeys config expanded) in
    let (same, valid) = check_fields-IsConfig (remap_theme theme c) keyed checked in rw same valid
validate_config-IsConfig null result h = cc
validate_config-IsConfig (bool _) result h = cc
validate_config-IsConfig (num _) result h = cc
validate_config-IsConfig (float _) result h = cc
validate_config-IsConfig (str _) result h = cc
validate_config-IsConfig (arr _) result h = cc

elem-themes : (t : String) → elem t themes ≡ true → (t ≡ "dark") ⊎ ((t ≡ "aurora") ⊎ (t ≡ "light"))
elem-themes t h = ground (arith, ≈_iff t "dark", ≈_iff t "aurora", ≈_iff t "light")

legacy_theme_current : (t : String) → elem t themes ≡ true → legacy_theme t ≡ none
unfolding legacy_theme
legacy_theme_current t h = elim (elem-themes t h) [
  | inl e ↦ rw e
  | inr (inl e) ↦ rw e
  | inr (inr e) ↦ rw e
]

-- a theme of the current vocabulary is none of the 1.2 names
remap_theme_current :
    (v : Value) (config : Fields) → is_one_of themes v ≡ true → remap_theme v config ≡ config
unfolding remap_theme is_one_of
remap_theme_current (str t) config h = rw (legacy_theme_current t h)
remap_theme_current null config h = refl
remap_theme_current _ config h = refl

holds_at-cases :
    (test : Value → Bool) (key : String) (config : Fields)
    → holds_at test key config ≡ true
    → (v : Value) × (item key config ≡ some v) × (test v ≡ true)
holds_at-cases test key config h = elim (Option-cases (item key config)) [
  | inl absent ↦ absurd (ground arith)
  | inr (v, found) ↦ (v, found, ground arith)
]

-- A configuration that meets the contract is accepted and comes back unchanged.
validate_config_complete :
    (config : Fields) → IsConfig config → validate_config (obj config) ≡ ok config
unfolding validate_config
validate_config_complete config c =
    let (theme, found, current) = holds_at-cases (is_one_of themes) "theme" config c.theme in
    ground (
      arith,
      expand_exact config c.exact_keys,
      remap_theme_current theme config current,
      check_fields_complete config c,
    )

-- An object is accepted, and then returned as it is, exactly when it has the eight keys and each
-- value has the type and the range of the schema (`IsConfig`).
pub validate_config_iff :
    (config : Fields) → (validate_config (obj config) ≡ ok config) ↔ IsConfig config
validate_config_iff config =
    (validate_config-IsConfig (obj config) config, validate_config_complete config)

-- Validation is idempotent: what it returns it accepts again, unchanged.
pub validate_config_idem :
    (v : Value) (result : Fields)
    → validate_config v ≡ ok result
    → validate_config (obj result) ≡ ok result
validate_config_idem v result h =
    validate_config_complete result (validate_config-IsConfig v result h)

present :
    (key : String) (config : Fields)
    → HasExactKeys config
    → elem key config_keys ≡ true
    → (v : Value) × (item key config ≡ some v)
present key config h m = item_of_elem key config (elem-same_set key (keys config) config_keys h ∙ m)

check_fields-ne-key_error :
    (config : Fields) (k : String) → HasExactKeys config → check_fields config ≢ err (key_error k)
unfolding check_fields
check_fields-ne-key_error config k h = ground (
  arith,
  present "enabled" config h,
  present "brightness_percent" config h,
  present "screen" config h,
  present "refresh_seconds" config h,
  present "theme" config h,
  present "rotation_enabled" config h,
  present "rotation_seconds" config h,
  present "rotation_screens" config h,
)

remap_theme-ne-key_error :
    (config : Fields) (k : String)
    → HasExactKeys config
    → (get config "theme" >>= λ theme. check_fields (remap_theme theme config)) ≢ err (key_error k)
remap_theme-ne-key_error config k h =
    let (theme, found) = present "theme" config h refl in
    rw found (check_fields-ne-key_error _ k (remap_theme-HasExactKeys theme config h))

-- Whatever document is validated, no lookup of a key fails: the key check comes first.
validate_config-ne-key_error : (v : Value) (k : String) → validate_config v ≢ err (key_error k)
unfolding validate_config
validate_config-ne-key_error (obj config) k h = elim (bind-eq-err (expand config) _ h) [
  | inl e ↦ unfold expand in ground arith
  | inr (c, expanded, rest) ↦
      remap_theme-ne-key_error c k (expand-HasExactKeys config expanded) rest
]
validate_config-ne-key_error null k h = cc
validate_config-ne-key_error _ k h = cc

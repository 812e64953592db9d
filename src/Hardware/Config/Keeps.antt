-- ===== src/Hardware/Config/Keeps.antt =====
-- The items of the result of `_validate_config`, against those of the document.
use edgepi_e87n.Base.{
  String, ◌≡◌, ◌≢◌, refl, ◌∙◌, true, false, Option, none, some, ≈_iff, if◌then◌else◌, elem,
  same_set, elem-same_set, distinct, ok, bind-eq-ok, arith, Bool-cases, inl, inr, sym,
}
use edgepi_e87n.Json.{Value, str, obj, Fields, end, field, keys, item, update, null}
use edgepi_e87n.Json.Dict.{item-put, item-update}
use edgepi_e87n.Hardware.Config.{
  default_config, legacy_keys, config_keys, expand, legacy_theme, set_theme, remap_theme, get,
  validate_config,
}
use edgepi_e87n.Hardware.Config.Keys.{
  HasExactKeys, expand-HasExactKeys, remap_theme-HasExactKeys, last_item-distinct,
}
use edgepi_e87n.Hardware.Config.Valid.{check_fields-IsConfig}

item_of_not_elem :
    (k : String) (config : Fields) → elem k (keys config) ≡ false → item k config ≡ none
unfolding keys item
item_of_not_elem k end h = refl
item_of_not_elem k (field j v fs) h = ground (arith, item_of_not_elem k fs)

abbrev pub or_default : String → Fields → Option Value
or_default k config = if elem k (keys config) then item k config else item k default_config

item_exact :
    (k : String) (config : Fields) → HasExactKeys config → item k config ≡ or_default k config
item_exact k config h = elim (Bool-cases (elem k (keys config))) [
  | inl there ↦ rw there
  | inr absent ↦ rw absent (
      item_of_not_elem k config absent
      ∙ sym (
          item_of_not_elem k default_config
            (unfold keys in sym (elem-same_set k (keys config) config_keys h) ∙ absent)))
]

item-expand :
    (k : String) (config : Fields) {result : Fields}
    → distinct (keys config) ≡ true
    → expand config ≡ ok result
    → item k result ≡ or_default k config
unfolding expand
item-expand k config {result} d h = elim (Bool-cases (same_set (keys config) legacy_keys)) [
  | inl legacy ↦
      let e : result ≡ update default_config config = ground arith in
      rw e (
        item-update k default_config config ∙ last_item-distinct k config (item k default_config) d)
  | inr other ↦ let e : result ≡ config = ground arith in rw e (item_exact k config (ground arith))
]

item-set_theme :
    (k : String) (o : Option String) (config : Fields)
    → k ≢ "theme"
    → item k (set_theme o config) ≡ item k config
item-set_theme k none config ne = refl
item-set_theme k (some t) config ne =
    ground (arith, item-put "theme" k (str t) config, ≈_iff k "theme")

item-remap_theme :
    (k : String) (v : Value) (config : Fields)
    → k ≢ "theme"
    → item k (remap_theme v config) ≡ item k config
unfolding remap_theme
item-remap_theme k (str t) config ne = item-set_theme k (legacy_theme t) config ne
item-remap_theme k null config ne = refl
item-remap_theme k _ config ne = refl

-- The colour skin of a theme name: 1.2 names are mapped, others stay.
abbrev pub skin : String → String
skin t = elim (legacy_theme t) [ none ↦ t | some new ↦ new ]

item-theme-set_theme :
    (t : String) (o : Option String) (config : Fields)
    → item "theme" config ≡ some (str t)
    → item "theme" (set_theme o config) ≡ some (str (elim o [ none ↦ t | some new ↦ new ]))
item-theme-set_theme t none config h = h
item-theme-set_theme t (some new) config h =
    ground (arith, item-put "theme" "theme" (str new) config)

module _ (config result : Fields) (is_dict : distinct (keys config) ≡ true)
    (accepted : validate_config (obj config) ≡ ok result) where
  -- the result is the expanded document with its theme remapped
  accepted_parts :
      (c : Fields) × (theme : Value) × (expand config ≡ ok c)
      × (item "theme" c ≡ some theme)
      × (result ≡ remap_theme theme c)
  unfolding validate_config
  accepted_parts =
      let (c, expanded, rest) = bind-eq-ok (expand config) _ accepted in
      let (theme, found, checked) = bind-eq-ok (get c "theme") _ rest in
      let keyed = remap_theme-HasExactKeys theme c (expand-HasExactKeys config expanded) in
      (c, theme, expanded, ground arith, (check_fields-IsConfig _ keyed checked).0)

  -- Of an accepted object without repeated keys, validation changes nothing but the theme: any
  -- other key has the object's value, or the default where the object (a 1.1.x file) lacks the
  -- key.
  pub item-validate_config : (k : String) → k ≢ "theme" → item k result ≡ or_default k config
  item-validate_config k ne =
      let (c, theme, expanded, _, e) = accepted_parts in
      rw e (item-remap_theme k theme c ne ∙ item-expand k config is_dict expanded)

  -- Of an accepted object without repeated keys, the theme of the result is the skin of the
  -- object's theme name, or of the default name where the object has none.
  pub theme-validate_config :
      (t : String)
      → or_default "theme" config ≡ some (str t)
      → item "theme" result ≡ some (str (skin t))
  unfolding remap_theme
  theme-validate_config t h =
      let (c, theme, expanded, found, e) = accepted_parts in
      let here : item "theme" c ≡ some (str t) = item-expand "theme" config is_dict expanded ∙ h in
      let is_text : theme ≡ str t = cc in
      rw (e, is_text) (item-theme-set_theme t (legacy_theme t) c here)

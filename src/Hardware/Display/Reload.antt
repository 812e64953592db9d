-- ===== src/Hardware/Display/Reload.antt =====
-- Loading a configuration behind a setter.
use edgepi_e87n.Base.{
  String, ◌≡◌, refl, true, Option, none, some, ok, arith, ≈_iff, distinct, bind-eq-ok,
}
use edgepi_e87n.Json.{Value, obj, null, str, Fields, end, field, keys, put, update}
use edgepi_e87n.Json.Dict.{elem-keys-put}
use edgepi_e87n.Hardware.Config.{
  default_config, expand, remap_theme, set_theme, legacy_theme, get, validate_config, unique_object,
}
use edgepi_e87n.Hardware.Config.Keys.{expand-HasExactKeys, remap_theme-HasExactKeys}
use edgepi_e87n.Hardware.Config.Unique.{unique_object_iff, unique_object_keeps}
use edgepi_e87n.Hardware.Config.Valid.{check_fields-IsConfig, validate_config_idem}
use edgepi_e87n.Hardware.Saving.{Content, whole, torn, File, Disk}
use edgepi_e87n.Hardware.Display.{
  Machine, load_content, parse_config, load_file, load_config, merged, display,
}
use edgepi_e87n.Hardware.Display.Transaction.{display_success}

put-distinct :
    (k : String) (v : Value) (fs : Fields)
    → distinct (keys fs) ≡ true
    → distinct (keys (put k v fs)) ≡ true
unfolding keys put
put-distinct k v end h = refl
put-distinct k v (field j w fs) h =
    ground (arith, put-distinct k v fs, elem-keys-put k j v fs, ≈_iff k j, ≈_iff j k)

update-distinct :
    (config changes : Fields)
    → distinct (keys config) ≡ true
    → distinct (keys (update config changes)) ≡ true
unfolding update
update-distinct config end h = h
update-distinct config (field k v changes) h =
    update-distinct (put k v config) changes (put-distinct k v config h)

default-distinct : distinct (keys default_config) ≡ true
unfolding keys
default-distinct = refl

expand-distinct :
    (config : Fields) {result : Fields}
    → distinct (keys config) ≡ true
    → expand config ≡ ok result
    → distinct (keys result) ≡ true
unfolding expand
expand-distinct config h e = ground (arith, update-distinct default_config config default-distinct)

set_theme-distinct :
    (o : Option String) (config : Fields)
    → distinct (keys config) ≡ true
    → distinct (keys (set_theme o config)) ≡ true
set_theme-distinct none config h = h
set_theme-distinct (some t) config h = put-distinct "theme" _ config h

remap_theme-distinct :
    (v : Value) (config : Fields)
    → distinct (keys config) ≡ true
    → distinct (keys (remap_theme v config)) ≡ true
unfolding remap_theme
remap_theme-distinct (str t) config h = set_theme-distinct (legacy_theme t) config h
remap_theme-distinct null config h = h
remap_theme-distinct _ config h = h

validate_config-distinct :
    (config result : Fields)
    → distinct (keys config) ≡ true
    → validate_config (obj config) ≡ ok result
    → distinct (keys result) ≡ true
unfolding validate_config
validate_config-distinct config result d h =
    let (c, expanded, rest) = bind-eq-ok (expand config) _ h in
    let (theme, found, checked) = bind-eq-ok (get c "theme") _ rest in
    let keyed = remap_theme-HasExactKeys theme c (expand-HasExactKeys config expanded) in
    let (same, _) = check_fields-IsConfig (remap_theme theme c) keyed checked in
    rw same (remap_theme-distinct theme c (expand-distinct config d expanded))

parse_config-distinct :
    (document : Value) {result : Fields}
    → parse_config document ≡ ok result
    → distinct (keys result) ≡ true
unfolding parse_config
parse_config-distinct (obj pairs) h =
    let (fields, unique, valid) = bind-eq-ok (unique_object pairs) _ h in
    validate_config-distinct fields _ (unique_object_keeps pairs fields unique).1 valid
parse_config-distinct null h = unfold validate_config in cc
parse_config-distinct _ h = unfold validate_config in cc

load_content-distinct :
    (content : Content) {config : Fields}
    → load_content content ≡ ok config
    → distinct (keys config) ≡ true
load_content-distinct torn h = absurd (cc h)
load_content-distinct (whole document) h = parse_config-distinct document h

load_file-distinct :
    (file : Option File) {config : Fields}
    → load_file file ≡ ok config
    → distinct (keys config) ≡ true
load_file-distinct none {config} h =
    let same : default_config ≡ config = cc in rw (← same) default-distinct
load_file-distinct (some f) h = load_content-distinct f.content h

merged-distinct :
    (changes : Fields) (disk : Disk) {config : Fields}
    → merged changes disk ≡ ok config
    → distinct (keys config) ≡ true
unfolding merged load_config
merged-distinct changes disk h =
    let (old, loaded, valid) = bind-eq-ok (load_config disk) _ h in
    validate_config-distinct (update old changes) _
      (update-distinct old changes (load_file-distinct disk.file loaded)) valid

saved_valid :
    (changes : Fields) (disk : Disk) (config : Fields)
    → merged changes disk ≡ ok config
    → validate_config (obj config) ≡ ok config
unfolding merged
saved_valid changes disk config h =
    let (old, _, valid) = bind-eq-ok (load_config disk) _ h in
    validate_config_idem (obj (update old changes)) config valid

parse_saved :
    (c : Fields)
    → distinct (keys c) ≡ true
    → validate_config (obj c) ≡ ok c
    → parse_config (obj c) ≡ ok c
unfolding parse_config
parse_saved c d h = rw ((unique_object_iff c).1 d) h

-- After a setter that returns, loading the configuration gives what the setter returned.
pub load_config-display :
    (m : Machine) (changes c : Fields) (disk : Disk)
    → (display m (some changes) disk).result ≡ ok c
    → load_config (display m (some changes) disk).disk ≡ ok c
unfolding load_config
load_config-display m changes c disk h =
    let done = display_success m changes c disk h in
    rw done.2
      (parse_saved c (merged-distinct changes disk done.1) (saved_valid changes disk c done.1))

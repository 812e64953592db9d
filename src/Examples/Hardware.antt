-- ===== src/Examples/Hardware.antt =====
-- A panel set to 40 percent on the page "cpu": the saved file, the writes and the kernel's counters.
use edgepi_e87n.Base.{
  ℕ, ◌≤◌, ◌≡◌, ◌≢◌, ◌↔◌, refl, true, ◌&&◌, List, [], ◌∷◌, ◌++◌, none, some, Bytes, codes, length,
  distinct, decimal, read_decimal, read_onto, leb, sym, ◌∙◌, ok,
}
use edgepi_e87n.Json.{pos, bool, num, str, obj, Fields, end, field, keys, item, put, update}
use edgepi_e87n.Hardware.Config.{
  expand, check_fields, remap_theme, legacy_theme, is_bool, is_int_in, is_one_of, is_rotation,
  all_one_of, count_items, texts, default_config, validate_config,
}
use edgepi_e87n.Hardware.Config.Valid.{IsConfig, validate_config_iff}
use edgepi_e87n.Hardware.Config.Keeps.{or_default}
use edgepi_e87n.Hardware.Number.{signed, integer}
use edgepi_e87n.Hardware.Backlight.{raw_brightness, raw_of_config, write_value, apply_config, Write}
use edgepi_e87n.Hardware.Backlight.Writes.{power_on, level, IssuedInOrder, apply_config_writes}
use edgepi_e87n.Hardware.Saving.{Disk, SaveCalls, save, open_temporary, try_save, clean_up, call}
use edgepi_e87n.Hardware.Saving.Atomic.{saved, All}
use edgepi_e87n.Hardware.Display.{
  Machine, require_write_authority, display_set, save_config, load_config, merged, display,
}
use edgepi_e87n.Hardware.Display.Transaction.{
  FileAfter, display_atomic, display_persists_first, display_success,
}
use edgepi_e87n.Hardware.Display.Reload.{load_config-display}

abbrev all_done : SaveCalls
all_done = record {
  target = ok tt;
  create = ok tt;
  trusted = ok tt;
  write = ok tt;
  sync = ok tt;
  replace = ok tt;
  sync_directory = ok tt;
  close = ok tt;
  unlink = ok tt;
}

abbrev machine : Machine
machine = record {
  euid = 0;
  compatible = codes "edgepi,e87n" ++ 0 ∷ [];
  panel = ok tt;
  kernel = λ name text. some (length text);
  saving = all_done;
}

abbrev disk : Disk
disk = record { directory = true; file = none; temporary = none }

abbrev changes : Fields
changes = field "brightness_percent" (num (pos 40)) (field "screen" (str "cpu") end)

abbrev changed : Fields
changed = update default_config changes

default_valid : validate_config (obj default_config) ≡ ok default_config
unfolding validate_config expand keys item put update check_fields remap_theme legacy_theme is_bool
    is_int_in is_one_of is_rotation all_one_of count_items texts
default_valid = refl

changed_valid : validate_config (obj changed) ≡ ok changed
unfolding validate_config expand keys item put update check_fields remap_theme legacy_theme is_bool
    is_int_in is_one_of is_rotation all_one_of count_items texts
changed_valid = refl

set : (display machine (some changes) disk).result ≡ ok changed
unfolding validate_config expand keys item put update check_fields remap_theme legacy_theme is_bool
    is_int_in is_one_of is_rotation all_one_of count_items texts display require_write_authority
    display_set merged load_config save_config save open_temporary try_save clean_up call
    apply_config raw_of_config raw_brightness write_value decimal
set = refl

abbrev writes : List Write
writes = power_on ∷ level 16 ∷ []

issued : (display machine (some changes) disk).issued ≡ writes
unfolding validate_config expand keys item put update check_fields remap_theme legacy_theme is_bool
    is_int_in is_one_of is_rotation all_one_of count_items texts display require_write_authority
    display_set merged load_config save_config save open_temporary try_save clean_up call
    apply_config raw_of_config raw_brightness write_value decimal
issued = refl

issued-ne-nil : (display machine (some changes) disk).issued ≢ []
issued-ne-nil h = nonempty (sym issued ∙ h)
  where
    nonempty : writes ≢ []
    nonempty e = absurd (cc)

-- a file of 1.1.x: four keys
abbrev legacy : Fields
legacy = field "enabled" (bool true) (
    field "brightness_percent" (num (pos 55))
      (field "screen" (str "fan") (field "refresh_seconds" (num (pos 5)) end)))

-- a file of 1.2.x: the theme has its old name
abbrev dual : Fields
dual = update default_config (field "theme" (str "dual") end)

legacy_valid : validate_config (obj legacy) ≡ ok (update default_config legacy)
unfolding validate_config expand keys item put update check_fields remap_theme legacy_theme is_bool
    is_int_in is_one_of is_rotation all_one_of count_items texts
legacy_valid = refl

dual_valid : validate_config (obj dual) ≡ ok default_config
unfolding validate_config expand keys item put update check_fields remap_theme legacy_theme is_bool
    is_int_in is_one_of is_rotation all_one_of count_items texts
dual_valid = refl

legacy-distinct : distinct (keys legacy) ≡ true
unfolding keys
legacy-distinct = refl

dual-distinct : distinct (keys dual) ≡ true
unfolding keys put update
dual-distinct = refl

dual_theme : or_default "theme" dual ≡ some (str "dual")
unfolding keys put update item
dual_theme = refl

validate_config_iff_example : (validate_config (obj changed) ≡ ok changed) ↔ IsConfig changed
validate_config_iff_example = validate_config_iff changed

display_atomic_example :
    FileAfter changes disk (display machine (some changes) disk).disk
    × All (FileAfter changes disk) (display machine (some changes) disk).passed
display_atomic_example = display_atomic machine changes disk

display_persists_first_example :
    (c : Fields) × (merged changes disk ≡ ok c)
    × IsConfig c
    × ((display machine (some changes) disk).disk.file ≡ some (saved c))
display_persists_first_example = display_persists_first machine changes disk issued-ne-nil

display_success_example :
    IsConfig changed
    × (merged changes disk ≡ ok changed)
    × ((display machine (some changes) disk).disk.file ≡ some (saved changed))
    × (raw : ℕ) × (raw_of_config changed ≡ ok raw)
    × (raw ≤ 26)
    × ((display machine (some changes) disk).issued ≡ power_on ∷ level raw ∷ [])
display_success_example = display_success machine changes changed disk set

load_config-display_example : load_config (display machine (some changes) disk).disk ≡ ok changed
load_config-display_example = load_config-display machine changes changed disk set

apply_config_writes_example :
    IssuedInOrder machine.kernel changed (apply_config machine.kernel changed)
apply_config_writes_example = apply_config_writes machine.kernel changed

abbrev reading : Bytes
reading = codes "41500"

read : integer (some reading) (pos 0) (pos 200000) ≡ some (pos 41500)
unfolding integer signed read_decimal read_onto
read = refl

five_digits : (leb 1 (length (decimal 41500)) && leb (length (decimal 41500)) 20) ≡ true
unfolding decimal
five_digits = refl

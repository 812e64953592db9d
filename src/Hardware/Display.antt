-- ===== src/Hardware/Display.antt =====
-- `_require_write_authority`, `_load_config_at` and `display` of
-- board-support/e87n/hardware.py, over the configuration directory as a state.
pub mod Transaction
pub mod Reload
use edgepi_e87n.Base.{
  ℕ, Bool, true, false, not, ◌&&◌, List, [], ◌∷◌, ◌++◌, Option, none, some, ◌==◌, if◌then◌else◌,
  Bytes, ends_with, split, bytes_elem, codes, Result, ok, err, ◌>>=◌, ◌>>◌, require,
}
use edgepi_e87n.Json.{Value, null, bool, num, float, str, arr, obj, Fields, update}
use edgepi_e87n.Hardware.{HardwareError, not_root, wrong_board, bad_json}
use edgepi_e87n.Hardware.Saving.{Content, whole, torn, File, Disk, Trace, SaveCalls, save}
use edgepi_e87n.Hardware.Config.{default_config, validate_config, unique_object}
use edgepi_e87n.Hardware.Backlight.{Write, Kernel, Writing, apply_config}

-- What the running system answers; `panel` is how the checks of `_backlight_files` end.
pub record Machine : Type 0 where
  pub euid : ℕ
  pub compatible : Bytes
  pub panel : Result HardwareError (Unit {0})
  pub kernel : Kernel
  pub saving : SaveCalls

-- `disk` is the state behind the call, `passed` has the states that it went through, the newest first.
pub record Outcome : Type 0 where
  pub passed : List Disk
  pub disk : Disk
  pub issued : List Write
  pub result : Result HardwareError Fields

unfoldable pub require_write_authority : Machine → Result HardwareError (Unit {0})
require_write_authority m = do
  require (m.euid == 0) not_root
  require (ends_with 0 m.compatible && bytes_elem (codes "edgepi,e87n") (split 0 m.compatible))
      wrong_board

-- The hook of `json.loads`, then the validation. An object inside a value is refused by either.
unfoldable pub parse_config : Value → Result HardwareError Fields
parse_config (obj pairs) = do fields ← unique_object pairs; validate_config (obj fields)
parse_config v = validate_config v

abbrev pub load_content : Content → Result HardwareError Fields
load_content torn = err bad_json
load_content (whole document) = parse_config document

abbrev pub load_file : Option File → Result HardwareError Fields
load_file none = ok default_config
load_file (some f) = load_content f.content

unfoldable pub load_config : Disk → Result HardwareError Fields
load_config disk = load_file disk.file

abbrev save_valid : Machine → Result HardwareError Fields → Disk → Trace
save_valid m (err e) disk = record { passed = []; now = disk; result = err e }
save_valid m (ok config) disk = save m.saving config disk

unfoldable pub save_config : Machine → Fields → Disk → Trace
save_config m config disk = save_valid m (validate_config (obj config)) disk

abbrev pub raised : Disk → HardwareError → Outcome
raised disk e = record { passed = []; disk = disk; issued = []; result = err e }

abbrev pub applied : List Disk → Disk → Fields → Writing → Outcome
applied passed disk config (issued, ok _) = record {
  passed = passed;
  disk = disk;
  issued = issued;
  result = ok config;
}
applied passed disk config (issued, err e) = record {
  passed = passed;
  disk = disk;
  issued = issued;
  result = err e;
}

abbrev apply_loaded : Machine → Disk → Result HardwareError Fields → Outcome
apply_loaded m disk (err e) = raised disk e
apply_loaded m disk (ok config) = applied [] disk config (apply_config m.kernel config)

-- changes is None: apply once, from the defaults where the directory is missing
unfoldable pub display_apply : Machine → Disk → Outcome
display_apply m disk =
    apply_loaded m disk (if disk.directory then load_config disk else ok default_config)

abbrev pub apply_traced : Machine → Fields → Trace → Result HardwareError (Unit {0}) → Outcome
apply_traced m config t (err e) = record {
  passed = t.passed;
  disk = t.now;
  issued = [];
  result = err e;
}
apply_traced m config t (ok _) = applied t.passed t.now config (apply_config m.kernel config)

abbrev pub apply_saved : Machine → Fields → Trace → Outcome
apply_saved m config t = apply_traced m config t t.result

abbrev save_merged : Machine → Disk → Result HardwareError Fields → Outcome
save_merged m disk (err e) = raised disk e
save_merged m disk (ok config) = apply_saved m config (save_config m config disk)

-- the saved configuration with the changes, validated
unfoldable pub merged : Fields → Disk → Result HardwareError Fields
merged changes disk = do config ← load_config disk; validate_config (obj (update config changes))

-- A setter: load, change, validate, save, and only then apply.
unfoldable pub display_set : Machine → Fields → Disk → Outcome
display_set m changes disk =
    let made = record disk { directory = true } in save_merged m made (merged changes made)

abbrev dispatch : Machine → Option Fields → Disk → Outcome
dispatch m none disk = display_apply m disk
dispatch m (some changes) disk = display_set m changes disk

abbrev guarded : Result HardwareError (Unit {0}) → Disk → Outcome → Outcome
guarded (ok _) disk out = out
guarded (err e) disk out = raised disk e

unfoldable pub display : Machine → Option Fields → Disk → Outcome
display m changes disk =
    guarded (require_write_authority m >> m.panel) disk (dispatch m changes disk)

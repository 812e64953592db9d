-- ===== src/Hardware/Config.antt =====
-- `_validate_config` and `_unique_object` of board-support/e87n/hardware.py.
pub mod Keys
pub mod Valid
pub mod Keeps
pub mod Unique
use edgepi_e87n.Base.{
  ℕ, ◌+◌, String, Bool, true, false, not, ◌&&◌, ◌||◌, List, [], ◌∷◌, Option, none, some, leb, ◌≈◌,
  if◌then◌else◌, elem, distinct, same_set, Result, ok, err, ◌>>=◌, ◌>>◌, require, or_raise, length,
}
use edgepi_e87n.Json.{
  ℤ, pos, negsuc, Value, null, bool, num, float, str, arr, obj, Items, nil, cons, Fields, end,
  field, keys, item, put, update,
}
use edgepi_e87n.Hardware.{
  HardwareError, not_an_object, wrong_keys, bad_enabled, bad_brightness, bad_screen, bad_refresh,
  bad_theme, bad_rotation_enabled, bad_rotation_seconds, bad_rotation_screens, duplicate_key,
  key_error,
}

abbrev pub screens : List String
screens = "overview" ∷ "cpu" ∷ "memory" ∷ "thermal" ∷ "fan" ∷ "network" ∷ "traffic" ∷ "storage" ∷ []

abbrev pub themes : List String
themes = "dark" ∷ "aurora" ∷ "light" ∷ []

abbrev pub screen_items : List String → Items
screen_items [] = nil
screen_items (s ∷ ss) = cons (str s) (screen_items ss)

abbrev pub default_config : Fields
default_config = field "enabled" (bool true) (
    field "brightness_percent" (num (pos 20)) (
      field "screen" (str "overview") (
        field "refresh_seconds" (num (pos 2)) (
          field "theme" (str "dark") (
            field "rotation_enabled" (bool false) (
              field "rotation_seconds" (num (pos 3))
                (field "rotation_screens" (arr (screen_items screens)) end)))))))

abbrev pub legacy_keys : List String
legacy_keys = "enabled" ∷ "brightness_percent" ∷ "screen" ∷ "refresh_seconds" ∷ []

abbrev pub config_keys : List String
config_keys =
    "enabled" ∷ "brightness_percent" ∷ "screen" ∷ "refresh_seconds" ∷ "theme" ∷ "rotation_enabled"
    ∷ "rotation_seconds" ∷ "rotation_screens" ∷ []

-- type(value) is bool
unfoldable pub is_bool : Value → Bool
is_bool (bool b) = true
is_bool _ = false

-- type(value) is int and low <= value <= high
unfoldable pub is_int_in : ℕ → ℕ → Value → Bool
is_int_in low high (num (pos n)) = leb low n && leb n high
is_int_in low high _ = false

-- type(value) is str and value in names
unfoldable pub is_one_of : List String → Value → Bool
is_one_of names (str s) = elem s names
is_one_of names _ = false

unfoldable pub count_items : Items → ℕ
count_items nil = 0
count_items (cons v xs) = count_items xs + 1

-- The texts of a list; `set(rotation_screens)` is formed of these.
unfoldable pub texts : Items → List String
texts nil = []
texts (cons (str s) xs) = s ∷ texts xs
texts (cons _ xs) = texts xs

unfoldable pub all_one_of : List String → Items → Bool
unfolding is_one_of
all_one_of names nil = true
all_one_of names (cons v xs) = is_one_of names v && all_one_of names xs

unfoldable pub is_rotation : Value → Bool
unfolding count_items all_one_of texts is_one_of
is_rotation (arr xs) =
    leb 1 (count_items xs)
    && leb (count_items xs) (length screens)
    && all_one_of screens xs
    && distinct (texts xs)
is_rotation _ = false

-- The four keys of 1.1.x get the other defaults; any other set of keys is refused.
unfoldable pub expand : Fields → Result HardwareError Fields
expand config =
    if same_set (keys config) legacy_keys
    then ok (update default_config config)
    else if not (same_set (keys config) config_keys)
    then err wrong_keys
    else ok config

-- The new value that `_LEGACY_THEMES` has for a 1.2 theme.
unfoldable pub legacy_theme : String → Option String
legacy_theme theme =
    if theme ≈ "dual"
    then some "dark"
    else if theme ≈ "single"
    then some "light"
    else if theme ≈ "compact"
    then some "aurora"
    else none

abbrev pub set_theme : Option String → Fields → Fields
set_theme none config = config
set_theme (some theme) config = put "theme" (str theme) config

unfoldable pub remap_theme : Value → Fields → Fields
remap_theme (str theme) config = set_theme (legacy_theme theme) config
remap_theme _ config = config

abbrev pub get : Fields → String → Result HardwareError Value
get config key = or_raise (item key config) (key_error key)

-- if not test(config[key]): raise error
abbrev pub check :
    (Value → Bool) → String → HardwareError → Fields → Result HardwareError (Unit {0})
check test key error config = do value ← get config key; require (test value) error

unfoldable pub check_fields : Fields → Result HardwareError Fields
check_fields config = do
  check is_bool "enabled" bad_enabled config
  check (is_int_in 0 100) "brightness_percent" bad_brightness config
  check (is_one_of screens) "screen" bad_screen config
  check (is_int_in 2 60) "refresh_seconds" bad_refresh config
  check (is_one_of themes) "theme" bad_theme config
  check is_bool "rotation_enabled" bad_rotation_enabled config
  check (is_int_in 2 60) "rotation_seconds" bad_rotation_seconds config
  check is_rotation "rotation_screens" bad_rotation_screens config
  ok config

unfoldable pub validate_config : Value → Result HardwareError Fields
validate_config (obj config) = do
  config ← expand config
  theme ← get config "theme"
  check_fields (remap_theme theme config)
validate_config _ = err not_an_object

-- `object_pairs_hook`: the pairs of an object, from the first on.
unfoldable pub unique_onto : Fields → Fields → Result HardwareError Fields
unfolding keys put
unique_onto result end = ok result
unique_onto result (field key value pairs) =
    if elem key (keys result)
    then err (duplicate_key key)
    else unique_onto (put key value result) pairs

unfoldable pub unique_object : Fields → Result HardwareError Fields
unfolding unique_onto
unique_object pairs = unique_onto end pairs

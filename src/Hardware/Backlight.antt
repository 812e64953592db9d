-- ===== src/Hardware/Backlight.antt =====
-- `_raw_brightness` and `_apply_config` of board-support/e87n/hardware.py.
pub mod Range
pub mod Writes
use edgepi_e87n.Base.{
  ℕ, ◌+◌, ◌-◌, ◌*◌, ◌/◌, Bool, true, false, ◌&&◌, List, [], ◌∷◌, ◌++◌, Option, none, some, leb,
  ◌==◌, if◌then◌else◌, length, Bytes, decimal, Result, ok, err, ◌>>=◌,
}
use edgepi_e87n.Json.{pos, Value, num, bool, Fields}
use edgepi_e87n.Hardware.{HardwareError, invalid_brightness, key_error, short_write, os_error}
use edgepi_e87n.Hardware.Config.{is_int_in, get}

abbrev raw_of : ℕ → ℕ → ℕ
raw_of maximum percent = (maximum * (100 - percent) + 50) / 100

unfoldable pub raw_brightness : Value → ℕ → Result HardwareError ℕ
raw_brightness (num (pos percent)) maximum =
    if leb percent 100 && maximum == 26 then ok (raw_of maximum percent) else err invalid_brightness
raw_brightness _ maximum = err invalid_brightness

-- The two sysfs attributes that `_backlight_files` opens for writing.
pub data Attribute : Type 0 where
  bl_power brightness : Attribute

pub record Write : Type 0 where
  pub attribute : Attribute
  pub payload : Bytes

-- What the kernel answers to a write: the number of bytes taken, or none for an OSError.
abbrev pub Kernel : Type 0
Kernel = Attribute → Bytes → Option ℕ

-- The writes that were issued, and how the function ended.
abbrev pub Writing : Type 0
Writing = List Write × Result HardwareError (Unit {0})

abbrev pub answer : Option ℕ → ℕ → Result HardwareError (Unit {0})
answer none wanted = err os_error
answer (some written) wanted = if written == wanted then ok tt else err short_write

-- if os.write(descriptors[name], data) != len(data): raise
unfoldable pub write_value : Kernel → Attribute → ℕ → Writing
write_value kernel name value =
    let text = decimal value ++ b'\n' ∷ [] in
    (record { attribute = name; payload = text } ∷ [], answer (kernel name text) (length text))

abbrev pub then_write : Writing → Writing → Writing
then_write (issued, ok _) (more, result) = (issued ++ more, result)
then_write (issued, err e) _ = (issued, err e)

-- config["brightness_percent"] if config["enabled"] else 0
abbrev pub percent_of : Fields → Value → Result HardwareError Value
percent_of config (bool true) = get config "brightness_percent"
percent_of config _ = ok (num (pos 0))

unfoldable pub raw_of_config : Fields → Result HardwareError ℕ
raw_of_config config = do
  enabled ← get config "enabled"
  percent ← percent_of config enabled
  raw_brightness percent 26

abbrev pub write_raw : Kernel → Result HardwareError ℕ → Writing
write_raw kernel (err e) = ([], err e)
write_raw kernel (ok raw) =
    then_write (write_value kernel bl_power 0) (write_value kernel brightness raw)

unfoldable pub apply_config : Kernel → Fields → Writing
apply_config kernel config = write_raw kernel (raw_of_config config)

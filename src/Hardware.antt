-- ===== src/Hardware.antt =====
-- board-support/e87n/hardware.py: what its functions raise, and its parts.
pub mod Config
pub mod Number
pub mod Backlight
pub mod Saving
pub mod Display
pub mod Fan
pub mod Cpu
use edgepi_e87n.Base.{String}

-- `HardwareError` by the check that raises it; `key_error` is Python's own, and `os_error` stands
-- for an `OSError` of a system call.
pub data HardwareError : Type 0 where
  not_an_object wrong_keys bad_enabled bad_brightness bad_screen bad_refresh : HardwareError
  bad_theme bad_rotation_enabled bad_rotation_seconds bad_rotation_screens : HardwareError
  invalid_brightness not_root wrong_board bad_fan_request no_fan bad_fan_state : HardwareError
  not_regular interrupted short_write os_error bad_json : HardwareError
  duplicate_key key_error : String → HardwareError

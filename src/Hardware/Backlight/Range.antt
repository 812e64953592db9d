-- ===== src/Hardware/Backlight/Range.antt =====
-- The values of `_raw_brightness`.
use edgepi_e87n.Base.{ℕ, ◌+◌, ◌-◌, ◌*◌, ◌/◌, ◌≤◌, ◌<◌, ◌≡◌, refl, ok, arith}
use edgepi_e87n.Json.{pos, negsuc, Value, num, null}
use edgepi_e87n.Hardware.Backlight.{raw_brightness}

-- For every percentage of 0..100 there is a raw value of 0..26, and it is 26 * (100 - percent) / 100
-- rounded to the nearest whole number, halves up.
pub raw_brightness_nearest :
    (percent : ℕ)
    → percent ≤ 100
    → (raw : ℕ) × (raw_brightness (num (pos percent)) 26 ≡ ok raw)
      × (raw ≤ 26)
      × (100 * raw ≤ 26 * (100 - percent) + 50)
      × (26 * (100 - percent) + 50 < 100 * (raw + 1))
unfolding raw_brightness
raw_brightness_nearest percent h =
    ((26 * (100 - percent) + 50) / 100, ground arith, omega arith, omega arith, omega arith)

-- Only an int of 0..100 with the maximum 26 has a raw value, and that value lies in 0..26.
pub raw_brightness_bounds :
    (v : Value) (maximum raw : ℕ)
    → raw_brightness v maximum ≡ ok raw
    → (percent : ℕ) × (v ≡ num (pos percent)) × (percent ≤ 100) × (maximum ≡ 26) × (raw ≤ 26)
unfolding raw_brightness
raw_brightness_bounds (num (pos percent)) maximum raw h =
    (percent, refl, ground arith, ground arith, ground arith)
raw_brightness_bounds (num (negsuc n)) maximum raw h = cc
raw_brightness_bounds null maximum raw h = cc
raw_brightness_bounds _ maximum raw h = cc

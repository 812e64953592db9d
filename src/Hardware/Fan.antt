-- ===== src/Hardware/Fan.antt =====
-- `fan_test` of board-support/e87n/hardware.py, with the answers of the system as a record.
pub mod Restore
use edgepi_e87n.Base.{
  ℕ, ◌+◌, Bool, true, false, not, ◌&&◌, List, [], ◌∷◌, ◌++◌, Option, none, some, leb, ◌==◌,
  if◌then◌else◌, length, Bytes, decimal, Result, ok, err, ◌>>=◌, ◌>>◌, require, or_raise,
}
use edgepi_e87n.Json.{ℤ, pos, negsuc, Value, num}
use edgepi_e87n.Hardware.{HardwareError, bad_fan_request, no_fan, bad_fan_state, not_regular}
use edgepi_e87n.Hardware.Number.{integer}
use edgepi_e87n.Hardware.Backlight.{answer}

-- The texts of max_state and cur_state.
pub record Cooling : Type 0 where
  pub max_state : Option Bytes
  pub cur_state : Option Bytes

-- Authority, the first pwm-fan cooling device, how opening cur_state ends, whether it is a regular
-- file, what the kernel answers to a write, and how the wait ends.
pub record FanSystem : Type 0 where
  pub authority : Result HardwareError (Unit {0})
  pub cooling : Option Cooling
  pub opened : Result HardwareError (Unit {0})
  pub regular : Bool
  pub kernel : Bytes → Option ℕ
  pub wait : Result HardwareError (Unit {0})

-- tested_state, restored_state and test_seconds of the result
pub record Tested : Type 0 where
  pub state : ℕ
  pub previous : ℕ
  pub seconds : ℕ

pub record FanTest : Type 0 where
  pub issued : List Bytes
  pub result : Result HardwareError Tested

unfoldable pub check_request : Value → Value → Result HardwareError (ℕ × ℕ)
check_request (num (pos state)) (num (pos seconds)) =
    if leb seconds 30 then ok (state, seconds) else err bad_fan_request
check_request state seconds = err bad_fan_request

-- a value of `_number` with a minimum of 0
abbrev pub natural : Option ℤ → Option ℕ
natural (some (pos n)) = some n
natural _ = none

abbrev limit_or : Option ℕ → ℕ
limit_or none = 255
limit_or (some maximum) = maximum

abbrev pub number : Option Bytes → ℕ → Option ℕ
number text maximum = natural (integer text (pos 0) (pos maximum))

-- The maximum and the level before the test.
unfoldable pub levels : Cooling → ℕ → Result HardwareError (ℕ × ℕ)
levels c state = do
  let max_level = number c.max_state 255
  let previous = number c.cur_state (limit_or max_level)
  maximum ← or_raise max_level bad_fan_state
  before ← or_raise previous bad_fan_state
  require (leb state maximum) bad_fan_state
  ok (maximum, before)

abbrev pub level_text : ℕ → Bytes
level_text n = decimal n ++ b'\n' ∷ []

abbrev pub write_level : FanSystem → ℕ → Result HardwareError (Unit {0})
write_level f n = answer (f.kernel (level_text n)) (length (level_text n))

-- The `finally` block behind the write of the tested level: the wait, and then the restoring write,
-- whose failure hides that of the first.
abbrev pub restore : FanSystem → Tested → Result HardwareError (Unit {0}) → FanTest
restore f t (err e) = record { issued = level_text t.state ∷ []; result = err e }
restore f t (ok _) = record {
  issued = level_text t.state ∷ level_text t.previous ∷ [];
  result = write_level f t.previous >> (write_level f t.state >> ok t);
}

abbrev pub nothing : HardwareError → FanTest
nothing e = record { issued = []; result = err e }

-- everything before the first write
unfoldable pub prepare : FanSystem → Value → Value → Result HardwareError Tested
prepare f state seconds = do
  request ← check_request state seconds
  f.authority
  cooling ← or_raise f.cooling no_fan
  known ← levels cooling request.0
  f.opened
  require f.regular not_regular
  ok (record { state = request.0; previous = known.1; seconds = request.1 })

abbrev pub test_level : FanSystem → Result HardwareError Tested → FanTest
test_level f (err e) = nothing e
test_level f (ok t) = restore f t f.wait

unfoldable pub fan_test : FanSystem → Value → Value → FanTest
fan_test f state seconds = test_level f (prepare f state seconds)

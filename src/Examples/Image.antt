-- ===== src/Examples/Image.antt =====
-- Paths and modules of a small image, and the fan and the processor of a running board.
use edgepi_e87n.Base.{
  ℕ, Bool, ◌≡◌, refl, true, false, List, [], ◌∷◌, some, none, Bytes, codes, length, decimal,
  read_decimal, read_onto, elem, ok, if◌then◌else◌, ◌=ᵇ◌,
}
use edgepi_e87n.Json.{num, pos}
use edgepi_e87n.Hardware.Number.{signed, integer}
use edgepi_e87n.Hardware.Fan.{FanSystem, Tested, check_request, levels, prepare, fan_test}
use edgepi_e87n.Hardware.Fan.Restore.{Writes, fan_test-Writes}
use edgepi_e87n.Hardware.Cpu.{
  Fraction, counters, sample, is_monotone, deltas, sum, usage_between, cpu_usage,
}
use edgepi_e87n.Paths.{Links, relative_path}
use edgepi_e87n.Modules.{Needs, deps_of, each, visit, module_closure}
use edgepi_e87n.Modules.Order.{IsOrder, module_closure-IsOrder}

-- /lib is a link to usr/lib
abbrev merged : Links
merged path = if same path then some (codes "usr/lib") else none
  where
    same : List Bytes → Bool
    same (part ∷ []) = part =ᵇ codes "lib"
    same _ = false

abbrev found : List Bytes
found = codes "usr" ∷ codes "lib" ∷ codes "modules" ∷ []

accepted : relative_path (codes "etc/os-release") ≡ true
unfolding relative_path
accepted = refl

abbrev graph : List Needs
graph =
    record { name = "phy"; deps = "lib" ∷ "usb" ∷ [] }
    ∷ record { name = "usb"; deps = "lib" ∷ [] }
    ∷ record { name = "lib"; deps = [] }
    ∷ []

closed : module_closure graph "phy" ≡ ok ("phy" ∷ "usb" ∷ "lib" ∷ [])
unfolding module_closure visit each deps_of
closed = refl

module_closure-IsOrder_example :
    IsOrder graph ("phy" ∷ "usb" ∷ "lib" ∷ []) × (elem "phy" ("phy" ∷ "usb" ∷ "lib" ∷ []) ≡ true)
module_closure-IsOrder_example = module_closure-IsOrder graph "phy" closed

abbrev fan : FanSystem
fan = record {
  authority = ok tt;
  cooling = some (record { max_state = some (codes "3"); cur_state = some (codes "1") });
  opened = ok tt;
  regular = true;
  kernel = λ text. some (length text);
  wait = ok tt;
}

fan_test-Writes_example :
    Writes fan (num (pos 2)) (num (pos 5)) (fan_test fan (num (pos 2)) (num (pos 5)))
fan_test-Writes_example = fan_test-Writes fan (num (pos 2)) (num (pos 5))

abbrev tested : Tested
tested = record { state = 2; previous = 1; seconds = 5 }

returned : (fan_test fan (num (pos 2)) (num (pos 5))).result ≡ ok tested
unfolding fan_test prepare check_request levels integer signed read_decimal read_onto decimal
returned = refl

abbrev earlier : List ℕ
earlier = 10 ∷ 0 ∷ 5 ∷ 100 ∷ []

abbrev quarter : Fraction
quarter = record { numerator = 500; denominator = 20 }

used : (cpu_usage (some earlier) (some (codes "cpu  14 0 6 115"))).usage ≡ some quarter
unfolding cpu_usage sample counters usage_between is_monotone deltas sum integer signed read_decimal
    read_onto
used = refl

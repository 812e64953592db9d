-- ===== src/Doctor/Devices.antt =====
-- `_network`, `_thermal_fan` and `_nv3007` of board-support/e87n/doctor.py.
pub mod Network
use edgepi_e87n.Base.{
  ℕ, suc, ◌+◌, Bool, true, false, not, ◌&&◌, ◌||◌, List, [], ◌∷◌, ◌++◌, Option, none, some, leb,
  ◌==◌, if◌then◌else◌, length, all, any, Bytes, ◌=ᵇ◌, bytes_elem, starts_with, codes, String,
}
use edgepi_e87n.Json.{ℤ, pos, negsuc}
use edgepi_e87n.Hardware.Number.{negate}
use edgepi_e87n.Doctor.{Status, good, unknown, warning, error, Check, System}
use edgepi_e87n.Doctor.Patterns.{
  is_interface_name, is_thermal_name, is_numbered, lower, names_cpu, size_of,
}
use edgepi_e87n.Doctor.Reader.{entries, text, number, small}
use edgepi_e87n.Doctor.Identity.{is_missing, is_yes, or_empty}

-- f"{directory}/{name}/{attribute}"
unfoldable pub attribute : String → Bytes → String → Bytes
attribute directory name file =
    codes directory ++ (codes "/" ++ (name ++ (codes "/" ++ codes file)))

-- value == n, for an observation
unfoldable pub is_value : ℕ → Option ℤ → Bool
is_value n (some (pos m)) = m == n
is_value n _ = false

pub record Interface : Type 0 where
  pub carrier : Option ℤ
  pub operstate : Option Bytes
  pub addr_assign_type : Option ℤ

unfoldable pub states : List Bytes
states =
    codes "unknown"
    ∷ codes "notpresent"
    ∷ codes "down"
    ∷ codes "lowerlayerdown"
    ∷ codes "testing"
    ∷ codes "dormant"
    ∷ codes "up"
    ∷ []

unfoldable pub known_state : Option Bytes → Option Bytes
known_state none = none
known_state (some state) = if bytes_elem state states then some state else none

unfoldable pub interface : System → Bytes → Interface
interface system name = record {
  carrier = number system (attribute "sys/class/net" name "carrier") (pos 0) (pos 1);
  addr_assign_type =
      number system (attribute "sys/class/net" name "addr_assign_type") (pos 0) (pos 3);
  operstate = known_state (text system small (attribute "sys/class/net" name "operstate"));
}

-- The numbers of the interfaces are their places in the list.
unfoldable pub interfaces : System → List Bytes → List Interface
interfaces system [] = []
interfaces system (name ∷ names) =
    let rest = interfaces system names in
    if name =ᵇ codes "lo" then rest else interface system name ∷ rest

-- an `any` that is open where nothing was found and something could not be observed
unfoldable pub any_of : Bool → (Interface → Option ℤ) → List Interface → Option Bool
any_of complete field items =
    if any (λ i. is_value 1 (field i)) items
    then some true
    else if not complete || any (λ i. is_missing (field i)) items
    then none
    else some false

pub record NetworkDetails : Type 0 where
  pub enumeration_complete : Bool
  pub interfaces : List Interface
  pub any_carrier : Option Bool
  pub random_address_observed : Option Bool

unfoldable pub is_incomplete : Interface → Bool
is_incomplete i = is_missing i.carrier || is_missing i.addr_assign_type

unfoldable pub network_of : Bool → List Interface → Check NetworkDetails
network_of complete items =
    let linked = any_of complete Interface.carrier items in
    let random = any_of complete Interface.addr_assign_type items in
    record {
      status =
          if complete && is_yes linked && not (is_yes random) && not (any is_incomplete items)
          then good
          else warning;
      details = record {
        enumeration_complete = complete;
        interfaces = items;
        any_carrier = linked;
        random_address_observed = random;
      };
    }

unfoldable pub network : System → Check NetworkDetails
network system =
    let (names, complete) = entries system (codes "sys/class/net") is_interface_name in
    network_of complete (interfaces system names)

pub record Zone : Type 0 where
  pub cpu_or_soc : Option Bool
  pub temp_mc : Option ℤ

pub record Cooling : Type 0 where
  pub state : Option ℤ
  pub max_state : Option ℤ

unfoldable pub is_zone : Bytes → Bool
is_zone name = starts_with (codes "thermal_zone") name

unfoldable pub kind_of : System → Bytes → Option Bytes
kind_of system name = text system small (attribute "sys/class/thermal" name "type")

unfoldable pub zone : System → Bytes → Zone
zone system name =
    let kind = kind_of system name in
    record {
      cpu_or_soc = if is_missing kind then none else some (names_cpu false (lower (or_empty kind)));
      temp_mc =
          number system (attribute "sys/class/thermal" name "temp") (negate 40000) (pos 200000);
    }

unfoldable pub zones : System → List Bytes → List Zone
zones system [] = []
zones system (name ∷ names) =
    let rest = zones system names in if is_zone name then zone system name ∷ rest else rest

-- maximum if maximum is not None else 255
unfoldable pub or_255 : Option ℤ → ℤ
or_255 none = pos 255
or_255 (some maximum) = maximum

unfoldable pub cooling_device : System → Bytes → Cooling
cooling_device system name =
    let maximum =
      number system (attribute "sys/class/thermal" name "max_state") (pos 0) (pos 255) in
    record {
      max_state = maximum;
      state =
          number system (attribute "sys/class/thermal" name "cur_state") (pos 0) (or_255 maximum);
    }

unfoldable pub is_text : String → Option Bytes → Bool
is_text expected none = false
is_text expected (some content) = content =ᵇ codes expected

unfoldable pub coolings : System → List Bytes → List Cooling
coolings system [] = []
coolings system (name ∷ names) =
    let rest = coolings system names in
    if not (is_zone name) && is_text "pwm-fan" (kind_of system name)
    then cooling_device system name ∷ rest
    else rest

pub record HwmonFan : Type 0 where
  pub pwm : Option ℤ
  pub rpm : Option ℤ

unfoldable pub hwmon_fans : System → List Bytes → List HwmonFan
hwmon_fans system [] = []
hwmon_fans system (name ∷ names) =
    let rest = hwmon_fans system names in
    let kind = text system small (attribute "sys/class/hwmon" name "name") in
    let fan : HwmonFan = record {
      pwm = number system (attribute "sys/class/hwmon" name "pwm1") (pos 0) (pos 255);
      rpm = number system (attribute "sys/class/hwmon" name "fan1_input") (pos 0) (pos 200000);
    } in
    if is_text "pwmfan" kind || is_text "pwm-fan" kind then fan ∷ rest else rest

pub record ThermalDetails : Type 0 where
  pub enumeration_complete : Bool
  pub zones : List Zone

pub record FanDetails : Type 0 where
  pub enumeration_complete : Bool
  pub cooling_devices : List Cooling
  pub hwmon : List HwmonFan
  pub control_available : Bool

unfoldable pub is_measured : Zone → Bool
is_measured z = is_yes z.cpu_or_soc && not (is_missing z.temp_mc)

unfoldable pub is_controlled : Cooling → Bool
is_controlled c = not (is_missing c.state) && not (is_missing c.max_state)

unfoldable pub thermal_of : Bool → List Zone → Check ThermalDetails
thermal_of complete found = record {
  status = if complete && any is_measured found then good else warning;
  details = record { enumeration_complete = complete; zones = found };
}

unfoldable pub fan_of : Bool → List Cooling → List HwmonFan → Check FanDetails
fan_of complete cooling fans = record {
  status = if complete && any is_controlled cooling then good else warning;
  details = record {
    enumeration_complete = complete;
    cooling_devices = cooling;
    hwmon = fans;
    control_available = any is_controlled cooling;
  };
}

unfoldable pub thermal_fan : System → Check ThermalDetails × Check FanDetails
thermal_fan system =
    let (names, thermal_complete) = entries system (codes "sys/class/thermal") is_thermal_name in
    let (monitors, hwmon_complete) =
      entries system (codes "sys/class/hwmon") (is_numbered "hwmon") in
    (
      thermal_of thermal_complete (zones system names),
      fan_of (thermal_complete && hwmon_complete) (coolings system names)
          (hwmon_fans system monitors),
    )

pub record Panel : Type 0 where
  pub size : Option (ℕ × ℕ)
  pub bits_per_pixel : Option ℤ

unfoldable pub panels : System → List Bytes → List Panel
panels system [] = []
panels system (name ∷ names) =
    let rest = panels system names in
    let panel : Panel = record {
      size =
          size_of
            (or_empty (text system small (attribute "sys/class/graphics" name "virtual_size")));
      bits_per_pixel =
          number system (attribute "sys/class/graphics" name "bits_per_pixel") (pos 1) (pos 64);
    } in
    if is_text "fb_nv3007" (text system small (attribute "sys/class/graphics" name "name"))
    then panel ∷ rest
    else rest

unfoldable pub is_size : Option (ℕ × ℕ) → Bool
is_size none = false
is_size (some (width, height)) = width == 428 && height == 142

unfoldable pub is_expected : Panel → Bool
is_expected p = is_size p.size && is_value 16 p.bits_per_pixel

pub record PanelDetails : Type 0 where
  pub enumeration_complete : Bool
  pub framebuffers : List Panel
  pub module_loaded : Option Bool
  pub config : Option Bytes

unfoldable pub nv3007 : System → Option Bytes → Option Bool → Check PanelDetails
nv3007 system config loaded =
    let (names, complete) = entries system (codes "sys/class/graphics") (is_numbered "fb") in
    let found = panels system names in
    record {
      status =
          if complete && not (length found == 0) && all is_expected found then good else warning;
      details = record {
        enumeration_complete = complete;
        framebuffers = found;
        module_loaded = loaded;
        config = config;
      };
    }

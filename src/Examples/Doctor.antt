-- ===== src/Examples/Doctor.antt =====
-- The checks of the doctor on a small system.
use edgepi_e87n.Base.{
  String, Bool, true, ◌||◌, List, [], ◌∷◌, ◌++◌, none, some, ◌≡◌, ◌↔◌, refl, any, all, ◌=ᵇ◌,
  if◌then◌else◌, Bytes, codes, split, lines,
}
use edgepi_e87n.Json.{pos}
use edgepi_e87n.Doctor.{good, Node, directory, regular, missing, link, System}
use edgepi_e87n.Doctor.Patterns.{is_numbered}
use edgepi_e87n.Doctor.Reader.{
  open_path, resolve, walk, target, normal, normalize, push, same_parts, is_kind, is_dir, entries,
}
use edgepi_e87n.Doctor.Reader.Listing.{IsListed, entries-IsListed}
use edgepi_e87n.Doctor.Identity.{or_empty}
use edgepi_e87n.Doctor.Storage.{Mount, root_status}
use edgepi_e87n.Doctor.Storage.Root.{IsSound, root_status_iff}
use edgepi_e87n.Doctor.Devices.{Interface, is_value, network_of}
use edgepi_e87n.Doctor.Devices.Network.{is_accounted, network_of_iff}
use edgepi_e87n.Doctor.Kernel.{settings_of, setting, symbols, config_key, containers, storage}
use edgepi_e87n.Doctor.Kernel.Symbols.{only_choice, assignments, settings_of-only_choice}
use edgepi_e87n.Doctor.Report.{all_checks, doctor}
use edgepi_e87n.Doctor.Report.Worst.{worst, code_of, doctor-worst}

-- sys/class/hwmon/hwmon0 is a link to sys/devices/fan, which has one attribute.
abbrev is_path : String → List Bytes → Bool
is_path path name = same_parts name (split b'/' (codes path))

abbrev node_of : List Bytes → Node
unfolding same_parts
node_of name =
    if is_path "sys/class/hwmon/hwmon0" name
    then link (codes "../../devices/fan")
    else if is_path "sys/devices/fan/pwm1" name
    then regular
    else if is_path "sys" name
        || is_path "sys/class" name
        || is_path "sys/class/hwmon" name
        || is_path "sys/devices" name
        || is_path "sys/devices/fan" name
    then directory
    else missing

abbrev board : System
board = record {
  has_root = true;
  root_parts = [];
  node = node_of;
  opened = node_of;
  chunks = λ name. some (codes "80" ∷ [] ∷ []);
  listing = λ name. some (codes "hwmon0" ∷ codes "power" ∷ []);
  gunzip = λ limit packed. none;
}

abbrev attribute : Bytes
attribute = codes "sys/class/hwmon/hwmon0/pwm1"

abbrev fan_path : List Bytes
fan_path = codes "sys" ∷ codes "devices" ∷ codes "fan" ∷ codes "pwm1" ∷ []

hwmon_opened :
    open_path board true (codes "sys/class/hwmon")
    ≡ some (codes "sys" ∷ codes "class" ∷ codes "hwmon" ∷ [])
unfolding open_path resolve walk target normal normalize push same_parts is_kind is_dir
hwmon_opened = refl

entries-IsListed_example :
    IsListed
      (is_numbered "hwmon")
      (codes "hwmon0" ∷ codes "power" ∷ [])
      (entries board (codes "sys/class/hwmon") (is_numbered "hwmon"))
entries-IsListed_example =
    entries-IsListed board (codes "sys/class/hwmon") (is_numbered "hwmon")
      (codes "sys" ∷ codes "class" ∷ codes "hwmon" ∷ []) (codes "hwmon0" ∷ codes "power" ∷ [])
      hwmon_opened refl

doctor-worst_example :
    ((doctor board).exit_code ≡ worst (all_checks board))
    × (code_of ((doctor board).status) ≡ (doctor board).exit_code)
doctor-worst_example = doctor-worst board

abbrev uplink : Interface
uplink = record {
  carrier = some (pos 1);
  operstate = some (codes "up");
  addr_assign_type = some (pos 0);
}

abbrev spare : Interface
spare = record { carrier = none; operstate = none; addr_assign_type = some (pos 0) }

network_of_iff_example : ((network_of true (uplink ∷ spare ∷ [])).status ≡ good) ↔ (
    (true ≡ true)
    × (any (λ i. is_value 1 (Interface.carrier i)) (uplink ∷ spare ∷ []) ≡ true)
    × (all is_accounted (uplink ∷ spare ∷ []) ≡ true))
network_of_iff_example = network_of_iff true (uplink ∷ spare ∷ [])

abbrev root : Mount
root = record {
  kind = codes "ext4";
  groups = (codes "rw" ∷ codes "noatime" ∷ []) ∷ (codes "rw" ∷ []) ∷ [];
}

root_status_iff_example : (root_status (some []) (root ∷ []) ≡ good) ↔ IsSound (some []) (root ∷ [])
root_status_iff_example = root_status_iff (some []) (root ∷ [])

abbrev config : Bytes
config = codes "CONFIG_VETH=m" ++ (10 ∷ codes "# CONFIG_BRIDGE is not set")

known : any (λ n. codes "CONFIG_VETH" =ᵇ config_key n) symbols ≡ true
unfolding symbols containers storage config_key
known = refl

settings_of-only_choice_example :
    setting (codes "CONFIG_VETH") (settings_of (some config))
    ≡ only_choice (assignments (codes "CONFIG_VETH") (lines (or_empty (some config))))
settings_of-only_choice_example = settings_of-only_choice (some config) (codes "CONFIG_VETH") known

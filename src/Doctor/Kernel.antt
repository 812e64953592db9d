-- ===== src/Doctor/Kernel.antt =====
-- `_kernel_features` of board-support/e87n/doctor.py: the kernel configuration, the loaded modules and two
-- groups of prerequisites.
pub mod Symbols
use edgepi_e87n.Base.{
  ℕ, suc, ◌+◌, Bool, true, false, not, ◌&&◌, ◌||◌, List, [], ◌∷◌, ◌++◌, Option, none, some, leb,
  ◌==◌, if◌then◌else◌, length, all, any, get_or, map, Bytes, ◌=ᵇ◌, bytes_elem, codes, lines, words,
  is_digit, String,
}
use edgepi_e87n.Doctor.{Status, good, unknown, warning, error, Check, System}
use edgepi_e87n.Doctor.Patterns.{config_line, is_module_name}
use edgepi_e87n.Doctor.Reader.{read, text, small, large, is_ascii, ◌>>=◌}
use edgepi_e87n.Doctor.Identity.{is_missing, or_empty}

unfoldable pub containers : List String
containers =
    "CGROUPS" ∷ "MEMCG" ∷ "CGROUP_PIDS" ∷ "NAMESPACES" ∷ "UTS_NS" ∷ "IPC_NS" ∷ "PID_NS" ∷ "NET_NS"
    ∷ "USER_NS" ∷ "SECCOMP" ∷ "SECCOMP_FILTER" ∷ "VETH" ∷ "BRIDGE" ∷ "BRIDGE_NETFILTER"
    ∷ "NF_TABLES" ∷ "NF_NAT" ∷ "OVERLAY_FS" ∷ []

unfoldable pub storage : List String
storage =
    "EXT4_FS" ∷ "MMC" ∷ "MMC_BLOCK" ∷ "MMC_MTK" ∷ "BLK_DEV_NVME" ∷ "SCSI" ∷ "BLK_DEV_SD"
    ∷ "USB_STORAGE" ∷ "USB_UAS" ∷ []

unfoldable pub symbols : List String
symbols =
    containers ++ (storage ++ ("BTRFS_FS" ∷ "FB_TFT" ∷ "FB_TFT_NV3007" ∷ "SENSORS_PWM_FAN" ∷ []))

unfoldable pub module_names : List String
module_names =
    "overlay" ∷ "bridge" ∷ "br_netfilter" ∷ "veth" ∷ "nf_tables" ∷ "nf_nat" ∷ "ext4" ∷ "btrfs"
    ∷ "nvme" ∷ "nvme_core" ∷ "mmc_block" ∷ "mmc_core" ∷ "usb_storage" ∷ "uas" ∷ "fb_nv3007"
    ∷ "fbtft" ∷ "pwm_fan" ∷ []

unfoldable pub config_key : String → Bytes
config_key symbol = codes "CONFIG_" ++ codes symbol

-- An entry of `states`, and whether its key is in `seen`.
pub record Setting : Type 0 where
  pub key : Bytes
  pub value : Option Bytes
  pub seen : Bool

-- value in ("y", "m", "n")
unfoldable pub is_choice : Bytes → Bool
is_choice value = value =ᵇ codes "y" || value =ᵇ codes "m" || value =ᵇ codes "n"

-- states[key] = value if key not in seen and value in ("y", "m", "n") else None; seen.add(key)
unfoldable pub assign : Bytes → Bytes → Setting → Setting
assign key value s =
    if key =ᵇ s.key
    then record s {
      value = if not s.seen && is_choice value then some value else none;
      seen = true;
    }
    else s

unfoldable pub set_line : Bytes → List Setting → List Setting
set_line line settings = elim (config_line line) [
  | none ↦ settings
  | some (key, value) ↦ map (assign key value) settings
]

unfoldable pub set_lines : List Bytes → List Setting → List Setting
set_lines [] settings = settings
set_lines (line ∷ rest) settings = set_lines rest (set_line line settings)

unfoldable pub blank : Bytes → Setting
blank key = record { key = key; value = none; seen = false }

unfoldable pub settings_of : Option Bytes → List Setting
settings_of config = set_lines (lines (or_empty config)) (map (λ s. blank (config_key s)) symbols)

unfoldable pub setting : Bytes → List Setting → Option Bytes
setting key [] = none
setting key (s ∷ settings) = if key =ᵇ s.key then s.value else setting key settings

-- The three places of a configuration.
pub data Source : Type 0 where
  compressed plain boot : Source

pub record Found : Type 0 where
  pub source : Source
  pub config : Option Bytes

-- data, if it is not too long and ASCII
unfoldable pub decoded : Option Bytes → Option Bytes
decoded none = none
decoded (some content) =
    if leb (length content) large && is_ascii content then some content else none

unfoldable pub boot_config : System → Option Bytes → Option Found
boot_config system none = none
boot_config system (some release) =
    read system large (codes "boot/config-" ++ release) >>= λ content.
    some record { source = boot; config = decoded (some content) }

-- the loop over the paths: the first file that can be read is taken
unfoldable pub find_config : System → Option Bytes → Option Found
find_config system release = elim (read system large (codes "proc/config.gz")) [
  | some content ↦
      some record { source = compressed; config = decoded (system.gunzip (large + 1) content) }
  | none ↦ elim (read system large (codes "proc/config")) [
    | some content ↦ some record { source = plain; config = decoded (some content) }
    | none ↦ boot_config system release
  ]
]

unfoldable pub config_in : Option Found → Option Bytes
config_in none = none
config_in (some found) = found.config

unfoldable pub is_boot : Source → Bool
is_boot boot = true
is_boot _ = false

unfoldable pub is_runtime : Option Found → Bool
is_runtime none = false
is_runtime (some found) = not (is_boot found.source)

pub record ConfigDetails : Type 0 where
  pub source : Option Source
  pub running_kernel_source : Option Bool
  pub readable : Bool

unfoldable pub source_of : Option Found → Option Source
source_of none = none
source_of (some found) = some found.source

unfoldable pub config_check : Option Found → List Setting → Check ConfigDetails
config_check found settings = record {
  status =
      if not (any (λ s. not (is_missing (Setting.value s))) settings)
      then unknown
      else if is_runtime found
      then good
      else warning;
  details = record {
    source = source_of found;
    running_kernel_source = if is_missing found then none else some (is_runtime found);
    readable = not (is_missing (config_in found));
  };
}

-- A line of proc/modules: the name, or none if the line is not valid.
unfoldable pub module_line : Bytes → Option Bytes
module_line line =
    let fields = words line in
    let size = get_or fields 1 [] in
    if leb 6 (length fields)
      && is_module_name (get_or fields 0 [])
      && (leb 1 (length size) && all is_digit size)
    then some (get_or fields 0 [])
    else none

-- the loop over the lines: whether all were valid, and the names
unfoldable pub module_lines : List Bytes → Bool × List Bytes
module_lines [] = (true, [])
module_lines (line ∷ rest) =
    let (valid, loaded) = module_lines rest in
    elim (module_line line) [ none ↦ (false, loaded) | some name ↦ (valid, name ∷ loaded) ]

unfoldable pub modules_valid : Option Bytes → Bool
modules_valid content = not (is_missing content) && (module_lines (lines (or_empty content))).0

-- modules[name]
unfoldable pub is_loaded : Option Bytes → String → Option Bool
is_loaded content name =
    if modules_valid content
    then some (bytes_elem (codes name) ((module_lines (lines (or_empty content))).1))
    else none

pub record ModuleState : Type 0 where
  pub name : String
  pub loaded : Option Bool

unfoldable pub module_check : Option Bytes → Check (List ModuleState)
module_check content = record {
  status = if modules_valid content then good else unknown;
  details = map (λ name. record { name = name; loaded = is_loaded content name }) module_names;
}

-- selected: the settings of a group of symbols
unfoldable pub selected : List Setting → List String → List (Option Bytes)
selected settings [] = []
selected settings (s ∷ group) = setting (config_key s) settings ∷ selected settings group

unfoldable pub is_disabled : Option Bytes → Bool
is_disabled none = false
is_disabled (some value) = value =ᵇ codes "n"

unfoldable pub group_status : Bool → List (Option Bytes) → Status
group_status runtime values =
    if any is_disabled values
    then warning
    else if any is_missing values
    then unknown
    else if runtime
    then good
    else warning

unfoldable pub group_check : Bool → List Setting → List String → Check (List (Option Bytes))
group_check runtime settings group = record {
  status = group_status runtime (selected settings group);
  details = selected settings group;
}

pub record Features : Type 0 where
  pub config : Check ConfigDetails
  pub modules : Check (List ModuleState)
  pub containers : Check (List (Option Bytes))
  pub storage : Check (List (Option Bytes))
  pub settings : List Setting
  pub panel_module : Option Bool

unfoldable pub kernel_features : System → Option Bytes → Features
kernel_features system release =
    let found = find_config system release in
    let settings = settings_of (config_in found) in
    let loaded = text system large (codes "proc/modules") in
    record {
      config = config_check found settings;
      modules = module_check loaded;
      containers = group_check (is_runtime found) settings containers;
      storage = group_check (is_runtime found) settings storage;
      settings = settings;
      panel_module = is_loaded loaded "fb_nv3007";
    }

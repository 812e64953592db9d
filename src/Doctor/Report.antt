-- ===== src/Doctor/Report.antt =====
-- `doctor` of board-support/e87n/doctor.py: the report over all checks.
pub mod Worst
use edgepi_e87n.Base.{
  ℕ, Bool, true, false, not, ◌&&◌, ◌||◌, List, [], ◌∷◌, Option, if◌then◌else◌, any, codes, String,
}
use edgepi_e87n.Doctor.{Status, good, unknown, warning, error, Check, System}
use edgepi_e87n.Doctor.Identity.{Identity, identity}
use edgepi_e87n.Doctor.Storage.{memory, root_filesystem, cmdline}
use edgepi_e87n.Doctor.Devices.{network, thermal_fan, nv3007}
use edgepi_e87n.Doctor.Kernel.{Features, kernel_features, setting, config_key}

-- A check of the report, by its name.
pub record Named : Type 0 where
  pub name : String
  pub status : Status

unfoldable pub is_error : Status → Bool
is_error error = true
is_error _ = false

-- status in ("warning", "unknown")
unfoldable pub is_warning : Status → Bool
is_warning warning = true
is_warning unknown = true
is_warning _ = false

unfoldable pub select : (Status → Bool) → List Named → List String
select test [] = []
select test (c ∷ checks) =
    let rest = select test checks in if test c.status then c.name ∷ rest else rest

unfoldable pub is_nonempty : List String → Bool
is_nonempty [] = false
is_nonempty (s ∷ ss) = true

pub record Report : Type 0 where
  pub status : Status
  pub exit_code : ℕ
  pub checks : List Named
  pub warnings : List String
  pub errors : List String

unfoldable pub report : List Named → Report
report checks =
    let warnings = select is_warning checks in
    let errors = select is_error checks in
    record {
      status = if is_nonempty errors then error else if is_nonempty warnings then warning else good;
      exit_code = if is_nonempty errors then 2 else if is_nonempty warnings then 1 else 0;
      checks = checks;
      warnings = warnings;
      errors = errors;
    }

unfoldable pub named : {D : Type 0} → String → Check D → Named
named name check = record { name = name; status = check.status }

unfoldable pub root_access : System → Named
root_access system = record {
  name = "root_access";
  status = if system.has_root then good else error;
}

unfoldable pub all_checks : System → List Named
all_checks system =
    let seen = identity system in
    let features = kernel_features system seen.release in
    let (thermal, fan) = thermal_fan system in
    root_access system
    ∷ named "os" seen.os
    ∷ named "kernel" seen.kernel
    ∷ named "device_tree" seen.device_tree
    ∷ named "memory" (memory system)
    ∷ named "root_filesystem" (root_filesystem system)
    ∷ named "cmdline" (cmdline system)
    ∷ named "network" (network system)
    ∷ named "thermal" thermal
    ∷ named "fan" fan
    ∷ named "nv3007" (
        nv3007 system (setting (config_key "FB_TFT_NV3007") features.settings)
          features.panel_module)
    ∷ named "kernel_config" features.config
    ∷ named "kernel_modules" features.modules
    ∷ named "containers" features.containers
    ∷ named "storage" features.storage
    ∷ []

unfoldable pub doctor : System → Report
doctor system = report (all_checks system)

-- ===== src/Doctor/Identity.antt =====
-- `_identity` of board-support/e87n/doctor.py: the distribution, the kernel release and the device tree.
use edgepi_e87n.Base.{
  Bool, true, false, not, ◌&&◌, ◌||◌, List, [], ◌∷◌, Option, none, some, if◌then◌else◌, Bytes, ◌=ᵇ◌,
  bytes_elem, ends_with, split, codes, lines, rstrip_nul,
}
use edgepi_e87n.Doctor.{Status, good, unknown, error, Check, System}
use edgepi_e87n.Doctor.Shlex.{shlex_split}
use edgepi_e87n.Doctor.Patterns.{is_version_13, release_version, partition_at, lower}
use edgepi_e87n.Doctor.Reader.{read, text, small}

-- An observation: `none` is what could not be observed.
unfoldable pub is_yes : Option Bool → Bool
is_yes none = false
is_yes (some b) = b

unfoldable pub is_no : Option Bool → Bool
is_no none = false
is_no (some b) = not b

unfoldable pub is_missing {ℓ} : {A : Type ℓ} → Option A → Bool
is_missing none = true
is_missing (some a) = false

-- values[key]: a key that comes twice has no value
pub record Entry : Type 0 where
  pub key : Bytes
  pub value : Option Bytes

unfoldable pub value_of : Bytes → List Entry → Option Bytes
value_of key [] = none
value_of key (e ∷ entries) = if key =ᵇ e.key then e.value else value_of key entries

-- values[key] = None if key in values else parsed
unfoldable pub store : Bytes → Option Bytes → List Entry → List Entry
store key parsed [] = record { key = key; value = parsed } ∷ []
store key parsed (e ∷ entries) =
    let rest = store key parsed entries in
    if key =ᵇ e.key then record e { value = none } ∷ entries else e ∷ rest

-- the value of a line: one word of the shell language
unfoldable pub only : Option (List Bytes) → Option Bytes
only (some (word ∷ [])) = some word
only _ = none

unfoldable pub os_keys : List Bytes
os_keys = codes "ID" ∷ codes "VERSION_ID" ∷ codes "VERSION_CODENAME" ∷ []

unfoldable pub read_line : Bytes → List Entry → List Entry
read_line line entries = elim (partition_at b'=' line) [
  | none ↦ entries
  | some (key, value) ↦
      if bytes_elem key os_keys then store key (only (shlex_split true value)) entries else entries
]

unfoldable pub os_values : List Bytes → List Entry → List Entry
os_values [] entries = entries
os_values (line ∷ rest) entries = os_values rest (read_line line entries)

-- None if value is None else test(value)
unfoldable pub observe : (Bytes → Bool) → Option Bytes → Option Bool
observe test none = none
observe test (some value) = some (test value)

pub record OsDetails : Type 0 where
  pub source : Option Bytes
  pub debian : Option Bool
  pub version_13 : Option Bool
  pub trixie : Option Bool

unfoldable pub or_empty : Option Bytes → Bytes
or_empty none = []
or_empty (some text) = text

unfoldable pub os_status : OsDetails → Status
os_status d =
    if is_no d.debian || is_no d.version_13 || is_no d.trixie
    then error
    else if is_yes d.debian && is_yes d.version_13
    then good
    else unknown

unfoldable pub os_details : Option Bytes → Option Bytes → OsDetails
os_details source content =
    let values = os_values (lines (or_empty content)) [] in
    record {
      source = source;
      debian = observe (λ v. v =ᵇ codes "debian") (value_of (codes "ID") values);
      version_13 = observe is_version_13 (value_of (codes "VERSION_ID") values);
      trixie = observe (λ v. v =ᵇ codes "trixie") (value_of (codes "VERSION_CODENAME") values);
    }

unfoldable pub check_os : Option Bytes → Option Bytes → Check OsDetails
check_os etc usr = elim etc [
  | some content ↦
      let details = os_details (some (codes "/etc/os-release")) (some content) in
      record { status = os_status details; details = details }
  | none ↦
      let source : Option Bytes =
        if is_missing usr then none else some (codes "/usr/lib/os-release") in
      let details = os_details source usr in
      record { status = os_status details; details = details }
]

pub record KernelDetails : Type 0 where
  pub version : Option Bytes

unfoldable pub pinned_version : Bytes
pinned_version = codes "6.18.52"

unfoldable pub kernel_status : Option Bytes → Status
kernel_status none = unknown
kernel_status (some version) = if version =ᵇ pinned_version then good else error

unfoldable pub check_kernel : Option Bytes → Check KernelDetails
check_kernel release =
    let version = release_version (or_empty release) in
    record { status = kernel_status version; details = record { version = version } }

pub record TreeDetails : Type 0 where
  pub model_matches : Option Bool
  pub compatible_matches : Option Bool

-- None if not text or not text.endswith(b"\0") else test(text)
unfoldable pub observe_text : (Bytes → Bool) → Option Bytes → Option Bool
observe_text test none = none
observe_text test (some value) = if ends_with 0 value then some (test value) else none

unfoldable pub tree_status : TreeDetails → Status
tree_status d =
    if is_no d.model_matches || is_no d.compatible_matches
    then error
    else if is_yes d.model_matches && is_yes d.compatible_matches
    then good
    else unknown

unfoldable pub check_tree : Option Bytes → Option Bytes → Check TreeDetails
check_tree model compatible =
    let details : TreeDetails = record {
      model_matches = observe_text (λ v. lower (rstrip_nul v) =ᵇ codes "edgepi e87n") model;
      compatible_matches =
          observe_text (λ v. bytes_elem (codes "edgepi,e87n") (split 0 v)) compatible;
    } in
    record { status = tree_status details; details = details }

-- _identity: the three checks, and the kernel release if it was understood
pub record Identity : Type 0 where
  pub os : Check OsDetails
  pub kernel : Check KernelDetails
  pub device_tree : Check TreeDetails
  pub release : Option Bytes

unfoldable pub identity : System → Identity
identity system =
    let release = text system small (codes "proc/sys/kernel/osrelease") in
    record {
      os =
          check_os (text system small (codes "etc/os-release"))
            (text system small (codes "usr/lib/os-release"));
      kernel = check_kernel release;
      device_tree =
          check_tree (read system small (codes "sys/firmware/devicetree/base/model"))
            (read system small (codes "sys/firmware/devicetree/base/compatible"));
      release = if is_missing (release_version (or_empty release)) then none else release;
    }

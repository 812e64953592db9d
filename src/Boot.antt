-- ===== src/Boot.antt =====
-- board-support/factory-boot/factory_boot.py: the checks of the running board and the two actions,
-- growing the root file system and reading the factory MAC addresses.
pub mod Layout
pub mod Live
pub mod Resize
pub mod Macs
pub mod Network
pub mod Setup
use edgepi_e87n.Base.{
  ℕ, ◌+◌, ◌-◌, ◌*◌, ◌/◌, ◌%◌, ◌^◌, String, Bool, true, false, not, ◌&&◌, ◌||◌, List, [], ◌∷◌, ◌++◌,
  Option, none, some, ltb, leb, ◌==◌, ◌≈◌, if◌then◌else◌, elem, length, all, get_elem?, is_digit,
  Bytes, ◌=ᵇ◌, bytes_elem, codes, slice, rstrip_nul, split, le_at, Result, ok, err, ◌>>=◌, ◌>>◌,
  require, or_raise,
}

-- `ValueError` by the check that raises it; `missing_key` and `index_error` are Python's own, and
-- `os_error` stands for an `OSError` or a failed command.
pub data BootError : Type 0 where
  wrong_machine wrong_model not_emmc wrong_parts wrong_geometry wrong_parent bad_identity :
      BootError
  duplicate_devices small_disk ambiguous_root wrong_root missing_key index_error os_error :
      BootError
  not_supported wrong_device not_ext4 wrong_block_size wrong_blocks changed not_filled : BootError
  short_read bad_mac same_macs : BootError
  two_macs bad_structure continued bad_directive bad_match mac_override not_dhcp bad_address :
      BootError
  wrong_alias interface_up no_base dropins redirected unmanaged : BootError

-- A line of LAYOUT: the label, and the sectors.
pub record Entry : Type 0 where
  pub number : ℕ
  pub label : String
  pub start : ℕ
  pub size : ℕ

abbrev entry : ℕ → String → ℕ → ℕ → Entry
entry number label start size = record {
  number = number;
  label = label;
  start = start;
  size = size;
}

abbrev pub layout : List Entry
layout =
    entry 1 "u-boot-env" 8192 1024
    ∷ entry 2 "factory" 9216 8192
    ∷ entry 3 "fip" 17408 4096
    ∷ entry 4 "kernel" 21504 65536
    ∷ entry 5 "rootfs" 87040 15181791
    ∷ []

pub record Part : Type 0 where
  pub number : ℕ
  pub name : Option String
  pub start : ℕ
  pub size : ℕ
  pub dev : Bytes
  pub parent_ok : Bool

-- An item of the dictionary `parts`.
pub record Slot : Type 0 where
  pub key : ℕ
  pub part : Part

pub record Mount : Type 0 where
  pub dev : Bytes
  pub root : String
  pub mount : String
  pub options : List String
  pub kind : String
  pub source : String

pub record Snapshot : Type 0 where
  pub machine : String
  pub uid : ℕ
  pub model : Bytes
  pub compatible : Bytes
  pub removable : ℕ
  pub card_type : String
  pub sectors : ℕ
  pub parts : List Slot
  pub mounts : List Mount

-- snapshot["parts"].get(number)
unfoldable pub part_at : ℕ → List Slot → Option Part
part_at number [] = none
part_at number (s ∷ slots) = if s.key == number then some s.part else part_at number slots

unfoldable pub has_entry : ℕ → List Entry → Bool
has_entry number [] = false
has_entry number (e ∷ entries) = e.number == number || has_entry number entries

unfoldable pub is_present : ℕ → List Slot → Bool
is_present number [] = false
is_present number (s ∷ slots) = s.key == number || is_present number slots

-- set(snapshot["parts"]) == set(LAYOUT)
unfoldable pub same_numbers : List Slot → List Entry → Bool
unfolding has_entry is_present
same_numbers slots entries =
    all (λ (s : Slot). has_entry s.key entries) slots
    && all (λ (e : Entry). is_present e.number slots) entries

-- re.fullmatch(r"\d+:\d+", dev)
abbrev is_number : Bytes → Bool
is_number text = leb 1 (length text) && all is_digit text

abbrev two_numbers : List Bytes → Bool
two_numbers (major ∷ minor ∷ []) = is_number major && is_number minor
two_numbers _ = false

unfoldable pub is_device : Bytes → Bool
is_device dev = two_numbers (split b':' dev)

abbrev pub has_label : Option String → String → Bool
has_label none label = false
has_label (some name) label = name ≈ label

unfoldable pub check_part : Entry → Part → Result BootError (Unit {0})
check_part e p = do
  require (has_label p.name e.label && p.start == e.start && p.size == e.size) wrong_geometry
  require (p.parent_ok && p.number == e.number) wrong_parent
  require (is_device p.dev) bad_identity

-- The loop over LAYOUT; it returns `devices`.
unfoldable pub check_parts : List Entry → List Slot → Result BootError (List Bytes)
check_parts [] slots = ok []
check_parts (e ∷ entries) slots = do
  p ← or_raise (part_at e.number slots) missing_key
  check_part e p
  devices ← check_parts entries slots
  ok (p.dev ∷ devices)

-- set(devices)
unfoldable pub unique : List Bytes → List Bytes
unique [] = []
unique (d ∷ ds) = if bytes_elem d ds then unique ds else d ∷ unique ds

unfoldable pub roots : List Mount → List Mount
roots [] = []
roots (m ∷ mounts) = if m.mount ≈ "/" then m ∷ roots mounts else roots mounts

unfoldable pub check_board : Snapshot → Result BootError (Unit {0})
check_board s = do
  require (s.machine ≈ "aarch64" && s.uid == 0) wrong_machine
  require
      (s.model =ᵇ (codes "EdgePi E87N" ++ 0 ∷ [])
        && bytes_elem (codes "edgepi,e87n") (split 0 (rstrip_nul s.compatible)))
      wrong_model
  require (s.removable == 0 && s.card_type ≈ "MMC") not_emmc

-- len(roots) == 1 and the conditions on roots[0]
unfoldable pub check_root : Bool → Bytes → List Mount → Result BootError (Unit {0})
check_root writable dev (root ∷ []) =
    require
      (root.root ≈ "/"
        && root.kind ≈ "ext4"
        && root.source ≈ "/dev/mmcblk0p5"
        && root.dev =ᵇ dev
        && (not writable || elem "rw" root.options))
      wrong_root
check_root writable dev _ = err ambiguous_root

unfoldable pub validate_live : Snapshot → Bool → Result BootError (Unit {0})
validate_live s writable = do
  check_board s
  require (same_numbers s.parts layout) wrong_parts
  devices ← check_parts layout s.parts
  require (length (unique devices) == 5) duplicate_devices
  require (leb (87040 + 15181791 + 33) s.sectors) small_disk
  dev ← or_raise (get_elem? devices 4) index_error
  check_root writable dev (roots s.mounts)

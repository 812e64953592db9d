-- ===== src/Initramfs/Listing.antt =====
-- The three texts that `verify` of scripts/verify-initramfs.py reads: the kernel configuration, the listing
-- of the initramfs, and modules.dep. Their lines end as in ASCII text.
use edgepi_e87n.Base.{
  ◌+◌, ◌-◌, Bool, true, false, not, ◌&&◌, ◌||◌, List, [], ◌∷◌, ◌++◌, Option, none, some, leb, ltb,
  ◌==◌, if◌then◌else◌, length, take, drop, all, any, Bytes, ◌=ᵇ◌, bytes_elem, starts_with, split,
  codes, is_digit, Result, ok, err, ◌>>=◌, ◌>>◌, require, String, find_byte, words,
}
use edgepi_e87n.Initramfs.{
  InitramfsError, malformed_line, duplicate_config, bad_driver, modular_prerequisite, wrong_release,
  duplicate_module, malformed_dep, duplicate_dep, safe_path, module_key,
}
use edgepi_e87n.Initramfs.Search.{Needs, deps_of}

-- options[key] = value
pub record Setting : Type 0 where
  pub key : Bytes
  pub value : Bytes

unfoldable pub value_of : Bytes → List Setting → Option Bytes
value_of key [] = none
value_of key (s ∷ settings) = if key =ᵇ s.key then some s.value else value_of key settings

unfoldable pub is_word : Bytes → Bool
is_word text =
    leb 1 (length text)
    && all (λ c. is_digit c || (leb 65 c && leb c 90) || (leb 97 c && leb c 122) || c == b'_') text

-- CONFIG_([A-Za-z0-9_]+)=(.*)
unfoldable pub set_line : Bytes → Option Setting
set_line line = elim (find_byte b'=' line) [
  | none ↦ none
  | some i ↦
      if starts_with (codes "CONFIG_") line && is_word (drop 7 (take i line))
      then some record { key = drop 7 (take i line); value = drop (i + 1) line }
      else none
]

-- # CONFIG_([A-Za-z0-9_]+) is not set
unfoldable pub unset_line : Bytes → Option Setting
unset_line line =
    let name = take (length line - 20) (drop 9 line) in
    if starts_with (codes "# CONFIG_") line
      && leb 20 (length line)
      && drop (length line - 11) line =ᵇ codes " is not set"
      && is_word name
    then some record { key = name; value = codes "n" }
    else none

unfoldable pub setting_line : Bytes → Option Setting
setting_line line = elim (set_line line) [ none ↦ unset_line line | some s ↦ some s ]

-- one line of the configuration
unfoldable pub add_line : Bytes → List Setting → Result InitramfsError (List Setting)
add_line line options = elim (setting_line line) [
  | some s ↦ elim (value_of s.key options) [
    | none ↦ ok (s ∷ options)
    | some v ↦ err duplicate_config
  ]
  | none ↦
      if not (line =ᵇ []) && not (starts_with (codes "#") line)
      then err malformed_line
      else ok options
]

unfoldable pub read_options : List Bytes → List Setting → Result InitramfsError (List Setting)
read_options [] options = ok options
read_options (line ∷ rest) options = do more ← add_line line options; read_options rest more

pub record Driver : Type 0 where
  pub symbol : Bytes
  pub path : Bytes

abbrev driver : String → String → Driver
driver symbol path = record { symbol = codes symbol; path = codes path }

unfoldable pub drivers : List Driver
drivers =
    driver "USB_COMMON" "drivers/usb/common/usb-common"
    ∷ driver "USB" "drivers/usb/core/usbcore"
    ∷ driver "USB_XHCI_HCD" "drivers/usb/host/xhci-hcd"
    ∷ driver "USB_XHCI_MTK" "drivers/usb/host/xhci-mtk-hcd"
    ∷ driver "USB_STORAGE" "drivers/usb/storage/usb-storage"
    ∷ driver "USB_UAS" "drivers/usb/storage/uas"
    ∷ driver "SCSI_COMMON" "drivers/scsi/scsi_common"
    ∷ driver "SCSI" "drivers/scsi/scsi_mod"
    ∷ driver "BLK_DEV_SD" "drivers/scsi/sd_mod"
    ∷ driver "PHY_MTK_TPHY" "drivers/phy/mediatek/phy-mtk-tphy"
    ∷ []

-- A symbol, and one that it needs.
pub record Prerequisite : Type 0 where
  pub symbol : Bytes
  pub dependency : Bytes

abbrev needs : String → String → Prerequisite
needs symbol dependency = record { symbol = codes symbol; dependency = codes dependency }

unfoldable pub prerequisites : List Prerequisite
prerequisites =
    needs "USB" "USB_COMMON"
    ∷ needs "USB_XHCI_HCD" "USB"
    ∷ needs "USB_XHCI_MTK" "USB_XHCI_HCD"
    ∷ needs "SCSI" "SCSI_COMMON"
    ∷ needs "BLK_DEV_SD" "SCSI"
    ∷ needs "USB_STORAGE" "USB"
    ∷ needs "USB_STORAGE" "SCSI"
    ∷ needs "USB_UAS" "USB_STORAGE"
    ∷ needs "USB_UAS" "USB"
    ∷ needs "USB_UAS" "SCSI"
    ∷ []

unfoldable pub is_set : String → Bytes → List Setting → Bool
is_set value symbol options = elim (value_of symbol options) [
  | none ↦ false
  | some v ↦ v =ᵇ codes value
]

unfoldable pub check_drivers : List Setting → Result InitramfsError (Unit {0})
check_drivers options = do
  require
      (all (λ d. is_set "y" (Driver.symbol d) options || is_set "m" (Driver.symbol d) options)
        drivers)
      bad_driver
  require
      (all
        (λ p. not (
          is_set "y" (Prerequisite.symbol p) options
          && is_set "m" (Prerequisite.dependency p) options))
        prerequisites)
      modular_prerequisite

-- {"kernel/" + path + ".ko" for symbol, path in DRIVERS.items() if options[symbol] == "m"}
unfoldable pub requested : List Setting → List Driver → List Bytes
requested options [] = []
requested options (d ∷ rest) =
    let others = requested options rest in
    if is_set "m" d.symbol options
    then (codes "kernel/" ++ (d.path ++ codes ".ko")) ∷ others
    else others

-- .+\.ko(?:\.[^/]+)?, with something in front
unfoldable pub is_ko_end : Bytes → Bool
is_ko_end text =
    text =ᵇ codes ".ko"
    || (starts_with (codes ".ko.") text
        && ltb 4 (length text)
        && not (any (λ c. c == b'/') (drop 4 text)))

unfoldable pub has_ko_end : Bytes → Bool
has_ko_end [] = false
has_ko_end (c ∷ cs) = is_ko_end cs || has_ko_end cs

-- lib/modules/([^/]+)/(.+\.ko(?:\.[^/]+)?): the release and the path of the module
unfoldable pub module_path : Bytes → Option (Bytes × Bytes)
module_path name =
    let inner = drop 12 name in
    elim (find_byte b'/' inner) [
      | none ↦ none
      | some i ↦
          if starts_with (codes "lib/modules/") name && leb 1 i && has_ko_end (drop (i + 1) inner)
          then some (take i inner, drop (i + 1) inner)
          else none
    ]

pub record Listed : Type 0 where
  pub names : List Bytes
  pub modules : List Bytes

-- the module of a name of the listing
unfoldable pub add_module : Bytes → Listed → Option (Bytes × Bytes) → Result InitramfsError Listed
add_module release l none = ok l
add_module release l (some (found, path)) = do
  require (found =ᵇ release) wrong_release
  key ← module_key path
  require (not (bytes_elem key l.modules)) duplicate_module
  ok record l { modules = key ∷ l.modules }

-- name[4:] if name.startswith("usr/lib/") else name
unfoldable pub without_usr : Bytes → Bytes
without_usr name = if starts_with (codes "usr/lib/") name then drop 4 name else name

unfoldable pub is_root_line : Bytes → Bool
is_root_line line = line =ᵇ codes "." || line =ᵇ codes "./" || line =ᵇ codes "/"

unfoldable pub add_name : Bytes → Bytes → Listed → Result InitramfsError Listed
add_name release line l =
    let added = (do
      path ← safe_path line
      add_module release record l { names = without_usr path ∷ l.names }
          (module_path (without_usr path))) in
    if is_root_line line then ok l else added

unfoldable pub read_listing : Bytes → List Bytes → Listed → Result InitramfsError Listed
read_listing release [] l = ok l
read_listing release (line ∷ rest) l = do
  more ← add_name release line l
  read_listing release rest more

unfoldable pub keys_of : List Bytes → Result InitramfsError (List Bytes)
keys_of [] = ok []
keys_of (name ∷ names) = do key ← module_key name; keys ← keys_of names; ok (key ∷ keys)

-- a line of modules.dep: the part in front of its one colon and the part behind it
unfoldable pub dep_parts : List Bytes → Result InitramfsError (Bytes × Bytes)
dep_parts (name ∷ dependencies ∷ []) = ok (name, dependencies)
dep_parts _ = err malformed_dep

unfoldable pub add_dep : Bytes → List Needs → Result InitramfsError (List Needs)
add_dep line graph = do
  parts ← dep_parts (split b':' line)
  key ← module_key (parts.0)
  require (elim (deps_of key graph) [ none ↦ true | some deps ↦ false ]) duplicate_dep
  deps ← keys_of (words (parts.1))
  ok (record { name = key; deps = deps } ∷ graph)

unfoldable pub read_deps : List Bytes → List Needs → Result InitramfsError (List Needs)
read_deps [] graph = ok graph
read_deps (line ∷ rest) graph = do more ← add_dep line graph; read_deps rest more

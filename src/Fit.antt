-- ===== src/Fit.antt =====
-- `check_fit` and `bootargs` of scripts/factory_firmware.py: the audit of the kernel payload of a
-- firmware archive. SHA-256 and the LZMA decoder are arguments.
pub mod Kernel
pub mod Tree
pub mod Audit
use edgepi_e87n.Base.{
  ℕ, ◌+◌, ◌-◌, ◌*◌, ◌/◌, ◌%◌, String, Bool, true, false, not, ◌&&◌, ◌||◌, List, [], ◌∷◌, ◌++◌,
  Option, none, some, ltb, leb, ◌==◌, if◌then◌else◌, get_or, get_elem?, length, all, drop, Bytes,
  ◌=ᵇ◌, bytes_elem, codes, slice, starts_with, split, any_nonzero, be32, be32_at, Result, ok, err,
  ◌>>=◌, ◌>>◌, require, or_raise,
}
use edgepi_e87n.Fdt.{FdtError, Key, Property, same_key, fdt}

-- `ValueError` by the check that raises it.
pub data FitError : Type 0 where
  bad_size bad_reserve extra_configurations extra_loadables extra_images external_data : FitError
  wrong_default wrong_reference wrong_property wrong_load wrong_os external_property : FitError
  wrong_hash wrong_entry lzma_properties kernel_overlap bad_lzma not_arm64 bad_offset : FitError
  bad_memory_size ramdisk_overlap nested_uinitrd fdt_overlap wrong_board wrong_ram : FitError
  missing_reservation lacks_no_map not_ascii wrong_root incomplete_args unexpected_args : FitError
  decoder_error index_error : FitError
  fdt_error : FdtError → FitError

-- What `lzma.LZMADecompressor` leaves behind one call of `decompress`.
pub record Decoded : Type 0 where
  pub eof : Bool
  pub unused : Bytes
  pub raw : Bytes

-- hashlib.sha256(data).digest(), and decompress(data, max_length) or LZMAError
pub record Codecs : Type 0 where
  pub sha256 : Bytes → Bytes
  pub decompress : Bytes → ℕ → Option Decoded

abbrev pub from_fdt {ℓ} : {A : Type ℓ} → Result FdtError A → Result FitError A
from_fdt (ok a) = ok a
from_fdt (err e) = err (fdt_error e)

-- props.get((node, name))
unfoldable pub value_at : Bytes → Bytes → List Property → Option Bytes
value_at node name [] = none
value_at node name (p ∷ ps) =
    if same_key (record { node = node; name = name }) p.key
    then some p.value
    else value_at node name ps

abbrev pub holds : Option Bytes → Bytes → Bool
holds none value = false
holds (some found) value = found =ᵇ value

abbrev pub is_value : Bytes → String → Bytes → List Property → Bool
is_value node name value props = holds (value_at node (codes name) props) value

abbrev nul : Bytes → Bytes
nul text = text ++ 0 ∷ []

abbrev pub nul_text : String → Bytes
nul_text text = nul (codes text)

-- {node for node, _ in props if node.startswith(prefix)}
unfoldable pub nodes_under : Bytes → List Property → List Bytes
nodes_under prefix [] = []
nodes_under prefix (p ∷ ps) =
    if starts_with prefix p.key.node
    then p.key.node ∷ nodes_under prefix ps
    else nodes_under prefix ps

-- {key for node, key in props if node == wanted}
unfoldable pub names_of : Bytes → List Property → List Bytes
names_of wanted [] = []
names_of wanted (p ∷ ps) =
    if p.key.node =ᵇ wanted then p.key.name ∷ names_of wanted ps else names_of wanted ps

abbrev pub subset_of : List Bytes → List Bytes → Bool
subset_of xs ys = all (λ x. bytes_elem x ys) xs

-- node.split("/")[2] of each node
unfoldable pub third_parts : List Bytes → List Bytes
third_parts [] = []
third_parts (node ∷ nodes) = get_or (split b'/' node) 2 [] ∷ third_parts nodes

abbrev pub images : List Bytes
images = codes "kernel-1" ∷ codes "ramdisk-1" ∷ codes "fdt-1" ∷ []

-- The FIT as a container: no second configuration, no further image, nothing outside of it.
unfoldable pub check_container : Bytes → List Property → Result FitError (Unit {0})
check_container data' props = do
  let reserve = be32_at data' 16
  let structure = be32_at data' 8
  require
      (leb 40 reserve
        && reserve % 8 == 0
        && leb (reserve + 16) structure
        && not (any_nonzero (slice reserve structure data')))
      bad_reserve
  let configurations = nodes_under (codes "/configurations/") props
  let conf = codes "/configurations/conf-1"
  require (subset_of configurations (conf ∷ []) && bytes_elem conf configurations)
      extra_configurations
  require
      (subset_of (names_of conf props)
        (codes "description" ∷ codes "kernel" ∷ codes "ramdisk" ∷ codes "fdt" ∷ []))
      extra_loadables
  let found = third_parts (nodes_under (codes "/images/") props)
  require (subset_of found images && subset_of images found) extra_images
  require (not (any_nonzero (drop (be32_at data' 4) data'))) external_data
  require (is_value (codes "/configurations") "default" (nul_text "conf-1") props) wrong_default

-- A row of the loop over the payloads.
pub record Image : Type 0 where
  pub name : String
  pub kind : String
  pub compression : String
  pub load : ℕ
  pub has_os : Bool

abbrev pub node_of : Image → Bytes
node_of i = codes "/images/" ++ codes i.name ++ codes "-1"

unfoldable pub no_external : Bytes → List Property → Bool
no_external node props =
    none_at (value_at node (codes "data-offset") props)
    && none_at (value_at node (codes "data-position") props)
    && none_at (value_at node (codes "data-size") props)
  where
    none_at : Option Bytes → Bool
    none_at none = true
    none_at (some value) = false

-- One round of that loop; it returns the payload.
unfoldable pub check_image : Codecs → Image → List Property → Result FitError Bytes
check_image c i props = do
  let node = node_of i
  require
      (is_value (codes "/configurations/conf-1") i.name (nul (codes i.name ++ codes "-1")) props)
      wrong_reference
  require
      (is_value node "type" (nul_text i.kind) props
        && is_value node "arch" (nul_text "arm64") props
        && is_value node "compression" (nul_text i.compression) props)
      wrong_property
  require (is_value node "load" (be32 i.load) props) wrong_load
  require (not i.has_os || is_value node "os" (nul_text "linux") props) wrong_os
  require (no_external node props) external_property
  payload ← or_raise (value_at node (codes "data") props) wrong_hash
  let hash = node ++ codes "/hash-1"
  require
      (not (payload =ᵇ [])
        && is_value hash "algo" (nul_text "sha256") props
        && is_value hash "value" (c.sha256 payload) props)
      wrong_hash
  ok payload

abbrev pub kernel_load : ℕ
kernel_load = 0x40000000

abbrev pub ramdisk_load : ℕ
ramdisk_load = 0x44000000

abbrev pub fdt_load : ℕ
fdt_load = 0x45e00000

abbrev pub kernel_image : Image
kernel_image = record {
  name = "kernel";
  kind = "kernel";
  compression = "lzma";
  load = kernel_load;
  has_os = true;
}

abbrev pub ramdisk_image : Image
ramdisk_image = record {
  name = "ramdisk";
  kind = "ramdisk";
  compression = "none";
  load = ramdisk_load;
  has_os = true;
}

abbrev pub fdt_image : Image
fdt_image = record {
  name = "fdt";
  kind = "flat_dt";
  compression = "none";
  load = fdt_load;
  has_os = false;
}

-- ===== src/Fit/Audit.antt =====
-- `check_fit` as a whole.
pub mod Memory
pub mod Provenance
use edgepi_e87n.Base.{
  ℕ, ◌+◌, ◌-◌, ◌*◌, ◌%◌, ◌≤◌, ◌<◌, ◌≡◌, refl, Bool, true, false, not, ◌&&◌, List, [], ◌∷◌, ltb, leb,
  ◌==◌, length, arith, Bytes, ◌=ᵇ◌, starts_with, be32, Result, ok, err, ◌>>=◌, ◌>>◌, require,
  bind-eq-ok,
}
use edgepi_e87n.Fdt.{Property, fdt}
use edgepi_e87n.Fit.{
  FitError, bad_size, wrong_entry, ramdisk_overlap, nested_uinitrd, fdt_overlap, Codecs, from_fdt,
  is_value, node_of, Image, kernel_image, ramdisk_image, fdt_image, kernel_load, ramdisk_load,
  fdt_load, holds, value_at, check_container, check_image,
}
use edgepi_e87n.Fit.Kernel.{memory_size, check_kernel}
use edgepi_e87n.Fit.Tree.{check_tree}

pub record Payloads : Type 0 where
  pub kernel : Bytes
  pub ramdisk : Bytes
  pub fdt : Bytes

unfoldable pub check_images : Codecs → List Property → Result FitError Payloads
check_images c props = do
  kernel ← check_image c kernel_image props
  ramdisk ← check_image c ramdisk_image props
  tree ← check_image c fdt_image props
  ok (record { kernel = kernel; ramdisk = ramdisk; fdt = tree })

unfoldable pub check_sizes : Payloads → Result FitError (Unit {0})
check_sizes p = do
  require (ltb (length p.ramdisk) (fdt_load - ramdisk_load)) ramdisk_overlap
  require (not (starts_with (0x27 ∷ 0x05 ∷ 0x19 ∷ 0x56 ∷ []) p.ramdisk)) nested_uinitrd
  require (ltb (length p.fdt) (0x46000000 - fdt_load)) fdt_overlap

unfoldable pub check_fit : Codecs → Bytes → Bytes → Result FitError Payloads
check_fit c data' root_uuid = do
  require (ltb 0 (length data') && leb (length data') (32 * 1024 * 1024) && length data' % 512 == 0)
      bad_size
  props ← from_fdt (fdt data')
  check_container data' props
  payloads ← check_images c props
  require (is_value (node_of kernel_image) "entry" (be32 kernel_load) props) wrong_entry
  raw ← check_kernel c payloads.kernel
  check_sizes payloads
  dt ← from_fdt (fdt payloads.fdt)
  check_tree root_uuid dt
  ok payloads

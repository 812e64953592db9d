-- ===== src/Fit/Kernel/Window.antt =====
-- The kernel that `check_fit` accepts and the memory below the loader.
use edgepi_e87n.Base.{◌+◌, ◌≤◌, ◌≡◌, subst, length, arith, Bytes, ok, bind-eq-ok}
use edgepi_e87n.Fit.{Codecs, kernel_load}
use edgepi_e87n.Fit.Kernel.{memory_size, text_offset, unpack_kernel, check_header, check_kernel}

-- The unpacked image and the memory that it announces for itself end below the loader.
pub record InWindow (raw : Bytes) : Type 0 where
  pub image : length raw ≤ memory_size raw
  pub memory : kernel_load + memory_size raw ≤ 0x41e00000
  pub offset : text_offset raw ≡ 0

check_header-InWindow : (raw : Bytes) → check_header raw ≡ ok tt → InWindow raw
unfolding check_header
check_header-InWindow raw h = record {
  image = ground arith;
  memory = ground arith;
  offset = ground arith;
}

pub check_kernel-InWindow :
    (c : Codecs) (packed : Bytes) {raw : Bytes} → check_kernel c packed ≡ ok raw → InWindow raw
unfolding check_kernel
check_kernel-InWindow c packed {raw} h =
    let (found, unpacked, rest) = bind-eq-ok (unpack_kernel c packed) _ h in
    let (_, passed, same) = bind-eq-ok (check_header found) _ rest in
    let equal : found ≡ raw = ground (arith, same) in
    subst InWindow equal (check_header-InWindow found passed)

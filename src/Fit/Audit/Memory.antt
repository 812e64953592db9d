-- ===== src/Fit/Audit/Memory.antt =====
-- The steps of `check_fit`, and the memory of the board at boot.
use edgepi_e87n.Base.{
  words, ◌+◌, ◌*◌, ◌%◌, ◌≤◌, ◌<◌, ◌≡◌, refl, subst, true, ◌&&◌, List, [], ◌∷◌, ltb, leb, ◌==◌,
  length, arith, Bytes, =ᵇ-eq, be32, ok, require, bind-eq-ok,
}
use edgepi_e87n.Fdt.{Property, fdt}
use edgepi_e87n.Fit.{
  bad_size, wrong_entry, Codecs, from_fdt, is_value, node_of, kernel_image, kernel_load,
  ramdisk_load, fdt_load, check_container,
}
use edgepi_e87n.Fit.Kernel.{memory_size, check_kernel}
use edgepi_e87n.Fit.Kernel.Window.{check_kernel-InWindow}
use edgepi_e87n.Fit.Tree.{bootargs, same_words, check_args, check_tree}
use edgepi_e87n.Fit.Audit.{Payloads, check_images, check_sizes, check_fit}

-- The steps of the audit, each with what it returned.
pub record Steps (c : Codecs) (data' root_uuid : Bytes) (p : Payloads) : Type 0 where
  pub props : List Property
  pub parsed : from_fdt (fdt data') ≡ ok props
  pub container : check_container data' props ≡ ok tt
  pub images : check_images c props ≡ ok p
  pub raw : Bytes
  pub kernel : check_kernel c p.kernel ≡ ok raw
  pub sizes : check_sizes p ≡ ok tt
  pub dt : List Property
  pub tree_parsed : from_fdt (fdt p.fdt) ≡ ok dt
  pub tree : check_tree root_uuid dt ≡ ok tt

pub check_fit-Steps :
    (c : Codecs) (data' root_uuid : Bytes) {p : Payloads}
    → check_fit c data' root_uuid ≡ ok p
    → Steps c data' root_uuid p
unfolding check_fit
check_fit-Steps c data' root_uuid {p} h =
    let size =
      ltb 0 (length data') && leb (length data') (32 * 1024 * 1024) && length data' % 512 == 0 in
    let (_, sized, a) = bind-eq-ok (require size bad_size) _ h in
    let (props, parsed, b) = bind-eq-ok (from_fdt (fdt data')) _ a in
    let (_, container, d) = bind-eq-ok (check_container data' props) _ b in
    let (q, images, e) = bind-eq-ok (check_images c props) _ d in
    let (_, entry, f) =
      bind-eq-ok
        (require (is_value (node_of kernel_image) "entry" (be32 kernel_load) props) wrong_entry) _
        e in
    let (raw, kernel, g) = bind-eq-ok (check_kernel c q.kernel) _ f in
    let (_, sizes, i) = bind-eq-ok (check_sizes q) _ g in
    let (dt, tree_parsed, j) = bind-eq-ok (from_fdt (fdt q.fdt)) _ i in
    let (_, tree, same) = bind-eq-ok (check_tree root_uuid dt) _ j in
    let equal : q ≡ p = ground (arith, same) in
    subst (Steps c data' root_uuid) equal (record {
      props = props;
      parsed = parsed;
      container = container;
      images = images;
      raw = raw;
      kernel = kernel;
      sizes = sizes;
      dt = dt;
      tree_parsed = tree_parsed;
      tree = tree;
    })

-- The memory of the board at boot: the running kernel, then the ramdisk, then the tree.
pub record FitsMemory (raw : Bytes) (p : Payloads) : Type 0 where
  pub image : length raw ≤ memory_size raw
  pub kernel : kernel_load + memory_size raw ≤ 0x41e00000
  pub kernel_before_ramdisk : kernel_load + memory_size raw ≤ ramdisk_load
  pub ramdisk : ramdisk_load + length p.ramdisk < fdt_load
  pub tree : fdt_load + length p.fdt < 0x46000000

check_sizes-bounds :
    (p : Payloads)
    → check_sizes p ≡ ok tt
    → (ramdisk_load + length p.ramdisk < fdt_load) × (fdt_load + length p.fdt < 0x46000000)
unfolding check_sizes
check_sizes-bounds p h = (ground arith, ground arith)

-- The regions of an accepted firmware do not overlap: the kernel with its bss ends below the text of
-- the loader, and so below the ramdisk, the ramdisk ends below the tree, and the tree below the
-- upload buffer.
pub check_fit-FitsMemory :
    (c : Codecs) (data' root_uuid : Bytes) {p : Payloads}
    → check_fit c data' root_uuid ≡ ok p
    → (raw : Bytes) × (check_kernel c p.kernel ≡ ok raw) × FitsMemory raw p
check_fit-FitsMemory c data' root_uuid {p} h =
    let s = check_fit-Steps c data' root_uuid h in
    let window = check_kernel-InWindow c p.kernel s.kernel in
    let (ramdisk, tree) = check_sizes-bounds p s.sizes in
    (
      s.raw,
      s.kernel,
      record {
        image = window.image;
        kernel = window.memory;
        kernel_before_ramdisk = omega (arith, window.memory);
        ramdisk = ramdisk;
        tree = tree;
      },
    )

same_words-eq : (vs ws : List Bytes) → same_words vs ws ≡ true → vs ≡ ws
unfolding same_words
same_words-eq [] [] h = refl
same_words-eq (v ∷ vs) (w ∷ ws) h = ground (arith, =ᵇ-eq v w, same_words-eq vs ws)
same_words-eq [] (w ∷ ws) h = cc
same_words-eq (v ∷ vs) [] h = cc

pub check_args-eq :
    (root_uuid : Bytes) (args : List Bytes)
    → check_args root_uuid args ≡ ok tt
    → args ≡ words (bootargs root_uuid)
unfolding check_args
check_args-eq root_uuid args h = same_words-eq args (words (bootargs root_uuid)) (ground arith)

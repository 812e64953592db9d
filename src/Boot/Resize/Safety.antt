-- ===== src/Boot/Resize/Safety.antt =====
-- The runs and the results of `resize_rootfs`.
use edgepi_e87n.Base.{
  ℕ, ◌*◌, ◌≤◌, ◌<◌, ◌≡◌, ◌≢◌, ◌⊎◌, inl, inr, refl, ap, subst, ◌∙◌, Bool, true, false, ◌==◌, Bytes,
  arith, Result, Result-cases, ok, err, require, bind-eq-ok,
}
use edgepi_e87n.Boot.{BootError, changed, Snapshot, validate_live}
use edgepi_e87n.Boot.Live.{IsFactory, validate_live-IsFactory}
use edgepi_e87n.Boot.Resize.{
  maximum, block_count, ext4_geometry, open_partition, same_parts, System, must_resize, recheck,
  check_filled, run_resize, resize_if, resize_rootfs,
}

-- An accepted file system has a block, and its blocks of 4096 bytes lie inside the partition.
pub ext4_geometry_bounds :
    (sb : Bytes) {blocks limit : ℕ}
    → ext4_geometry sb ≡ ok (blocks, limit)
    → (0 < blocks) × (blocks ≤ limit) × (limit * 4096 ≤ 15181791 * 512)
unfolding ext4_geometry
ext4_geometry_bounds sb {blocks} {limit} h =
    let top : limit ≡ maximum = ground arith in
    let count : blocks ≡ block_count sb = ground arith in
    (ground (arith, count), ground (arith, top, count), omega (arith, top))

limit_of : (sb : Bytes) {blocks limit : ℕ} → ext4_geometry sb ≡ ok (blocks, limit) → limit ≡ maximum
unfolding ext4_geometry
limit_of sb h = ground arith

-- The file system on a superblock fills the partition.
unfoldable pub IsFull : Bytes → Type 0
IsFull sb = ext4_geometry sb ≡ ok (maximum, maximum)

-- The board passed twice, with the same partitions, and the file system was too small.
pub record Checked (w : System) : Type 0 where
  pub snapshot : Snapshot
  pub current : Snapshot
  pub first : w.before ≡ ok snapshot
  pub second : w.current ≡ ok current
  pub first-IsFactory : IsFactory snapshot
  pub second-IsFactory : IsFactory current
  pub unchanged : same_parts current.parts snapshot.parts ≡ true
  pub sb : Bytes
  pub read : w.superblock ≡ ok sb
  pub blocks : ℕ
  pub geometry : ext4_geometry sb ≡ ok (blocks, maximum)
  pub smaller : blocks < maximum

must_resize-true :
    (w : System)
    → must_resize w ≡ ok true
    → (s : Snapshot) × (w.before ≡ ok s)
      × IsFactory s
      × (sb : Bytes) × (w.superblock ≡ ok sb)
      × (blocks : ℕ) × (ext4_geometry sb ≡ ok (blocks, maximum))
      × (blocks < maximum)
unfolding must_resize
must_resize-true w h =
    let (s, before, a) = bind-eq-ok w.before _ h in
    let (_, valid, b) = bind-eq-ok (validate_live s true) _ a in
    let (_, opened, c) = bind-eq-ok (open_partition 5 s w.opened) _ b in
    let (sb, read, d) = bind-eq-ok w.superblock _ c in
    let ((blocks, limit), geometry, e) = bind-eq-ok (ext4_geometry sb) _ d in
    let top : limit ≡ maximum = limit_of sb geometry in
    let bounds = ext4_geometry_bounds sb geometry in
    (
      s,
      before,
      validate_live-IsFactory s true valid,
      sb,
      read,
      blocks,
      geometry ∙ ap (λ (t : ℕ). ok (blocks, t)) top,
      ground (arith, e, top, bounds),
    )

recheck-ok :
    (w : System) (s : Snapshot)
    → w.before ≡ ok s
    → recheck w ≡ ok tt
    → (c : Snapshot) × (w.current ≡ ok c) × IsFactory c × (same_parts c.parts s.parts ≡ true)
unfolding recheck
recheck-ok w s before h =
    let (s', before', a) = bind-eq-ok w.before _ h in
    let (c, current, b) = bind-eq-ok w.current _ a in
    let (_, valid, d) = bind-eq-ok (validate_live c true) _ b in
    let (_, same, e) = bind-eq-ok (require (same_parts c.parts s'.parts) changed) _ d in
    let equal : s' ≡ s = cc in
    (
      c,
      current,
      validate_live-IsFactory c true valid,
      subst (λ t. same_parts c.parts t.parts ≡ true) equal (ground (arith, same)),
    )

resize_if-runs :
    (w : System) (m : Result BootError Bool)
    → (resize_if w m).runs ≢ 0
    → (m ≡ ok true) × (recheck w ≡ ok tt) × ((resize_if w m).runs ≡ 1)
resize_if-runs w (err e) ne = absurd (ne refl)
resize_if-runs w (ok false) ne = absurd (ne refl)
resize_if-runs w (ok true) ne = elim (Result-cases (recheck w)) [
  | inl (_, passed) ↦ (refl, passed, ap (λ r. (run_resize w r).runs) passed)
  | inr (e, failed) ↦ absurd (ne (ap (λ r. (run_resize w r).runs) failed))
]

-- If resize2fs runs at all, it runs once, on a board whose two snapshots both have the layout of
-- the factory and show the same partitions, and whose file system had fewer blocks than its
-- partition holds.
pub resize_rootfs-Checked :
    (w : System) → (resize_rootfs w).runs ≢ 0 → ((resize_rootfs w).runs ≡ 1) × Checked w
unfolding resize_rootfs
resize_rootfs-Checked w ne =
    let (must, passed, once) = resize_if-runs w (must_resize w) ne in
    let (s, before, factory, sb, read, blocks, geometry, smaller) = must_resize-true w must in
    let (c, current, factory', same) = recheck-ok w s before passed in
    (
      once,
      record {
        snapshot = s;
        current = c;
        first = before;
        second = current;
        first-IsFactory = factory;
        second-IsFactory = factory';
        unchanged = same;
        sb = sb;
        read = read;
        blocks = blocks;
        geometry = geometry;
        smaller = smaller;
      },
    )

IsFull-of :
    (sb : Bytes) (blocks limit : ℕ)
    → ext4_geometry sb ≡ ok (blocks, limit)
    → (blocks == limit) ≡ true
    → IsFull sb
unfolding IsFull
IsFull-of sb blocks limit h same =
    let top : limit ≡ maximum = limit_of sb h in
    let equal : blocks ≡ limit = ground arith in
    h ∙ ap (λ (t : ℕ). ok (t, limit)) equal ∙ ap (λ (t : ℕ). ok (t, t)) top

must_resize-false :
    (w : System) → must_resize w ≡ ok false → (sb : Bytes) × (w.superblock ≡ ok sb) × IsFull sb
unfolding must_resize
must_resize-false w h =
    let (s, before, a) = bind-eq-ok w.before _ h in
    let (_, valid, b) = bind-eq-ok (validate_live s true) _ a in
    let (_, opened, c) = bind-eq-ok (open_partition 5 s w.opened) _ b in
    let (sb, read, d) = bind-eq-ok w.superblock _ c in
    let ((blocks, limit), geometry, e) = bind-eq-ok (ext4_geometry sb) _ d in
    (sb, read, IsFull-of sb blocks limit geometry (ground (arith, e)))

check_filled-IsFull :
    (w : System) → check_filled w ≡ ok tt → (sb : Bytes) × (w.after ≡ ok sb) × IsFull sb
unfolding check_filled
check_filled-IsFull w h =
    let (sb, read, a) = bind-eq-ok w.after _ h in
    let ((blocks, limit), geometry, e) = bind-eq-ok (ext4_geometry sb) _ a in
    (sb, read, IsFull-of sb blocks limit geometry (ground (arith, e)))

-- The last superblock that was read: the one before where nothing ran, else the one after.
abbrev pub LastRead : System → ℕ → Bytes → Type 0
LastRead w runs sb = ((runs ≡ 0) × (w.superblock ≡ ok sb)) ⊎ ((runs ≡ 1) × (w.after ≡ ok sb))

run_resize-IsFull :
    (w : System) (r : Result BootError (Unit {0}))
    → (run_resize w r).result ≡ ok tt
    → (sb : Bytes) × LastRead w (run_resize w r).runs sb × IsFull sb
run_resize-IsFull w (err e) h = cc
run_resize-IsFull w (ok _) h =
    let (_, ran, checked) = bind-eq-ok w.resize2fs _ h in
    let (sb, read, full) = check_filled-IsFull w checked in (sb, inr (refl, read), full)

resize_if-IsFull :
    (w : System) (m : Result BootError Bool)
    → must_resize w ≡ m
    → (resize_if w m).result ≡ ok tt
    → (sb : Bytes) × LastRead w (resize_if w m).runs sb × IsFull sb
resize_if-IsFull w (err e) same h = cc
resize_if-IsFull w (ok false) same h =
    let (sb, read, full) = must_resize-false w same in (sb, inl (refl, read), full)
resize_if-IsFull w (ok true) same h = run_resize-IsFull w (recheck w) h

-- If `resize_rootfs` returns, the last superblock that it read, behind resize2fs where that ran,
-- shows a file system of exactly as many blocks as the partition holds.
pub resize_rootfs-IsFull :
    (w : System)
    → (resize_rootfs w).result ≡ ok tt
    → (sb : Bytes) × LastRead w (resize_rootfs w).runs sb × IsFull sb
unfolding resize_rootfs
resize_rootfs-IsFull w h = resize_if-IsFull w (must_resize w) refl h

-- ===== src/Boot/Resize.antt =====
-- `open_partition`, `ext4_geometry` and `resize_rootfs`, with what the system answers as a record.
pub mod Safety
use edgepi_e87n.Base.{
  ℕ, suc, ◌+◌, ◌*◌, ◌/◌, ◌%◌, ◌^◌, String, Bool, true, false, not, ◌&&◌, ◌||◌, List, [], ◌∷◌,
  Option, none, some, ltb, leb, ◌==◌, ◌≈◌, if◌then◌else◌, length, all, Bytes, ◌=ᵇ◌, slice, le_at,
  Result, ok, err, ◌>>=◌, ◌>>◌, require, or_raise,
}
use edgepi_e87n.Boot.{
  BootError, missing_key, os_error, not_supported, wrong_device, not_ext4, wrong_block_size,
  wrong_blocks, changed, not_filled, Part, Slot, Snapshot, part_at, is_present, validate_live,
}

-- Opening a partition, given the identity of the block device behind the path (none where the
-- path does not open, or is no block device).
unfoldable pub open_partition : ℕ → Snapshot → Option Bytes → Result BootError (Unit {0})
open_partition number s identity = do
  require (number == 2 || number == 5) not_supported
  dev ← or_raise identity os_error
  p ← or_raise (part_at number s.parts) missing_key
  require (dev =ᵇ p.dev) wrong_device

-- LAYOUT[5][2] * 512 // 4096
abbrev pub maximum : ℕ
maximum = 15181791 * 512 / 4096

-- blocks |= high << 32, where `INCOMPAT_64BIT` is set; the low word is below 2 ** 32
unfoldable pub block_count : Bytes → ℕ
block_count sb =
    let low = le_at 4 sb 4 in
    if le_at 4 sb 96 / 0x80 % 2 == 1 then le_at 4 sb 336 * 2 ^ 32 + low else low

unfoldable pub ext4_geometry : Bytes → Result BootError (ℕ × ℕ)
ext4_geometry sb = do
  require (length sb == 1024 && slice 56 58 sb =ᵇ (0x53 ∷ 0xef ∷ [])) not_ext4
  require (le_at 4 sb 24 == 2) wrong_block_size
  require (ltb 0 (block_count sb) && leb (block_count sb) maximum) wrong_blocks
  ok (block_count sb, maximum)

abbrev same_name : Option String → Option String → Bool
same_name none none = true
same_name (some a) (some b) = a ≈ b
same_name _ _ = false

abbrev same_bool : Bool → Bool → Bool
same_bool true b = b
same_bool false b = not b

unfoldable pub same_part : Part → Part → Bool
same_part a b =
    a.number == b.number
    && same_name a.name b.name
    && a.start == b.start
    && a.size == b.size
    && a.dev =ᵇ b.dev
    && same_bool a.parent_ok b.parent_ok

abbrev same_at : Option Part → Part → Bool
same_at none p = false
same_at (some q) p = same_part q p

-- current["parts"] == snapshot["parts"]
unfoldable pub same_parts : List Slot → List Slot → Bool
same_parts a b =
    all (λ (s : Slot). is_present s.key a) b
    && all (λ (s : Slot). same_at (part_at s.key b) s.part) a

-- What the system answers: two snapshots, the devices behind the path, the superblock before and
-- after, and how resize2fs ends.
pub record System : Type 0 where
  pub before : Result BootError Snapshot
  pub opened : Option Bytes
  pub superblock : Result BootError Bytes
  pub current : Result BootError Snapshot
  pub reopened : Option Bytes
  pub resize2fs : Result BootError (Unit {0})
  pub after : Result BootError Bytes

pub record Resizing : Type 0 where
  pub runs : ℕ
  pub result : Result BootError (Unit {0})

-- up to the first superblock: is the file system smaller than the partition?
unfoldable pub must_resize : System → Result BootError Bool
must_resize w = do
  snapshot ← w.before
  validate_live snapshot true
  open_partition 5 snapshot w.opened
  sb ← w.superblock
  geometry ← ext4_geometry sb
  ok (not (geometry.0 == geometry.1))

-- the checks that are repeated immediately before the command
unfoldable pub recheck : System → Result BootError (Unit {0})
recheck w = do
  snapshot ← w.before
  current ← w.current
  validate_live current true
  require (same_parts current.parts snapshot.parts) changed
  open_partition 5 current w.reopened

unfoldable pub check_filled : System → Result BootError (Unit {0})
check_filled w = do
  sb ← w.after
  geometry ← ext4_geometry sb
  require (geometry.0 == geometry.1) not_filled

abbrev pub run_resize : System → Result BootError (Unit {0}) → Resizing
run_resize w (err e) = record { runs = 0; result = err e }
run_resize w (ok _) = record { runs = 1; result = w.resize2fs >> check_filled w }

abbrev pub resize_if : System → Result BootError Bool → Resizing
resize_if w (err e) = record { runs = 0; result = err e }
resize_if w (ok false) = record { runs = 0; result = ok tt }
resize_if w (ok true) = run_resize w (recheck w)

unfoldable pub resize_rootfs : System → Resizing
resize_rootfs w = resize_if w (must_resize w)

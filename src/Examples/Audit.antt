-- ===== src/Examples/Audit.antt =====
-- The audit of the small firmware, and the board at boot.
use edgepi_e87n.Base.{
  ℕ, zero, suc, String, arith, ◌+◌, ◌≤◌, ◌≡◌, ◌≢◌, refl, true, List, [], ◌∷◌, ◌++◌, some, Bytes,
  codes, ok,
}
use edgepi_e87n.Fdt.{
  Property, fdt, header_of, check_header, block_of, loop, step, begin_node, end_node, property,
  finish, find_nul, join_path, path_of,
}
use edgepi_e87n.Fit.{
  kernel_image, ramdisk_image, fdt_image, check_container, check_image, value_at, nodes_under,
  names_of, third_parts, no_external,
}
use edgepi_e87n.Fit.Kernel.{check_kernel, unpack_kernel}
use edgepi_e87n.Fit.Tree.{
  check_tree, check_args, args_of, bootargs, check_reservations, contains, with_prefix, same_words,
}
use edgepi_e87n.Fit.Audit.{Payloads, check_images, check_sizes, check_fit}
use edgepi_e87n.Fdt.Dictionary.{IsDictionary}
use edgepi_e87n.Fit.Audit.Memory.{FitsMemory, check_fit-FitsMemory}
use edgepi_e87n.Fit.Audit.Provenance.{IsPayload, check_fit-IsPayload}
use edgepi_e87n.Boot.{
  Mount, Part, Slot, Snapshot, part_at, has_entry, is_present, same_numbers, is_device, check_part,
  check_parts, unique, roots, check_board, check_root, validate_live,
}
use edgepi_e87n.Boot.Live.{IsFactory, validate_live-IsFactory, parts_disjoint}
use edgepi_e87n.Boot.Resize.{
  block_count, ext4_geometry, open_partition, same_part, same_parts, System, must_resize, recheck,
  check_filled, resize_rootfs, maximum,
}
use edgepi_e87n.Boot.Resize.Safety.{Checked, resize_rootfs-Checked}
use edgepi_e87n.Boot.Macs.{is_unicast, mac_text, factory_macs}
use edgepi_e87n.Boot.Macs.Sound.{are_bytes}
use edgepi_e87n.Examples.Firmware.{tree, packed, firmware, codecs}

abbrev payloads : Payloads
payloads = record { kernel = packed; ramdisk = codes "070701"; fdt = tree }

accepted : check_fit codecs firmware (codes "1234") ≡ ok payloads
unfolding check_fit fdt edgepi_e87n.Fdt.check_header loop step begin_node end_node property finish
    find_nul join_path path_of check_container check_image value_at nodes_under names_of third_parts
    no_external check_kernel unpack_kernel edgepi_e87n.Fit.Kernel.check_header check_tree check_args
    args_of bootargs check_reservations contains with_prefix same_words check_images check_sizes
accepted = refl

check_fit-FitsMemory_example :
    (raw : Bytes) × (check_kernel codecs packed ≡ ok raw) × FitsMemory raw payloads
check_fit-FitsMemory_example = check_fit-FitsMemory codecs firmware (codes "1234") accepted

check_fit-IsPayload_example :
    (props : List Property) × (fdt firmware ≡ ok props)
    × IsPayload codecs props kernel_image packed
    × IsPayload codecs props ramdisk_image (codes "070701")
    × IsPayload codecs props fdt_image tree
    × IsDictionary (block_of (header_of firmware) firmware) props
check_fit-IsPayload_example = check_fit-IsPayload codecs firmware (codes "1234") accepted

abbrev slot : ℕ → String → ℕ → ℕ → ℕ → Slot
slot number name start size minor = record {
  key = number;
  part = record {
    number = number;
    name = some name;
    start = start;
    size = size;
    dev = codes "179:" ++ minor ∷ [];
    parent_ok = true;
  };
}

abbrev root_mount : Mount
root_mount = record {
  dev = codes "179:5";
  root = "/";
  mount = "/";
  options = "rw" ∷ "noatime" ∷ [];
  kind = "ext4";
  source = "/dev/mmcblk0p5";
}

abbrev pub board : Snapshot
board = record {
  machine = "aarch64";
  uid = 0;
  model = codes "EdgePi E87N" ++ 0 ∷ [];
  compatible = codes "edgepi,e87n" ++ 0 ∷ [];
  removable = 0;
  card_type = "MMC";
  sectors = 15269888;
  parts =
      slot 1 "u-boot-env" 8192 1024 b'1'
      ∷ slot 2 "factory" 9216 8192 b'2'
      ∷ slot 3 "fip" 17408 4096 b'3'
      ∷ slot 4 "kernel" 21504 65536 b'4'
      ∷ slot 5 "rootfs" 87040 15181791 b'5'
      ∷ [];
  mounts = root_mount ∷ [];
}

valid : validate_live board true ≡ ok tt
unfolding validate_live check_board same_numbers has_entry is_present check_parts part_at check_part
    is_device unique roots check_root
valid = refl

validate_live-IsFactory_example : IsFactory board
validate_live-IsFactory_example = validate_live-IsFactory board true valid

abbrev factory : Part
factory = (slot 2 "factory" 9216 8192 b'2').part

abbrev rootfs : Part
rootfs = (slot 5 "rootfs" 87040 15181791 b'5').part

second : part_at 2 board.parts ≡ some factory
unfolding part_at
second = refl

fifth : part_at 5 board.parts ≡ some rootfs
unfolding part_at
fifth = refl

parts_disjoint_example : (9216 + 8192 ≤ 87040) × (87040 + 15181791 + 33 ≤ 15269888)
parts_disjoint_example =
    parts_disjoint board true 2 5 factory rootfs valid second fifth (omega arith)

-- a superblock of so many blocks of 4096 bytes
abbrev zeros : ℕ → Bytes
zeros zero = []
zeros (suc n) = 0 ∷ zeros n

abbrev superblock : Bytes → Bytes
superblock blocks =
    zeros 4
    ++ blocks
    ++ zeros 16
    ++ (2 ∷ 0 ∷ 0 ∷ 0 ∷ [])
    ++ zeros 28
    ++ (0x53 ∷ 0xef ∷ [])
    ++ zeros 966

abbrev small : Bytes
small = superblock (0 ∷ 0 ∷ 8 ∷ 0 ∷ [])

-- 1897723 blocks
abbrev full : Bytes
full = superblock (0xfb ∷ 0xf4 ∷ 0x1c ∷ 0 ∷ [])

abbrev system : System
system = record {
  before = ok board;
  opened = some (codes "179:5");
  superblock = ok small;
  current = ok board;
  reopened = some (codes "179:5");
  resize2fs = ok tt;
  after = ok full;
}

small_size : ext4_geometry small ≡ ok (524288, maximum)
unfolding ext4_geometry block_count
small_size = refl

runs : (resize_rootfs system).runs ≢ 0
unfolding resize_rootfs must_resize recheck check_filled open_partition part_at ext4_geometry
    block_count same_parts same_part is_present validate_live check_board same_numbers has_entry
    check_parts check_part is_device unique roots check_root
runs h = absurd (omega (arith, h))

resized : (resize_rootfs system).result ≡ ok tt
unfolding resize_rootfs must_resize recheck check_filled open_partition part_at ext4_geometry
    block_count same_parts same_part is_present validate_live check_board same_numbers has_entry
    check_parts check_part is_device unique roots check_root
resized = refl

resize_rootfs-Checked_example : ((resize_rootfs system).runs ≡ 1) × Checked system
resize_rootfs-Checked_example = resize_rootfs-Checked system runs

abbrev pub stored : Bytes
stored = 0x02 ∷ 0xe8 ∷ 0x7a ∷ 0 ∷ 0 ∷ 1 ∷ 0x02 ∷ 0xe8 ∷ 0x7a ∷ 0 ∷ 0 ∷ 2 ∷ []

macs_read : factory_macs stored ≡ ok (codes "02:e8:7a:00:00:01", codes "02:e8:7a:00:00:02")
unfolding factory_macs is_unicast mac_text
macs_read = refl

are_stored : are_bytes stored ≡ true
unfolding are_bytes
are_stored = refl

-- ===== src/Doctor/Storage.antt =====
-- `_memory`, `_root_filesystem` and `_cmdline` of board-support/e87n/doctor.py.
pub mod Root
use edgepi_e87n.Base.{
  ℕ, suc, ◌+◌, ◌*◌, Bool, true, false, not, ◌&&◌, ◌||◌, List, [], ◌∷◌, ◌++◌, Option, none, some,
  leb, ltb, ◌==◌, if◌then◌else◌, length, drop, take, all, any, get_or, Bytes, ◌=ᵇ◌, bytes_elem,
  starts_with, split, codes, lines, words,
}
use edgepi_e87n.Json.{ℤ, pos, negsuc}
use edgepi_e87n.Doctor.{Status, good, unknown, warning, error, Check, System}
use edgepi_e87n.Doctor.Shlex.{shlex_split}
use edgepi_e87n.Doctor.Patterns.{number_of, mem_total}
use edgepi_e87n.Doctor.Reader.{text, small, large}
use edgepi_e87n.Doctor.Identity.{is_missing, is_yes, or_empty}

unfoldable pub filter : (Bytes → Bool) → List Bytes → List Bytes
filter test [] = []
filter test (line ∷ rest) = let kept = filter test rest in if test line then line ∷ kept else kept

pub record MemoryDetails : Type 0 where
  pub total_kib : Option ℤ
  pub at_or_below : Option Bool

-- the match of the one MemTotal line
unfoldable pub total_line : List Bytes → Option Bytes
total_line (line ∷ []) = mem_total line
total_line _ = none

-- total <= 256 * 1024
unfoldable pub is_low : ℤ → Bool
is_low (pos n) = leb n 262144
is_low (negsuc n) = true

unfoldable pub memory_of : Option ℤ → Check MemoryDetails
memory_of none = record {
  status = unknown;
  details = record { total_kib = none; at_or_below = none };
}
memory_of (some total) = record {
  status = if is_low total then warning else good;
  details = record { total_kib = some total; at_or_below = some (is_low total) };
}

unfoldable pub memory : System → Check MemoryDetails
memory system =
    let found =
      filter (starts_with (codes "MemTotal:"))
        (lines (or_empty (text system small (codes "proc/meminfo")))) in
    memory_of (number_of (total_line found) (pos 1) (pos 1125899906842624))

-- A mount of the root: its file system, and its groups of options.
pub record Mount : Type 0 where
  pub kind : Bytes
  pub groups : List (List Bytes)

-- line.partition(" - "): the words in front of the separator and behind it
unfoldable pub cut : Bytes → Option (Bytes × Bytes)
cut [] = none
cut (c ∷ cs) =
    let rest = cut cs in
    if starts_with (codes " - ") (c ∷ cs)
    then some ([], drop 2 cs)
    else elim rest [ none ↦ none | some (front, back) ↦ some (c ∷ front, back) ]

unfoldable pub mountinfo_line : Bytes → List Mount
mountinfo_line line = elim (cut line) [
  | none ↦ []
  | some (front, back) ↦
      if leb 6 (length (words front))
        && leb 3 (length (words back))
        && get_or (words front) 4 [] =ᵇ codes "/"
      then record {
        kind = get_or (words back) 0 [];
        groups =
            split b',' (get_or (words front) 5 []) ∷ split b',' (get_or (words back) 2 []) ∷ [];
      }
        ∷ []
      else []
]

unfoldable pub mounts_line : Bytes → List Mount
mounts_line line =
    if leb 4 (length (words line)) && get_or (words line) 1 [] =ᵇ codes "/"
    then record {
      kind = get_or (words line) 2 [];
      groups = split b',' (get_or (words line) 3 []) ∷ [];
    }
      ∷ []
    else []

unfoldable pub collect : (Bytes → List Mount) → List Bytes → List Mount
collect read_line [] = []
collect read_line (line ∷ rest) = read_line line ++ collect read_line rest

unfoldable pub kinds : List Bytes
kinds =
    codes "ext4"
    ∷ codes "btrfs"
    ∷ codes "f2fs"
    ∷ codes "xfs"
    ∷ codes "overlay"
    ∷ codes "tmpfs"
    ∷ codes "rootfs"
    ∷ codes "squashfs"
    ∷ []

unfoldable pub volatile : List Bytes
volatile = codes "tmpfs" ∷ codes "rootfs" ∷ codes "squashfs" ∷ []

-- ("ro" in options) != ("rw" in options)
unfoldable pub is_decided : List Bytes → Bool
is_decided options =
    if bytes_elem (codes "ro") options
    then not (bytes_elem (codes "rw") options)
    else bytes_elem (codes "rw") options

-- None if a group leaves it open
unfoldable pub read_only_of : List (List Bytes) → Option Bool
read_only_of groups =
    if all is_decided groups then some (any (bytes_elem (codes "ro")) groups) else none

pub record RootDetails : Type 0 where
  pub source : Option Bytes
  pub root_present : Option Bool
  pub ambiguous : Bool
  pub filesystem : Option Bytes
  pub read_only : Option Bool

unfoldable pub filesystem_of : List Mount → Option Bytes
filesystem_of (m ∷ []) = some (if bytes_elem m.kind kinds then m.kind else codes "other")
filesystem_of _ = none

unfoldable pub protection_of : List Mount → Option Bool
protection_of (m ∷ []) = read_only_of m.groups
protection_of _ = none

unfoldable pub is_volatile : Option Bytes → Bool
is_volatile none = false
is_volatile (some kind) = bytes_elem kind volatile

unfoldable pub root_status : Option Bytes → List Mount → Status
root_status content roots =
    let none_there = length roots == 0 in
    if is_missing content
      || ltb 1 (length roots)
      || (not none_there && is_missing (protection_of roots))
    then unknown
    else if none_there || is_yes (protection_of roots) || is_volatile (filesystem_of roots)
    then warning
    else good

unfoldable pub root_of : Bytes → (Bytes → List Mount) → Option Bytes → Check RootDetails
root_of source read_line content =
    let roots = collect read_line (lines (or_empty content)) in
    record {
      status = root_status content roots;
      details = record {
        source = if is_missing content then none else some (codes "/" ++ source);
        root_present = if is_missing content then none else some (not (length roots == 0));
        ambiguous = ltb 1 (length roots);
        filesystem = filesystem_of roots;
        read_only = protection_of roots;
      };
    }

unfoldable pub root_filesystem : System → Check RootDetails
root_filesystem system =
    let info = text system large (codes "proc/self/mountinfo") in
    if is_missing info
    then root_of (codes "proc/mounts") mounts_line (text system large (codes "proc/mounts"))
    else root_of (codes "proc/self/mountinfo") mountinfo_line info

pub record CmdlineDetails : Type 0 where
  pub readable : Bool
  pub nonempty : Option Bool
  pub root_argument_present : Option Bool
  pub multiple_root_arguments : Option Bool
  pub memory_limit_present : Option Bool
  pub rootwait_present : Option Bool
  pub conflicting_ro_rw : Option Bool

unfoldable pub fields_of : Option Bytes → Option (List Bytes)
fields_of none = none
fields_of (some content) = shlex_split false content

unfoldable pub root_arguments : List Bytes → List Bytes
root_arguments fields = filter (starts_with (codes "root=")) fields

unfoldable pub has_root : List Bytes → Bool
has_root fields = any (λ f. ltb 5 (length f)) (root_arguments fields)

unfoldable pub has_limit : List Bytes → Bool
has_limit fields = any (starts_with (codes "mem=")) fields

unfoldable pub has_conflict : List Bytes → Bool
has_conflict fields = bytes_elem (codes "ro") fields && bytes_elem (codes "rw") fields

unfoldable pub cmdline_of : Bool → Option (List Bytes) → Check CmdlineDetails
cmdline_of readable none = record {
  status = unknown;
  details = record {
    readable = readable;
    nonempty = none;
    root_argument_present = none;
    multiple_root_arguments = none;
    memory_limit_present = none;
    rootwait_present = none;
    conflicting_ro_rw = none;
  };
}
cmdline_of readable (some fields) = record {
  status =
      if not (has_root fields)
        || not (length (root_arguments fields) == 1)
        || has_limit fields
        || has_conflict fields
      then warning
      else good;
  details = record {
    readable = readable;
    nonempty = some (not (length fields == 0));
    root_argument_present = some (has_root fields);
    multiple_root_arguments = some (ltb 1 (length (root_arguments fields)));
    memory_limit_present = some (has_limit fields);
    rootwait_present = some (bytes_elem (codes "rootwait") fields);
    conflicting_ro_rw = some (has_conflict fields);
  };
}

unfoldable pub cmdline : System → Check CmdlineDetails
cmdline system =
    let content = text system small (codes "proc/cmdline") in
    cmdline_of (not (is_missing content)) (fields_of content)

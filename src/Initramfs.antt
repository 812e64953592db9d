-- ===== src/Initramfs.antt =====
-- scripts/verify-initramfs.py: the listing of an initramfs against the kernel configuration and modules.dep,
-- with paths as lists of code points.
pub mod Listing
pub mod Search
pub mod Verify
use edgepi_e87n.Base.{
  ℕ, suc, ◌+◌, ◌-◌, Bool, true, false, not, ◌&&◌, ◌||◌, List, [], ◌∷◌, ◌++◌, Option, none, some,
  leb, ltb, ◌==◌, if◌then◌else◌, length, take, drop, all, any, Bytes, ◌=ᵇ◌, bytes_elem, starts_with,
  split, codes, is_digit, Result, ok, err, ◌>>=◌, ◌>>◌, require, String,
}

-- The ValueErrors, by the check; `out_of_fuel` is none of the source's.
pub data InitramfsError : Type 0 where
  bad_path absolute_dep bad_suffix : Bytes → InitramfsError
  one_config bad_release malformed_line : InitramfsError
  duplicate_config bad_driver modular_prerequisite : InitramfsError
  wrong_release duplicate_module no_init no_modules missing_metadata : InitramfsError
  malformed_dep duplicate_dep : InitramfsError
  cyclic missing_module missing_entry : Bytes → InitramfsError
  out_of_fuel : InitramfsError

-- c.isspace() or ord(c) < 32
unfoldable pub is_blank : ℕ → Bool
is_blank c =
    leb c 32
    || c == 0x85
    || c == 0xa0
    || c == 0x1680
    || (leb 0x2000 c && leb c 0x200a)
    || c == 0x2028
    || c == 0x2029
    || c == 0x202f
    || c == 0x205f
    || c == 0x3000

-- while name.startswith("./"): name = name[2:]
unfoldable pub strip_here : Bytes → Bytes
strip_here [] = []
strip_here (a ∷ []) = a ∷ []
strip_here (a ∷ b ∷ rest) =
    let shorter = strip_here rest in if a == b'.' && b == b'/' then shorter else a ∷ b ∷ rest

-- name.lstrip("/")
unfoldable pub lstrip_slash : Bytes → Bytes
lstrip_slash [] = []
lstrip_slash (c ∷ cs) = let rest = lstrip_slash cs in if c == b'/' then rest else c ∷ cs

-- name.rstrip("/")
unfoldable pub rstrip_slash : Bytes → Bytes
rstrip_slash [] = []
rstrip_slash (c ∷ cs) =
    let rest = rstrip_slash cs in if rest =ᵇ [] && c == b'/' then [] else c ∷ rest

unfoldable pub has_double_slash : Bytes → Bool
has_double_slash [] = false
has_double_slash (c ∷ cs) = starts_with (codes "//") (c ∷ cs) || has_double_slash cs

unfoldable pub is_canonical : Bytes → Bool
is_canonical name =
    not (bytes_elem (codes "..") (split b'/' name))
    && not (has_double_slash name)
    && not (bytes_elem (codes ".") (split b'/' name))

unfoldable pub safe_path : Bytes → Result InitramfsError Bytes
safe_path name =
    let bare = rstrip_slash (lstrip_slash (strip_here name)) in
    do
      require (not (name =ᵇ []) && not (any is_blank name)) (bad_path name)
      require (is_canonical bare) (bad_path bare)
      ok bare

-- name.endswith(end), with something in front of it
unfoldable pub ends_behind : Bytes → Bytes → Bool
ends_behind end name = ltb (length end) (length name) && drop (length name - length end) name =ᵇ end

-- (.+\.ko)(?:\.(?:xz|zst))?
unfoldable pub key_of : Bytes → Option Bytes
key_of name =
    if ends_behind (codes ".ko") name
    then some name
    else if ends_behind (codes ".ko.xz") name
    then some (take (length name - 3) name)
    else if ends_behind (codes ".ko.zst") name
    then some (take (length name - 4) name)
    else none

unfoldable pub suffix_checked : Bytes → Option Bytes → Result InitramfsError Bytes
suffix_checked name none = err (bad_suffix name)
suffix_checked name (some key) = ok key

unfoldable pub module_key : Bytes → Result InitramfsError Bytes
module_key name = do
  require (not (starts_with (codes "/") name)) (absolute_dep name)
  path ← safe_path name
  suffix_checked path (key_of path)

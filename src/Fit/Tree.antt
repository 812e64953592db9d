-- ===== src/Fit/Tree.antt =====
-- The device tree of a FIT: the board, its memory and the kernel command line.
use edgepi_e87n.Base.{
  ℕ, String, Bool, true, false, not, ◌&&◌, ◌||◌, List, [], ◌∷◌, ◌++◌, Option, none, some, ltb,
  if◌then◌else◌, all, Bytes, ◌=ᵇ◌, bytes_elem, codes, starts_with, words, rstrip_nul, be32, Result,
  ok, ◌>>=◌, ◌>>◌, require,
}
use edgepi_e87n.Fdt.{Property}
use edgepi_e87n.Fit.{
  FitError, wrong_board, wrong_ram, missing_reservation, lacks_no_map, not_ascii, wrong_root,
  incomplete_args, unexpected_args, value_at, nul_text,
}

unfoldable pub bootargs : Bytes → Bytes
bootargs root_uuid =
    codes "console=ttyS0,115200n8 earlycon=uart8250,mmio32,0x11000000 root=UUID="
    ++ root_uuid
    ++ codes " rootwait rootfstype=ext4 rw fsck.repair=yes net.ifnames=0 consoleblank=0 panic=0"

-- needle in data
unfoldable pub contains : Bytes → Bytes → Bool
contains needle [] = needle =ᵇ []
contains needle (x ∷ xs) = starts_with needle (x ∷ xs) || contains needle xs

unfoldable pub with_prefix : Bytes → List Bytes → List Bytes
with_prefix prefix [] = []
with_prefix prefix (w ∷ ws) =
    if starts_with prefix w then w ∷ with_prefix prefix ws else with_prefix prefix ws

unfoldable pub same_words : List Bytes → List Bytes → Bool
same_words [] [] = true
same_words (v ∷ vs) (w ∷ ws) = v =ᵇ w && same_words vs ws
same_words _ _ = false

abbrev text_or_empty : Option Bytes → Bytes
text_or_empty none = []
text_or_empty (some text) = text

unfoldable pub args_of : List Property → Result FitError (List Bytes)
args_of dt = do
  let text = rstrip_nul (text_or_empty (value_at (codes "/chosen") (codes "bootargs") dt))
  require (all (λ c. ltb c 128) text) not_ascii
  ok (words text)

unfoldable pub check_args : Bytes → List Bytes → Result FitError (Unit {0})
check_args root_uuid args = do
  require (same_words (with_prefix (codes "root=") args) ((codes "root=UUID=" ++ root_uuid) ∷ []))
      wrong_root
  require (same_words (with_prefix (codes "rootfstype=") args) (codes "rootfstype=ext4" ∷ []))
      wrong_root
  require
      (bytes_elem (codes "rw") args
        && bytes_elem (codes "rootwait") args
        && bytes_elem (codes "console=ttyS0,115200n8") args)
      incomplete_args
  require (same_words args (words (bootargs root_uuid))) unexpected_args

-- A row of RESERVATIONS.
pub record Reservation : Type 0 where
  pub name : String
  pub address : ℕ
  pub size : ℕ
  pub no_map : Bool

abbrev reservation : String → ℕ → ℕ → Bool → Reservation
reservation name address size no_map = record {
  name = name;
  address = address;
  size = size;
  no_map = no_map;
}

abbrev pub reservations : List Reservation
reservations =
    reservation "wmcpu-reserved@50000000" 0x50000000 0x100000 true
    ∷ reservation "ramoops@7ff70000" 0x7ff70000 0x10000 false
    ∷ reservation "secmon@7ff80000" 0x7ff80000 0x80000 true
    ∷ []

-- struct.pack(">4I", 0, address, 0, length)
abbrev pub region : ℕ → ℕ → Bytes
region address size = be32 0 ++ be32 address ++ be32 0 ++ be32 size

abbrev pub is_region : Bytes → ℕ → ℕ → List Property → Bool
is_region node address size dt = same (value_at node (codes "reg") dt) (region address size)
  where
    same : Option Bytes → Bytes → Bool
    same none value = false
    same (some found) value = found =ᵇ value

unfoldable pub check_reservations : List Reservation → List Property → Result FitError (Unit {0})
check_reservations [] dt = ok tt
check_reservations (r ∷ rs) dt = do
  let node = codes "/reserved-memory/" ++ codes r.name
  require (is_region node r.address r.size dt) missing_reservation
  require (not r.no_map || is_empty (value_at node (codes "no-map") dt)) lacks_no_map
  check_reservations rs dt
  where
    is_empty : Option Bytes → Bool
    is_empty none = false
    is_empty (some found) = found =ᵇ []

unfoldable pub check_tree : Bytes → List Property → Result FitError (Unit {0})
check_tree root_uuid dt = do
  require
      (contains (nul_text "edgepi,e87n")
        (text_or_empty (value_at (codes "/") (codes "compatible") dt)))
      wrong_board
  require (is_region (codes "/memory") 0x40000000 0x40000000 dt) wrong_ram
  check_reservations reservations dt
  args ← args_of dt
  check_args root_uuid args

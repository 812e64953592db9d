-- ===== src/Doctor/Storage/Root.antt =====
-- The status of the check of the root file system in board-support/e87n/doctor.py.
use edgepi_e87n.Base.{
  Bool, true, false, not, ◌&&◌, List, [], ◌∷◌, Option, none, some, ◌≡◌, ◌↔◌, inl, inr, refl,
  Bool-cases, ◌∙◌, arith, all, any, if◌then◌else◌, Bytes, bytes_elem, codes,
}
use edgepi_e87n.Doctor.{good}
use edgepi_e87n.Doctor.Identity.{is_missing, is_yes}
use edgepi_e87n.Doctor.Storage.{
  Mount, kinds, volatile, is_decided, read_only_of, filesystem_of, protection_of, is_volatile,
  root_status,
}

-- The one mount of a sound root: each group of options says rw and not ro, and its file system is
-- not one that lives in memory or that cannot be written.
abbrev pub is_sound : Mount → Bool
is_sound m =
    all is_decided m.groups
    && not (any (bytes_elem (codes "ro")) m.groups)
    && not (bytes_elem m.kind volatile)

volatile-kinds : (kind : Bytes) → bytes_elem kind volatile ≡ true → bytes_elem kind kinds ≡ true
unfolding volatile kinds
volatile-kinds kind h = ground arith

other_volatile : bytes_elem (codes "other") volatile ≡ false
unfolding volatile
other_volatile = refl

kept_volatile :
    (kind : Bytes)
    → bytes_elem (if bytes_elem kind kinds then kind else codes "other") volatile
      ≡ bytes_elem kind volatile
kept_volatile kind = elim (Bool-cases (bytes_elem kind kinds)) [
  | inl known ↦ rw known refl
  | inr strange ↦ rw strange (other_volatile ∙ ground (arith, volatile-kinds kind, strange))
]

abbrev pub IsSound : Option Bytes → List Mount → Type 0
IsSound none roots = ⊥
IsSound (some content) (m ∷ []) = is_sound m ≡ true
IsSound (some content) _ = ⊥

-- The root file system is reported ok exactly when the table of mounts was read and holds one mount
-- of the root, which is sound.
pub root_status_iff :
    (content : Option Bytes) (roots : List Mount)
    → (root_status content roots ≡ good) ↔ IsSound content roots
unfolding root_status is_missing protection_of filesystem_of is_volatile read_only_of is_yes
root_status_iff none roots = ground arith
root_status_iff (some content) [] = ground arith
root_status_iff (some content) (m ∷ []) = ground (arith, kept_volatile m.kind)
root_status_iff (some content) (m ∷ n ∷ roots) = ground arith

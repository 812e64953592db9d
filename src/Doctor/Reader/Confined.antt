-- ===== src/Doctor/Reader/Confined.antt =====
-- Where the walk of `_Reader._open` in board-support/e87n/doctor.py can end.
use edgepi_e87n.Base.{Bool, not, ◌||◌, List, [], Option, Bytes, ◌=ᵇ◌, codes}

-- A component that is no step back and no name of the same directory.
pub is_plain : Bytes → Bool
is_plain part = not (part =ᵇ [] || part =ᵇ codes "." || part =ᵇ codes "..")

-- ===== src/Doctor/Reader/Listing.antt =====
-- The listing of a directory by `_Reader.entries` and the bounded read, in board-support/e87n/doctor.py.
use edgepi_e87n.Base.{
  ℕ, suc, ◌+◌, ◌-◌, ◌≤◌, Bool, true, ◌&&◌, List, [], ◌∷◌, ◌++◌, some, ◌≡◌, refl, ap, sym, arith,
  length, length-append, leb, if◌then◌else◌, Bytes, Bool-cases, inl, inr, take,
}
use edgepi_e87n.Doctor.{System}
use edgepi_e87n.Doctor.Reader.{insert, sorted, scan, entries, read_chunks, open_path, ◌>>=◌}
use mathlib.Core.List.{append-nil, append_assoc}

-- The names that the pattern selects, in the order of the directory.
pub keep : (Bytes → Bool) → List Bytes → List Bytes
keep pattern [] = []
keep pattern (name ∷ names) =
    let rest = keep pattern names in if pattern name then name ∷ rest else rest

length-insert :
    (name : Bytes) (names : List Bytes) → length (insert name names) ≡ suc (length names)
unfolding insert
length-insert name [] = refl
length-insert name (n ∷ names) = ground (arith, length-insert name names)

length-sorted : (names : List Bytes) → length (sorted names) ≡ length names
unfolding sorted
length-sorted [] = refl
length-sorted (name ∷ names) = omega (arith, length-insert name (sorted names), length-sorted names)

-- Whether a directory is within both bounds.
pub fits : (Bytes → Bool) → ℕ → List Bytes → List Bytes → Bool
fits pattern index names listing =
    leb (index + length listing) 256 && leb (length names + length (keep pattern listing)) 64

scan-fits :
    (pattern : Bytes → Bool) (index : ℕ) (names listing : List Bytes)
    → index ≤ 256
    → length names ≤ 64
    → (scan pattern index names listing).1 ≡ fits pattern index names listing
unfolding scan fits keep
scan-fits pattern index names [] i n = ground arith
scan-fits pattern index names (name ∷ listing) i n = elim (Bool-cases (pattern name)) [
  | inl picked ↦ ground (
    arith,
    picked,
    scan-fits pattern (index + 1) (names ++ (name ∷ [])) listing,
    length-append names (name ∷ []),
  )
  | inr passed ↦ ground (arith, passed, scan-fits pattern (index + 1) names listing)
]

scan_names :
    (pattern : Bytes → Bool) (index : ℕ) (names listing : List Bytes)
    → (scan pattern index names listing).1 ≡ true
    → (scan pattern index names listing).0 ≡ sorted (names ++ keep pattern listing)
unfolding scan keep
scan_names pattern index names [] h = ap sorted (sym (append-nil names))
scan_names pattern index names (name ∷ listing) h = elim (Bool-cases (pattern name)) [
  | inl picked ↦ ground (
    arith,
    picked,
    h,
    scan_names pattern (index + 1) (names ++ (name ∷ [])) listing,
    append_assoc names (name ∷ []) (keep pattern listing),
  )
  | inr passed ↦ ground (arith, passed, h, scan_names pattern (index + 1) names listing)
]

scan-le :
    (pattern : Bytes → Bool) (index : ℕ) (names listing : List Bytes)
    → length names ≤ 64
    → length ((scan pattern index names listing).0) ≤ 64
unfolding scan
scan-le pattern index names [] n = omega (arith, length-sorted names)
scan-le pattern index names (name ∷ listing) n = elim (Bool-cases (pattern name)) [
  | inl picked ↦ ground (
    arith,
    picked,
    length-sorted names,
    scan-le pattern (index + 1) (names ++ (name ∷ [])) listing,
    length-append names (name ∷ []),
  )
  | inr passed ↦
      ground (arith, passed, length-sorted names, scan-le pattern (index + 1) names listing)
]

-- What `entries` hands on, of the names that the directory holds: sorted and picked by the pattern.
abbrev pub IsListed : (Bytes → Bool) → List Bytes → List Bytes × Bool → Type 0
IsListed pattern listing (names, complete) =
    (length names ≤ 64)
    × (complete ≡ (leb (length listing) 256 && leb (length (keep pattern listing)) 64))
    × (complete ≡ true → names ≡ sorted (keep pattern listing))

-- A listing never has more than 64 names, and is marked complete exactly when the directory has at most
-- 256 names and at most 64 of them fit the pattern. A complete listing has all the names that fit the
-- pattern, sorted, and no other; nothing is cut off silently.
pub entries-IsListed :
    (system : System) (path : Bytes) (pattern : Bytes → Bool) (name listing : List Bytes)
    → open_path system true path ≡ some name
    → system.listing name ≡ some listing
    → IsListed pattern listing (entries system path pattern)
unfolding entries fits
entries-IsListed system path pattern name listing opened listed =
    let read : (open_path system true path >>= system.listing) ≡ some listing = rw opened listed in
    rw (entries, read)
      (
        scan-le pattern 0 [] listing (omega arith),
        ground (arith, scan-fits pattern 0 [] listing),
        λ h. scan_names pattern 0 [] listing h,
      )

read_chunks-le :
    (limit : ℕ) (got : Bytes) (chunks : List Bytes) (content : Bytes)
    → read_chunks limit got chunks ≡ some content
    → length content ≤ limit
unfolding read_chunks
read_chunks-le limit got [] content h = ground arith
read_chunks-le limit got (chunk ∷ chunks) content h =
    ground
      (arith, h, read_chunks-le limit (got ++ take (limit + 1 - length got) chunk) chunks content)

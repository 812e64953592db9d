-- ===== src/Release/Mirror.antt =====
-- What `check_remote_assets` of scripts/ci-publish-release.py establishes about the assets of a release.
use Prim.Native.String.{◌++◌ as concat}
use mathlib.Core.Option.{some-injective}
use edgepi_e87n.Base.{
  ℕ, suc, ◌≤◌, String, true, false, List, [], ◌∷◌, Option, none, some, ◌≡◌, refl, ap, sym, subst,
  ◌∙◌, arith, length, elem, distinct, subset, ◌≈◌, ≈_iff, ≈_refl, ◌==◌, ok, bind-eq-ok, require,
  if◌then◌else◌, Bool-cases, inl, inr, Option-cases,
}
use edgepi_e87n.Json.{num, pos, negsuc, null, float, bool, Value, obj, arr, str, Fields}
use edgepi_e87n.Release.{invalid, AssetFile}
use edgepi_e87n.Release.Publish.{names_of}
use edgepi_e87n.Release.Checks.{
  values, get_value, is_str, is_nat, is_digest, find_file, check_named, text_of, check_asset,
  check_assets, check_asset_list,
}

without : String → List String → List String
without name [] = []
without name (n ∷ names) = let rest = without name names in if name ≈ n then names else n ∷ rest

length-without :
    (name : String) (names : List String)
    → elem name names ≡ true
    → length names ≡ suc (length (without name names))
unfolding without
length-without name [] h = cc
length-without name (n ∷ names) h = ground (arith, length-without name names)

elem-without :
    (name other : String) (names : List String)
    → elem other names ≡ true
    → (other ≈ name) ≡ false
    → elem other (without name names) ≡ true
unfolding without
elem-without name other [] h d = cc
elem-without name other (n ∷ names) h d =
    ground (arith, elem-without name other names, ≈_iff name n, ≈_iff other n, ≈_iff other name)

subset-without :
    (name : String) (some' names : List String)
    → elem name some' ≡ false
    → subset some' names ≡ true
    → subset some' (without name names) ≡ true
subset-without name [] names d h = refl
subset-without name (s ∷ some') names d h =
    ground (
      arith,
      subset-without name some' names,
      elem-without name s names,
      ≈_iff name s,
      ≈_iff s name,
    )

length-subset :
    (some' names : List String)
    → distinct some' ≡ true
    → subset some' names ≡ true
    → length some' ≤ length names
length-subset [] names d h = omega arith
length-subset (s ∷ some') names d h = ground (
  arith,
  length-subset some' (without s names),
  subset-without s some' names,
  length-without s names,
)

-- As many different names as there are names: each of them is there.
elem-all :
    (some' names : List String) (name : String)
    → distinct some' ≡ true
    → subset some' names ≡ true
    → length names ≤ length some'
    → elem name names ≡ true
    → elem name some' ≡ true
elem-all some' names name d h long m = elim (Bool-cases (elem name some')) [
  | inl there ↦ there
  | inr gone ↦
      absurd (omega (arith, long, length-subset (name ∷ some') names (ground arith) (ground arith)))
]

name_of : Value → String
name_of (obj fs) = elim (text_of (get_value "name" fs)) [ none ↦ "" | some name ↦ name ]
name_of _ = ""

asset_names : List Value → List String
asset_names [] = []
asset_names (v ∷ vs) = name_of v ∷ asset_names vs

pub find_asset : String → List Value → Option Value
find_asset name [] = none
find_asset name (v ∷ vs) =
    let rest = find_asset name vs in if name ≈ name_of v then some v else rest

-- The asset is the file: the service holds all of it, with this size and this SHA-256.
abbrev pub IsStored : AssetFile → Option Value → Type 0
IsStored f (some (obj fs)) =
    (get_value "digest" fs ≡ str (concat "sha256:" (f.sha256)))
    × (get_value "size" fs ≡ num (pos (f.size)))
    × (get_value "state" fs ≡ str "uploaded")
IsStored f _ = ⊥

abbrev pub IsHosted : String → AssetFile → Option Value → Type 0
IsHosted name f (some (arr assets)) = IsStored f (find_asset name (values assets))
IsHosted name f _ = ⊥

is_str_eq : (s : String) (v : Value) → is_str s v ≡ true → v ≡ str s
unfolding is_str
is_str_eq s (str t) h = ap str ((≈_iff t s).0 h)
is_str_eq s (num n) h = cc
is_str_eq s (float f) h = cc
is_str_eq s (bool b) h = cc
is_str_eq s (obj fs) h = cc
is_str_eq s (arr is) h = cc
is_str_eq s null h = cc

is_nat_eq : (n : ℕ) (v : Value) → is_nat n v ≡ true → v ≡ num (pos n)
unfolding is_nat
is_nat_eq n (num (pos m)) h = ground arith
is_nat_eq n (num (negsuc m)) h = cc
is_nat_eq n (str t) h = cc
is_nat_eq n (float f) h = cc
is_nat_eq n (bool b) h = cc
is_nat_eq n (obj fs) h = cc
is_nat_eq n (arr is) h = cc
is_nat_eq n null h = cc

check_named_lem :
    (files : List AssetFile) (seen : List String) (fs : Fields) (name same : String)
    → check_named files seen fs name ≡ ok same
    → (f : AssetFile) × (find_file name files ≡ some f)
      × (elem name seen ≡ false)
      × (same ≡ name)
      × IsStored f (some (obj fs))
unfolding check_named is_digest
check_named_lem files seen fs name same h = elim (Option-cases (find_file name files)) [
  | inl none' ↦ absurd (ground (arith, none'))
  | inr (f, found) ↦ (
    f,
    found,
    ground (arith, found),
    ground (arith, found),
    (
      is_str_eq (concat "sha256:" (f.sha256)) (get_value "digest" fs) (ground (arith, found)),
      is_nat_eq (f.size) (get_value "size" fs) (ground (arith, found)),
      is_str_eq "uploaded" (get_value "state" fs) (ground (arith, found)),
    ),
  )
]

-- One asset that was accepted.
check_asset-IsStored :
    (files : List AssetFile) (seen : List String) (v : Value) (name : String)
    → check_asset files seen v ≡ ok name
    → (f : AssetFile) × (find_file name files ≡ some f)
      × (elem name seen ≡ false)
      × (name_of v ≡ name)
      × IsStored f (some v)
unfolding check_asset name_of
check_asset-IsStored files seen (obj fs) name h =
    elim (Option-cases (text_of (get_value "name" fs))) [
      | inl none' ↦ absurd (ground (arith, none'))
      | inr (n, named) ↦
          let (f, found, new, same, stored) =
            check_named_lem files seen fs n name (rw named at h) in
          (f, cc, cc, cc, stored)
    ]
check_asset-IsStored files seen (str t) name h = cc
check_asset-IsStored files seen (num n) name h = cc
check_asset-IsStored files seen (float f) name h = cc
check_asset-IsStored files seen (bool b) name h = cc
check_asset-IsStored files seen (arr is) name h = cc
check_asset-IsStored files seen null name h = cc

find_file-elem :
    (name : String) (files : List AssetFile) (f : AssetFile)
    → find_file name files ≡ some f
    → elem name (names_of files) ≡ true
unfolding find_file names_of
find_file-elem name [] f h = cc
find_file-elem name (g ∷ files) f h = ground (arith, find_file-elem name files f)

-- A name that was seen does not come again.
check_assets-new :
    (files : List AssetFile) (seen : List String) (vs : List Value) (name : String)
    → check_assets files seen vs ≡ ok tt
    → elem name seen ≡ true
    → elem name (asset_names vs) ≡ false
unfolding check_assets asset_names
check_assets-new files seen [] name h m = refl
check_assets-new files seen (v ∷ vs) name h m =
    let (n, first, rest) = bind-eq-ok (check_asset files seen v) _ h in
    let (f, found, new, same, stored) = check_asset-IsStored files seen v n first in
    ground (arith, same, new, m, ≈_iff name n, check_assets-new files (n ∷ seen) vs name rest)

-- All the assets that were accepted: different ones, each of them a file.
check_assets-distinct :
    (files : List AssetFile) (seen : List String) (vs : List Value)
    → check_assets files seen vs ≡ ok tt
    → (distinct (asset_names vs) ≡ true)
      × (subset (asset_names vs) (names_of files) ≡ true)
      × (length (asset_names vs) ≡ length vs)
unfolding check_assets asset_names
check_assets-distinct files seen [] h = (refl, refl, refl)
check_assets-distinct files seen (v ∷ vs) h =
    let (n, first, rest) = bind-eq-ok (check_asset files seen v) _ h in
    let (f, found, new, same, stored) = check_asset-IsStored files seen v n first in
    let (other, inside, long) = check_assets-distinct files (n ∷ seen) vs rest in
    let fresh = check_assets-new files (n ∷ seen) vs n rest (ground (arith, ≈_refl n)) in
    (
      ground (arith, same, fresh, other),
      ground (arith, same, inside, find_file-elem n files f found),
      omega (arith, long),
    )

-- The asset of a name, among those that were accepted, is the file of that name.
find_asset-IsStored :
    (files : List AssetFile) (seen : List String) (vs : List Value) (name : String) (f : AssetFile)
    → check_assets files seen vs ≡ ok tt
    → elem name (asset_names vs) ≡ true
    → find_file name files ≡ some f
    → IsStored f (find_asset name vs)
unfolding check_assets asset_names find_asset
find_asset-IsStored files seen [] name f h m e = absurd (ground (arith, m))
find_asset-IsStored files seen (v ∷ vs) name f h m e =
    let (n, first, rest) = bind-eq-ok (check_asset files seen v) _ h in
    let (g, found, new, same, stored) = check_asset-IsStored files seen v n first in
    elim (Bool-cases (name ≈ name_of v)) [
      | inl here ↦
          let file : g ≡ f = some-injective g f (
            sym found
            ∙ ap (λ (s : String). find_file s files)
                (sym same ∙ sym ((≈_iff name (name_of v)).0 here))
            ∙ e) in
          rw here (subst (λ (k : AssetFile). IsStored k (some v)) file stored)
      | inr later ↦
          rw later
            (find_asset-IsStored files (n ∷ seen) vs name f rest (ground (arith, later, m)) e)
    ]

length-names_of : (files : List AssetFile) → length (names_of files) ≡ length files
unfolding names_of
length-names_of [] = refl
length-names_of (f ∷ files) = omega (arith, length-names_of files)

-- When the comparison of the assets of a release succeeds, the service holds every one of the files: the
-- first asset of that name is uploaded, and has the file's size and SHA-256. No file is left out, because
-- the assets are as many as the files and their names differ.
pub check_asset_list-IsHosted :
    (files : List AssetFile) (answer : Option Value) (name : String) (f : AssetFile)
    → check_asset_list files answer ≡ ok tt
    → find_file name files ≡ some f
    → IsHosted name f answer
unfolding check_asset_list
check_asset_list-IsHosted files (some (arr is)) name f h e =
    let (u, long, checked) =
      bind-eq-ok
        (require (length (values is) == length files) (invalid "Remote asset count mismatch")) _
        h in
    let (other, inside, same) = check_assets-distinct files [] (values is) checked in
    let enough : length (names_of files) ≤ length (asset_names (values is)) =
      ground (arith, long, same, length-names_of files) in
    find_asset-IsStored files [] (values is) name f checked
      (elem-all _ (names_of files) name other inside enough (find_file-elem name files f e)) e
check_asset_list-IsHosted files none name f h e = absurd (ground (arith, h))
check_asset_list-IsHosted files (some (str t)) name f h e = absurd (ground (arith, h))
check_asset_list-IsHosted files (some (num n)) name f h e = absurd (ground (arith, h))
check_asset_list-IsHosted files (some (float t)) name f h e = absurd (ground (arith, h))
check_asset_list-IsHosted files (some (bool t)) name f h e = absurd (ground (arith, h))
check_asset_list-IsHosted files (some (obj t)) name f h e = absurd (ground (arith, h))
check_asset_list-IsHosted files (some null) name f h e = absurd (ground (arith, h))

-- ===== src/Release/Staging.antt =====
-- `validate_assets` of scripts/ci-publish-release.py: the directory of a release before it is published.
pub mod Single
use Prim.Native.String.{◌++◌ as concat}
use edgepi_e87n.Base.{
  ℕ, suc, ◌+◌, ◌-◌, String, Bool, true, false, not, ◌&&◌, ◌||◌, List, [], ◌∷◌, ◌++◌, Option, none,
  some, ltb, ◌==◌, if◌then◌else◌, length, all, any, take, drop, Bytes, ◌=ᵇ◌, starts_with, codes,
  lines, elem, same_set, Result, ok, err, ◌>>=◌, ◌>>◌, require, or_raise, ◌≈◌,
}
use edgepi_e87n.Json.{Value, obj, arr, nil, str, Fields}
use edgepi_e87n.Release.{ReleaseError, invalid, type_error, key_error, AssetFile}
use edgepi_e87n.Release.Texts.{is_alnum, is_hex, ends_in, contains, is_display_package}
use edgepi_e87n.Release.Checks.{get_value, is_str, find_file}
use edgepi_e87n.Release.Publish.{names_of}
use edgepi_e87n.Release.Identity.{Versions, display_version, image_filename, display_filename}

-- A name of the directory, in the order of `sorted`: what lstat says, the SHA-256, and the text.
pub record Entry : Type 0 where
  pub name : String
  pub is_regular : Bool
  pub device : ℕ
  pub inode : ℕ
  pub size : ℕ
  pub sha256 : String
  pub content : Bytes

pub record Directory : Type 0 where
  pub path : Bytes
  pub has_symlink : Bool
  pub is_directory : Bool
  pub entries : List Entry

-- A key and the text that a document has to give it.
pub record Pair : Type 0 where
  pub key : String
  pub value : String

-- What the build configuration pins, and what the readers of the two documents give; `report_is_valid`
-- is verify_report of ci-simulation.py, for the digests of the firmware and of the package.
pub record Policy : Type 0 where
  pub versions : Versions
  pub build : List Pair
  pub target : List Pair
  pub factory_format : String
  pub load_metadata : Bytes → Option Value
  pub report_is_valid : Bytes → String → String → String → Value → Value → Bool

-- [A-Za-z0-9._+~-]
unfoldable pub is_asset_char : ℕ → Bool
is_asset_char c = is_alnum c || c == b'.' || c == b'_' || c == b'+' || c == b'~' || c == b'-'

unfoldable pub is_asset_name : Bytes → Bool
is_asset_name [] = false
is_asset_name (c ∷ cs) = is_alnum c && all is_asset_char cs && not (contains (codes "..") (c ∷ cs))

unfoldable pub same_file : Entry → Entry → Bool
same_file a b = a.device == b.device && a.inode == b.inode

-- the loop over the directory; `seen` holds the entries before, for their inodes
unfoldable pub check_entries : List Entry → List Entry → Result ReleaseError (List AssetFile)
check_entries seen [] = ok []
check_entries seen (e ∷ entries) = do
  require (is_asset_name (codes (Entry.name e)) && e.is_regular)
      (invalid "Assets must be safe, regular top-level files")
  require (not (any (same_file e) seen)) (invalid "Duplicate asset file")
  files ← check_entries (e ∷ seen) entries
  ok (record { name = Entry.name e; size = Entry.size e; sha256 = Entry.sha256 e } ∷ files)

unfoldable pub select : (Bytes → Bool) → List String → List String
select test [] = []
select test (n ∷ names) = let rest = select test names in if test (codes n) then n ∷ rest else rest

unfoldable pub images_of : List String → List String
images_of names = select (ends_in (codes ".tar")) names

unfoldable pub packages_of : List String → List String
packages_of [] = []
packages_of (n ∷ names) =
    let rest = packages_of names in if is_display_package n then n ∷ rest else rest

unfoldable pub fixed : String → List String
fixed kind =
    if kind ≈ "image"
    then "image-build-metadata.json" ∷ "kernel-packages.tar.xz" ∷ "build-evidence.tar.xz"
      ∷ "RELEASE-NOTES.md" ∷ "SHA256SUMS" ∷ "simulation-result.json" ∷ []
    else "display-build-metadata.json" ∷ "build-evidence.tar.xz" ∷ "RELEASE-NOTES.md" ∷ "SHA256SUMS"
      ∷ []

-- names == {expected}, for a set of names and a text
unfoldable pub is_only : List String → Bytes → Bool
is_only (n ∷ []) expected = codes n =ᵇ expected
is_only _ expected = false

unfoldable pub is_empty : List String → Bool
is_empty [] = true
is_empty (n ∷ names) = false

-- the payload that a kind of release has, and no other
unfoldable pub check_payload :
    Versions → String → List String → List String → Result ReleaseError (Unit {0})
check_payload versions kind images packages =
    let image_case = (do
      deb ← display_filename versions
      image ← image_filename versions
      require (is_only images image && is_only packages deb) (
          invalid
            "Image staging requires the versioned firmware tar and current tested display package")) in
    let display_case = (do
      deb ← display_filename versions
      require (is_empty images && is_only packages deb)
          (invalid "Display staging requires exactly the current versioned display package")) in
    if kind ≈ "image" then image_case else display_case

-- A line of SHA256SUMS: ([0-9a-fA-F]{64}) [ *]([A-Za-z0-9][A-Za-z0-9._+~-]*)
pub record Sum : Type 0 where
  pub digest : Bytes
  pub name : Bytes

unfoldable pub lower_hex : ℕ → ℕ
lower_hex c = if ltb 64 c && ltb c 91 then c + 32 else c

unfoldable pub lowered : Bytes → Bytes
lowered [] = []
lowered (c ∷ cs) = lower_hex c ∷ lowered cs

unfoldable pub sum_line : Bytes → Option Sum
sum_line line =
    let name = drop 66 line in
    if length (take 64 line) == 64
      && all is_hex (take 64 line)
      && (starts_with (codes "  ") (drop 64 line) || starts_with (codes " *") (drop 64 line))
      && is_asset_name name
    then some record { digest = lowered (take 64 line); name = name }
    else none

unfoldable pub has_sum : Bytes → List Sum → Bool
has_sum name sums = any (λ s. Sum.name s =ᵇ name) sums

-- the loop over the manifest
unfoldable pub check_lines : List Sum → List Bytes → Result ReleaseError (List Sum)
check_lines sums [] = ok sums
check_lines sums (line ∷ rest) = do
  s ← or_raise (sum_line line) (invalid "Invalid checksum manifest entry")
  require (not (has_sum (Sum.name s) sums)) (invalid "Duplicate checksum manifest entry")
  check_lines (s ∷ sums) rest

-- set(manifest) == set(files) - {"SHA256SUMS"}
unfoldable pub is_covered : List Sum → List AssetFile → Bool
is_covered sums files =
    all (λ f. has_sum (codes (AssetFile.name f)) sums || AssetFile.name f ≈ "SHA256SUMS") files
    && all
        (λ s.
          any (λ f. Sum.name s =ᵇ codes (AssetFile.name f) && not (AssetFile.name f ≈ "SHA256SUMS"))
            files)
        sums

-- all(files[name][2] == sha for name, sha in manifest.items())
unfoldable pub are_equal : List Sum → List AssetFile → Bool
are_equal sums files =
    all
      (λ s.
        all
          (λ f.
            not (Sum.name s =ᵇ codes (AssetFile.name f))
            || Sum.digest s =ᵇ codes (AssetFile.sha256 f))
          files)
      sums

unfoldable pub has_pairs : List Pair → Fields → Bool
has_pairs pairs fs = all (λ p. is_str (Pair.value p) (get_value (Pair.key p) fs)) pairs

unfoldable pub has_target : List Pair → Value → Bool
has_target pairs (obj fs) = has_pairs pairs fs
has_target pairs _ = false

unfoldable pub is_empty_list : Value → Bool
is_empty_list (arr nil) = true
is_empty_list _ = false

-- value == text
unfoldable pub is_text : Bytes → Value → Bool
is_text expected (str s) = codes s =ᵇ expected
is_text expected _ = false

unfoldable pub check_metadata : Policy → String → String → Option Value → Result ReleaseError Fields
check_metadata policy source_commit kind (some (obj fs)) = do
  require
      (is_str kind (get_value "kind" fs)
        && is_str "success" (get_value "build_step_outcome" fs)
        && is_str source_commit (get_value "source_commit" fs)
        && has_target policy.target (get_value "target" fs)
        && is_empty_list (get_value "collection_errors" fs))
      (invalid "Build metadata is not a successful current-source target")
  version ← display_version (Versions.display policy.versions)
  require (is_text version (get_value "display_version_source" fs))
      (invalid "Build metadata display version mismatch")
  require (not (kind ≈ "image") || is_str "passed" (get_value "image_static_audit" fs))
      (invalid "Image audit has not passed")
  require (not (kind ≈ "display") || is_str "not applicable" (get_value "image_static_audit" fs))
      (invalid "Display metadata has an invalid image audit state")
  require (has_pairs policy.build fs) (invalid "Build source configuration mismatch")
  require (not (kind ≈ "image") || is_str policy.factory_format (get_value "factory_format" fs))
      (invalid "Factory firmware format mismatch")
  require (not (kind ≈ "image") || is_str "passed" (get_value "factory_static_audit" fs))
      (invalid "Factory firmware audit has not passed")
  require (not (kind ≈ "image") || is_str "passed" (get_value "simulation_validation" fs))
      (invalid "Same-build simulation has not passed")
  ok fs
check_metadata policy source_commit kind _ =
    err (invalid "Build metadata is not a successful current-source target")

unfoldable pub entry_of : String → List Entry → Option Entry
entry_of name [] = none
entry_of name (e ∷ entries) = if name ≈ Entry.name e then some e else entry_of name entries

-- all(files[name][1] > 0 for name in expected_payloads)
unfoldable pub are_filled : List String → List AssetFile → Bool
are_filled payloads files =
    all (λ f. not (elem (AssetFile.name f) payloads) || ltb 0 (AssetFile.size f)) files

unfoldable pub sha_of : List String → List AssetFile → String
sha_of [] files = ""
sha_of (n ∷ names) files = elim (find_file n files) [ none ↦ "" | some f ↦ AssetFile.sha256 f ]

unfoldable pub metadata_file : String → String
metadata_file kind = concat kind "-build-metadata.json"

unfoldable pub check_manifest : List AssetFile → Bytes → Result ReleaseError (Unit {0})
check_manifest files content = do
  sums ← check_lines [] (lines content)
  require (is_covered sums files) (invalid "Checksum manifest coverage mismatch")
  require (are_equal sums files) (invalid "Asset checksum mismatch")

unfoldable pub check_report :
    Policy → String → String → List Entry → List AssetFile → Fields → Result ReleaseError (Unit {0})
check_report policy source_commit kind entries files metadata =
    let names = names_of files in
    let checked = (do
      e ← or_raise (entry_of "simulation-result.json" entries) key_error
      require
          (policy.report_is_valid (Entry.content e) (sha_of (images_of names) files)
            (sha_of (packages_of names) files) source_commit (get_value "run_id" metadata)
            (get_value "run_attempt" metadata))
          (invalid "simulation evidence")) in
    if kind ≈ "image" then checked else ok tt

-- c in "#\r\n*?[]"
unfoldable pub is_glob : ℕ → Bool
is_glob c = c == 35 || c == 13 || c == 10 || c == 42 || c == 63 || c == 91 || c == 93

unfoldable pub check_root : Directory → Result ReleaseError (Unit {0})
check_root directory = do
  require (not directory.has_symlink) (invalid "Asset directory contains a symlink")
  require (directory.is_directory && not (any is_glob directory.path))
      (invalid "Invalid asset directory")

unfoldable pub check_names : String → List AssetFile → Result ReleaseError (Unit {0})
check_names kind files =
    let names = names_of files in
    let payloads = images_of names ++ packages_of names in
    do
      require (same_set names (fixed kind ++ payloads))
          (invalid "Missing, duplicate, or unexpected release assets")
      require (are_filled payloads files) (invalid "Empty release payload")

-- the checks of validate_assets behind the listing
unfoldable pub audit :
    Policy → Directory → String → String → List AssetFile → Result ReleaseError (Unit {0})
audit policy directory source_commit kind files = do
  check_payload policy.versions kind (images_of (names_of files)) (packages_of (names_of files))
  check_names kind files
  sums ← or_raise (entry_of "SHA256SUMS" directory.entries) key_error
  check_manifest files (Entry.content sums)
  e ← or_raise (entry_of (metadata_file kind) directory.entries) key_error
  metadata ← check_metadata policy source_commit kind (policy.load_metadata (Entry.content e))
  check_report policy source_commit kind directory.entries files metadata

unfoldable pub validate_assets :
    Policy → Directory → String → String → Result ReleaseError (List AssetFile)
validate_assets policy directory source_commit kind = do
  require (kind ≈ "image" || kind ≈ "display") (invalid "Invalid release kind")
  check_root directory
  files ← check_entries [] directory.entries
  audit policy directory source_commit kind files
  ok files

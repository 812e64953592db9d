-- ===== src/Initramfs/Verify.antt =====
-- `verify` of scripts/verify-initramfs.py, over the texts of its files.
pub mod Sound
use edgepi_e87n.Base.{
  ℕ, Bool, true, false, not, ◌&&◌, ◌||◌, List, [], ◌∷◌, ◌++◌, Option, none, some, leb, ◌==◌,
  if◌then◌else◌, length, drop, all, Bytes, ◌=ᵇ◌, bytes_elem, starts_with, codes, lines, is_digit,
  Result, ok, err, ◌>>=◌, ◌>>◌, require, String, ◌≡◌, bind-eq-ok, refl, arith, sym, ◌∙◌, subst,
  Bool-cases, inl, inr,
}
use edgepi_e87n.Initramfs.{
  InitramfsError, one_config, bad_release, no_init, no_modules, missing_metadata,
}
use edgepi_e87n.Initramfs.Listing.{
  Setting, read_options, check_drivers, is_set, drivers, requested, Listed, read_listing, read_deps,
}
use edgepi_e87n.Initramfs.Search.{Needs, search}
use edgepi_e87n.Initramfs.Search.Complete.{is_provided, search-is_provided}

-- The names in the boot directory, and the texts of the configuration, the listing and modules.dep.
pub record Files : Type 0 where
  pub boot_names : List Bytes
  pub config : Bytes
  pub listing : Bytes
  pub modules_dep : Bytes

unfoldable pub configs_of : List Bytes → List Bytes
configs_of [] = []
configs_of (name ∷ names) =
    let rest = configs_of names in if starts_with (codes "config-") name then name ∷ rest else rest

-- configs[0][len("config-"):], where there is one
unfoldable pub release_of : List Bytes → Result InitramfsError Bytes
release_of (name ∷ []) = ok (drop 7 name)
release_of _ = err one_config

unfoldable pub is_alnum : ℕ → Bool
is_alnum c = is_digit c || (leb 65 c && leb c 90) || (leb 97 c && leb c 122)

-- [A-Za-z0-9][A-Za-z0-9_.+\-]*
unfoldable pub is_release : Bytes → Bool
is_release [] = false
is_release (c ∷ cs) =
    is_alnum c && all (λ d. is_alnum d || d == b'_' || d == b'.' || d == b'+' || d == b'-') cs

unfoldable pub has_metadata : Bytes → String → List Bytes → Bool
has_metadata release metadata names =
    let path = codes "lib/modules/" ++ (release ++ (codes "/" ++ codes metadata)) in
    bytes_elem path names || bytes_elem (path ++ codes ".bin") names

-- the checks where a driver is a module, and the modules that are required
unfoldable pub check_modules :
    Bytes → Files → List Setting → Listed → List Bytes → Result InitramfsError (List Bytes)
check_modules release files options listed names = do
  require (is_set "y" (codes "MODULES") options) no_modules
  require (has_metadata release "modules.dep" listed.names) missing_metadata
  require (has_metadata release "modules.alias" listed.names) missing_metadata
  graph ← read_deps (lines files.modules_dep) []
  search listed.modules graph names

-- The modules that were verified; none where all drivers are built in.
unfoldable pub verify : Files → Result InitramfsError (List Bytes)
verify files = do
  release ← release_of (configs_of files.boot_names)
  require (is_release release) bad_release
  options ← read_options (lines files.config) []
  check_drivers options
  listed ← read_listing release (lines files.listing) record { names = []; modules = [] }
  require (bytes_elem (codes "init") listed.names) no_init
  let names : List Bytes = requested options drivers
  elim names [ [] ↦ ok [] | n ∷ rest ↦ check_modules release files options listed (n ∷ rest) ]

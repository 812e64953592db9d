-- ===== src/Initramfs/Verify/Sound.antt =====
-- What `verify` of scripts/verify-initramfs.py establishes.
use edgepi_e87n.Base.{
  true, List, [], ◌∷◌, all, Bytes, bytes_elem, codes, lines, Result, ok, require, ◌≡◌, refl,
  bind-eq-ok, arith, ◌⊎◌, inl, inr,
}
use edgepi_e87n.Initramfs.{InitramfsError, bad_release, no_init, no_modules, missing_metadata}
use edgepi_e87n.Initramfs.Listing.{
  Setting, read_options, check_drivers, is_set, drivers, requested, Listed, read_listing, read_deps,
}
use edgepi_e87n.Initramfs.Search.{Needs}
use edgepi_e87n.Initramfs.Search.Complete.{is_provided, search-is_provided}
use edgepi_e87n.Initramfs.Verify.{
  Files, configs_of, release_of, is_release, has_metadata, check_modules, verify,
}

-- The required modules are in `seen`, and so is what each module of `seen` needs; the listing has
-- all of them, and modules.dep their entries.
abbrev pub IsProvided : List Bytes → List Needs → List Bytes → List Bytes → Type 0
IsProvided modules graph names seen =
    (all (λ n. bytes_elem n seen) names ≡ true)
    × (all (is_provided modules graph (λ n. bytes_elem n seen)) seen ≡ true)

-- What was verified, by the texts of the files: nothing where no driver is a module, else the modules
-- of the entries that modules.dep has.
abbrev pub IsVerified : Files → Listed → List Bytes → List Bytes → Type 0
IsVerified files listed names seen =
    ((names ≡ []) × (seen ≡ []))
    ⊎ ((graph : List Needs) × (read_deps (lines files.modules_dep) [] ≡ ok graph)
        × IsProvided listed.modules graph names seen)

check_modules-IsProvided :
    (release : Bytes) (files : Files) (options : List Setting) (listed : Listed)
    (names seen : List Bytes)
    → check_modules release files options listed names ≡ ok seen
    → IsVerified files listed names seen
unfolding check_modules
check_modules-IsProvided release files options listed names seen h =
    let (u₁, built, h₁) =
      bind-eq-ok (require (is_set "y" (codes "MODULES") options) no_modules) _ h in
    let (u₂, dep, h₂) =
      bind-eq-ok (require (has_metadata release "modules.dep" listed.names) missing_metadata) _
        h₁ in
    let (u₃, alias, h₃) =
      bind-eq-ok (require (has_metadata release "modules.alias" listed.names) missing_metadata) _
        h₂ in
    let (graph, read, h₄) = bind-eq-ok (read_deps (lines files.modules_dep) []) _ h₃ in
    inr (graph, read, search-is_provided listed.modules graph names seen h₄)

chosen-IsProvided :
    (release : Bytes) (files : Files) (options : List Setting) (listed : Listed)
    (names seen : List Bytes)
    → (elim names as (λ x. Result InitramfsError (List Bytes)) [
      | [] ↦ ok []
      | n ∷ rest ↦ check_modules release files options listed (n ∷ rest)
    ])
      ≡ ok seen
    → IsVerified files listed names seen
chosen-IsProvided release files options listed [] seen h = inl (refl, ground (arith, h))
chosen-IsProvided release files options listed (n ∷ rest) seen h =
    check_modules-IsProvided release files options listed (n ∷ rest) seen h

-- If the verification of an initramfs succeeds, then with the options of the kernel configuration, the
-- release in its name, and the modules of the listing for this release: if no driver is built as a
-- module, nothing was verified. Else, with the dependencies that modules.dep gives, every driver that is
-- built as a module is among the modules that were verified, and with each of these the listing has
-- the module, and modules.dep has an entry whose dependencies were verified too.
pub verify-IsProvided :
    (files : Files) (seen : List Bytes)
    → verify files ≡ ok seen
    → (options : List Setting) × (release : Bytes) × (listed : Listed) × (release_of
          (configs_of files.boot_names)
        ≡ ok release)
      × (read_options (lines files.config) [] ≡ ok options)
      × (read_listing release (lines files.listing) (record { names = []; modules = [] })
          ≡ ok listed)
      × IsVerified files listed (requested options drivers) seen
unfolding verify
verify-IsProvided files seen h =
    let (release, only, h₁) = bind-eq-ok (release_of (configs_of files.boot_names)) _ h in
    let (u₁, named, h₂) = bind-eq-ok (require (is_release release) bad_release) _ h₁ in
    let (options, read, h₃) = bind-eq-ok (read_options (lines files.config) []) _ h₂ in
    let (u₂, driven, h₄) = bind-eq-ok (check_drivers options) _ h₃ in
    let (listed, found, h₅) =
      bind-eq-ok (read_listing release (lines files.listing) (record { names = []; modules = [] }))
        _ h₄ in
    let (u₃, init, h₆) =
      bind-eq-ok (require (bytes_elem (codes "init") listed.names) no_init) _ h₅ in
    (
      options,
      release,
      listed,
      only,
      read,
      found,
      chosen-IsProvided release files options listed (requested options drivers) seen h₆,
    )

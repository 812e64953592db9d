-- ===== src/Release/Staging/Single.antt =====
-- What `validate_assets` of scripts/ci-publish-release.py means for `publish`.
use edgepi_e87n.Base.{
  String, Bool, true, false, ◌&&◌, ◌||◌, List, [], ◌∷◌, ◌≡◌, refl, ◌∙◌, subst, sym, arith, length,
  Bytes, ◌≈◌, ≈_iff, ok, &&_true, require, bind-eq-ok, Bool-cases, inl, inr,
}
use edgepi_e87n.Release.{ReleaseError, invalid, AssetFile}
use edgepi_e87n.Release.Identity.{Versions, display_filename, image_filename}
use edgepi_e87n.Release.Publish.{names_of, is_download, downloads_of}
use edgepi_e87n.Release.Staging.{
  Directory, Policy, check_root, check_entries, check_payload, is_only, is_empty, images_of,
  packages_of, select, audit, validate_assets,
}

image_downloads :
    (files : List AssetFile)
    → length (downloads_of "image" files) ≡ length (images_of (names_of files))
unfolding downloads_of is_download images_of names_of select
image_downloads [] = refl
image_downloads (f ∷ files) = ground (arith, image_downloads files)

display_downloads :
    (files : List AssetFile)
    → length (downloads_of "display" files) ≡ length (packages_of (names_of files))
unfolding downloads_of is_download packages_of names_of
display_downloads [] = refl
display_downloads (f ∷ files) = ground (arith, display_downloads files)

is_only-length :
    (names : List String) (expected : Bytes) → is_only names expected ≡ true → length names ≡ 1
unfolding is_only
is_only-length [] expected h = cc
is_only-length (n ∷ []) expected h = refl
is_only-length (n ∷ m ∷ names) expected h = cc

require-true : (b : Bool) (e : ReleaseError) → require b e ≡ ok tt → b ≡ true
require-true true e h = refl
require-true false e h = cc

payload_image :
    (versions : Versions) (images packages : List String)
    → check_payload versions "image" images packages ≡ ok tt
    → length images ≡ 1
unfolding check_payload
payload_image versions images packages h =
    let (deb, named, h₁) = bind-eq-ok (display_filename versions) _ h in
    let (image, known, h₂) = bind-eq-ok (image_filename versions) _ h₁ in
    is_only-length images image
      (&&_true _ _ (require-true (is_only images image && is_only packages deb) _ h₂)).0

payload_display :
    (versions : Versions) (images packages : List String)
    → check_payload versions "display" images packages ≡ ok tt
    → length packages ≡ 1
unfolding check_payload
payload_display versions images packages h =
    let (deb, named, h₁) = bind-eq-ok (display_filename versions) _ h in
    is_only-length packages deb
      (&&_true _ _ (require-true (is_empty images && is_only packages deb) _ h₁)).1

single :
    (versions : Versions) (kind : String) (files : List AssetFile)
    → (kind ≈ "image" || kind ≈ "display") ≡ true
    → check_payload versions kind (images_of (names_of files)) (packages_of (names_of files))
      ≡ ok tt
    → length (downloads_of kind files) ≡ 1
single versions kind files known h = elim (Bool-cases (kind ≈ "image")) [
  | inl image ↦
      let same = sym ((≈_iff kind "image").0 image) in
      subst (λ (k : String). length (downloads_of k files) ≡ 1) same
        (image_downloads files
          ∙ payload_image versions _ (packages_of (names_of files)) (
              subst
                (λ (k : String).
                  check_payload versions k (images_of (names_of files))
                    (packages_of (names_of files))
                  ≡ ok tt)
                (sym same) h))
  | inr other ↦
      let same = sym ((≈_iff kind "display").0 (ground (arith, known, other))) in
      subst (λ (k : String). length (downloads_of k files) ≡ 1) same
        (display_downloads files
          ∙ payload_display versions (images_of (names_of files)) _ (
              subst
                (λ (k : String).
                  check_payload versions k (images_of (names_of files))
                    (packages_of (names_of files))
                  ≡ ok tt)
                (sym same) h))
]

audited_payload :
    (policy : Policy) (directory : Directory) (source_commit kind : String) (files : List AssetFile)
    → audit policy directory source_commit kind files ≡ ok tt
    → check_payload policy.versions kind (images_of (names_of files)) (packages_of (names_of files))
      ≡ ok tt
unfolding audit
audited_payload policy directory source_commit kind files h =
    let (u, payload, rest) =
      bind-eq-ok
        (check_payload policy.versions kind (images_of (names_of files))
          (packages_of (names_of files)))
        _ h in
    payload

-- A directory that was validated has exactly one file that is published, for either kind of release: the
-- check at the head of the publication does not fail on it.
pub validate_assets-downloads_of :
    (policy : Policy) (directory : Directory) (source_commit kind : String) (files : List AssetFile)
    → validate_assets policy directory source_commit kind ≡ ok files
    → length (downloads_of kind files) ≡ 1
unfolding validate_assets
validate_assets-downloads_of policy directory source_commit kind files h =
    let (u₁, known, h₁) =
      bind-eq-ok (require (kind ≈ "image" || kind ≈ "display") (invalid "Invalid release kind")) _
        h in
    let (u₂, rooted, h₂) = bind-eq-ok (check_root directory) _ h₁ in
    let (found, listed, h₃) = bind-eq-ok (check_entries [] (directory.entries)) _ h₂ in
    let (u₃, audited, same) = bind-eq-ok (audit policy directory source_commit kind found) _ h₃ in
    let payload = audited_payload policy directory source_commit kind found audited in
    let found_is : found ≡ files = ground (arith, same) in
    subst (λ (l : List AssetFile). length (downloads_of kind l) ≡ 1) found_is
      (single policy.versions kind found (require-true _ _ known) payload)

-- ===== src/Release/Publish.antt =====
-- The publication of scripts/ci-publish-release.py: from `create_verified_draft` to `publish`.
use Prim.Native.String.{◌++◌ as concat}
use edgepi_e87n.Base.{
  ℕ, String, Bool, true, false, ◌&&◌, ◌||◌, List, [], ◌∷◌, Option, none, some, ◌==◌, ◌≈◌,
  if◌then◌else◌, length, ok, codes, or_raise,
}
use edgepi_e87n.Json.{Value}
use edgepi_e87n.Release.{
  key_error, create, upload, edit, retag, release_by_id, tag_ref, Service, Args, AssetFile,
}
use edgepi_e87n.Release.Texts.{safe, ends_in, is_display_package}
use edgepi_e87n.Release.Job.{Job, ◌>>=◌, ◌>>◌, pure, require, gh, api}
use edgepi_e87n.Release.Checks.{check_release, find_file}
use edgepi_e87n.Release.Remote.{
  is_none, inspect_existing, delete_identity, find_created_release, check_remote_assets, check_tag,
}

unfoldable pub names_of : List AssetFile → List String
names_of [] = []
names_of (f ∷ files) = f.name ∷ names_of files

unfoldable pub replacement_tag : Args → String
replacement_tag args = concat args.tag (concat "-replacement-" args.replacement_id)

unfoldable pub replacement_args : Args → Args
replacement_args args = record args { tag = replacement_tag args }

-- (kind == "image" and name.endswith(".tar")) or (kind == "display" and ...)
unfoldable pub is_download : String → String → Bool
is_download kind name =
    (kind ≈ "image" && ends_in (codes ".tar") (codes name))
    || (kind ≈ "display" && is_display_package name)

unfoldable pub downloads_of : String → List AssetFile → List AssetFile
downloads_of kind [] = []
downloads_of kind (f ∷ files) =
    let rest = downloads_of kind files in if is_download kind f.name then f ∷ rest else rest

module _ (service : Service) where
  -- check_release(api(args.repository, f"releases/{release_id}"), args, draft, release_id)
  unfoldable pub recheck : Args → Bool → ℕ → Job ℕ
  recheck args draft release_id = do
    release ← api service (release_by_id release_id) false
    pure (check_release service.float_is release args draft (some release_id))

  -- create_verified_draft, from the empty draft on
  unfoldable pub fill_draft : Args → ℕ → List AssetFile → Job ℕ
  fill_draft args release_id downloads = do
    check_remote_assets service release_id []
    gh service (upload args.tag (names_of downloads))
    recheck args true release_id
    check_remote_assets service release_id downloads
    check_tag service args true
    pure (ok release_id)

  unfoldable pub create_verified_draft : Args → List AssetFile → List AssetFile → Job ℕ
  create_verified_draft args files downloads = do
    notes ← pure (or_raise (find_file "RELEASE-NOTES.md" files) key_error)
    gh service (create args.tag args.source_commit (service.title args.kind) (AssetFile.name notes))
    created ← find_created_release service args
    release_id ← pure (check_release service.float_is created args true none)
    fill_draft args release_id downloads

  unfoldable pub publish_draft : Args → ℕ → List AssetFile → Job (Unit {0})
  publish_draft args release_id downloads = do
    gh service (edit args.tag)
    recheck args false release_id
    check_remote_assets service release_id downloads
    check_tag service args false

  unfoldable pub delete_stale : Args → Option Value → Job (Unit {0})
  delete_stale args none = pure (ok tt)
  delete_stale args (some ref) = delete_identity service args (some ref) none

  unfoldable pub replace_public : Args → ℕ → List AssetFile → Job (Unit {0})
  replace_public args release_id downloads = do
    current ← inspect_existing service args
    delete_identity service args (current.0) (current.1)
    gh service (retag (replacement_tag args) args.tag args.source_commit (service.title args.kind))
    recheck args false release_id
    check_remote_assets service release_id downloads
    check_tag service args false

  unfoldable pub publish_replacement : Args → List AssetFile → List AssetFile → Job (Unit {0})
  publish_replacement args files downloads = do
    require (safe (replacement_tag args)) "Invalid replacement release tag"
    there ← inspect_existing service (replacement_args args)
    require (is_none (there.0) && is_none (there.1)) "Replacement release identity already exists"
    release_id ← create_verified_draft (replacement_args args) files downloads
    replace_public args release_id downloads
    stale ← api service (tag_ref (replacement_tag args)) true
    delete_stale (replacement_args args) stale

  unfoldable pub publish_new : Args → List AssetFile → List AssetFile → Job (Unit {0})
  publish_new args files downloads = do
    release_id ← create_verified_draft args files downloads
    publish_draft args release_id downloads

  unfoldable pub publish : Args → List AssetFile → Job (Unit {0})
  publish args files = do
    require (length (downloads_of args.kind files) == 1)
        "Release must contain exactly one public payload"
    elim (args.replace_existing) [
      | true ↦ publish_replacement args files (downloads_of args.kind files)
      | false ↦ publish_new args files (downloads_of args.kind files)
    ]

-- ===== src/Release/Remote.antt =====
-- The jobs of scripts/ci-publish-release.py that look at the service, and those that delete: from `find_release`
-- to `check_tag`.
use edgepi_e87n.Base.{
  ℕ, zero, suc, ◌+◌, String, Bool, true, false, not, ◌&&◌, ◌||◌, List, [], ◌∷◌, ◌++◌, Option, none,
  some, ltb, leb, length, elem, ok, err, ◌≈◌,
}
use edgepi_e87n.Json.{Value, obj, Fields}
use edgepi_e87n.Release.{
  invalid, commits, tag_ref, release_by_tag, release_page, release_by_id, release_assets,
  tag_object, Call, auth_status, view, delete_release, delete_tag, Service, Args, AssetFile,
}
use edgepi_e87n.Release.Job.{Job, ◌>>=◌, ◌>>◌, pure, require, is_zero, captured, gh, api}
use edgepi_e87n.Release.Checks.{
  get_value, is_str, check_asset_list, existing_release, existing_ref, TagObject, object_fields,
  object_of_ref, object_of_tag, page_of, tagged, view_of,
}

unfoldable pub first_of : List Fields → Option Value
first_of [] = none
first_of (fs ∷ fss) = some (obj fs)

-- data is None
unfoldable pub is_none {ℓ} : {A : Type ℓ} → Option A → Bool
is_none none = true
is_none (some a) = false

unfoldable pub is_commit_of : String → Option Value → Bool
is_commit_of sha (some (obj fs)) = is_str sha (get_value "sha" fs)
is_commit_of sha _ = false

module _ (service : Service) where
  -- the loop over the pages: `left` are still allowed, and `page` is the next one
  unfoldable pub find_pages : (left : ℕ) → String → (page : ℕ) → List Fields → Job (Option Value)
  find_pages zero tag page matches =
      pure (err (invalid "Release pagination limit exceeded (20 pages)"))
  find_pages (suc left) tag page matches = do
    answer ← api service (release_page page) false
    fss ← pure (page_of answer)
    require (leb (length (matches ++ tagged tag fss)) 1) "Duplicate releases for tag"
    elim (ltb (length fss) 100) [
      | true ↦ pure (ok (first_of (matches ++ tagged tag fss)))
      | false ↦ find_pages left tag (page + 1) (matches ++ tagged tag fss)
    ]

  unfoldable pub find_release : Args → Job (Option Value)
  find_release args = find_pages 20 args.tag 1 []

  unfoldable pub inspect_existing : Args → Job (Option Value × Option ℕ)
  inspect_existing args = do
    ref ← api service (tag_ref args.tag) true
    published ← api service (release_by_tag args.tag) true
    listed ← find_release args
    release ← pure (existing_release service.float_is args.tag published listed)
    ref' ← pure (existing_ref args.tag ref)
    pure (ok (ref', release))

  -- The precondition of a publication.
  unfoldable pub preflight : Args → Job (Unit {0})
  preflight args = do
    gh service auth_status
    commit ← api service (commits args.source_commit) false
    require (is_commit_of args.source_commit commit) "Source commit mismatch"
    there ← inspect_existing args
    require (args.replace_existing || (is_none (there.0) && is_none (there.1)))
        "Tag or release already exists"

  unfoldable pub delete_api : Call → Job (Unit {0})
  delete_api call = gh service call

  unfoldable pub delete_found : Option ℕ → Job (Unit {0})
  delete_found none = pure (ok tt)
  delete_found (some release_id) = do
    delete_api (delete_release release_id)
    there ← api service (release_by_id release_id) true
    require (is_none there) "Existing release deletion was not confirmed"

  unfoldable pub delete_ref : String → Option Value → Job (Unit {0})
  delete_ref tag none = pure (ok tt)
  delete_ref tag (some ref) = do
    delete_api (delete_tag tag)
    there ← api service (tag_ref tag) true
    require (is_none there) "Existing tag deletion was not confirmed"

  unfoldable pub delete_identity : Args → Option Value → Option ℕ → Job (Unit {0})
  delete_identity args ref release = do delete_found release; delete_ref args.tag ref

  unfoldable pub view_release : Args → Job (Option Value)
  view_release args = do
    result ← captured service (view args.tag)
    elim (is_zero (result.0)) [
      | false ↦ pure (ok none)
      | true ↦ do shown ← pure (view_of (service.json_loads (result.1))); pure (ok (some shown))
    ]

  unfoldable pub or_view : Args → Option Value → Job (Option Value)
  or_view args none = view_release args
  or_view args (some release) = pure (ok (some release))

  unfoldable pub find_created_release : Args → Job (Option Value)
  find_created_release args = do release ← find_release args; or_view args release

  unfoldable pub check_remote_assets : ℕ → List AssetFile → Job (Unit {0})
  check_remote_assets release_id files = do
    assets ← api service (release_assets release_id) false
    pure (check_asset_list files assets)

  -- the loop of check_tag over nested tags, with `seen`
  unfoldable pub check_objects : (left : ℕ) → String → Value → List String → Job (Unit {0})
  check_objects zero commit object seen =
      pure (err (invalid "Annotated tag nesting limit exceeded"))
  check_objects (suc left) commit object seen = do
    o ← pure (object_fields object)
    elim (TagObject.is_commit o) [
      | true ↦ require (TagObject.sha o ≈ commit) "Tag source commit mismatch"
      | false ↦ do
        require (TagObject.is_tag o && not (elem (TagObject.sha o) seen))
            "Invalid or cyclic annotated tag"
        tag ← api service (tag_object (TagObject.sha o)) false
        inner ← pure (object_of_tag (TagObject.sha o) tag)
        check_objects left commit inner (TagObject.sha o ∷ seen)
    ]

  unfoldable pub check_ref : Args → Bool → Option Value → Job (Unit {0})
  check_ref args true none = pure (ok tt)
  check_ref args pending ref = do
    object ← pure (object_of_ref args.tag ref)
    check_objects 16 args.source_commit object []

  unfoldable pub check_tag : Args → Bool → Job (Unit {0})
  check_tag args pending = do
    ref ← api service (tag_ref args.tag) pending
    check_ref args pending ref

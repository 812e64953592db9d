-- ===== src/Release/Checks.antt =====
-- The checks of scripts/ci-publish-release.py on what the service answered: releases, the assets of
-- a release, the identity of what is there already, and the objects behind a tag.
use Prim.Native.String.{◌++◌ as concat}
use edgepi_e87n.Base.{
  ℕ, String, Bool, true, false, not, ◌&&◌, ◌||◌, List, [], ◌∷◌, Option, none, some, ltb, ◌==◌, ◌≈◌,
  if◌then◌else◌, length, all, any, elem, Result, ok, err, ◌>>=◌, ◌>>◌, require, or_raise, ◌++◌,
}
use edgepi_e87n.Json.{
  pos, negsuc, Value, null, bool, num, float, str, arr, obj, Items, nil, cons, Fields, end, field,
  item,
}
use edgepi_e87n.Release.{ReleaseError, invalid, type_error, Args, AssetFile}
use edgepi_e87n.Release.Texts.{is_sha}

unfoldable pub values : Items → List Value
values nil = []
values (cons v is) = v ∷ values is

-- document.get(key)
unfoldable pub get_value : String → Fields → Value
get_value key fs = elim (item key fs) [ none ↦ null | some v ↦ v ]

unfoldable pub is_str : String → Value → Bool
is_str text (str s) = s ≈ text
is_str text _ = false

unfoldable pub is_true : Value → Bool
is_true (bool b) = b
is_true _ = false

unfoldable pub is_false : Value → Bool
is_false (bool b) = not b
is_false _ = false

unfoldable pub is_null : Value → Bool
is_null null = true
is_null _ = false

-- type(value) is int and value > 0
unfoldable pub positive : Value → Option ℕ
positive (num (pos n)) = if ltb 0 n then some n else none
positive _ = none

-- type(value) is int and value == n
unfoldable pub is_nat : ℕ → Value → Bool
is_nat n (num (pos m)) = m == n
is_nat n _ = false

-- n == value
unfoldable pub equals : (String → ℕ → Bool) → ℕ → Value → Bool
equals float_is n (num (pos m)) = n == m
equals float_is n (bool true) = n == 1
equals float_is n (bool false) = n == 0
equals float_is n (float f) = float_is f n
equals float_is n _ = false

-- bool(value)
unfoldable pub truthy : (String → ℕ → Bool) → Value → Bool
truthy float_is null = false
truthy float_is (bool b) = b
truthy float_is (str s) = not (s ≈ "")
truthy float_is (num (pos n)) = ltb 0 n
truthy float_is (num (negsuc n)) = true
truthy float_is (float f) = not (float_is f 0)
truthy float_is (arr nil) = false
truthy float_is (arr (cons v is)) = true
truthy float_is (obj end) = false
truthy float_is (obj (field k v fs)) = true

-- Whether a list or a dict stands where a hashable value is wanted.
unfoldable pub is_unhashable : Value → Bool
is_unhashable (arr is) = true
is_unhashable (obj fs) = true
is_unhashable _ = false

-- target == args.source_commit or target == "main"
unfoldable pub is_target : Args → Value → Bool
is_target args target = is_str args.source_commit target || is_str "main" target

unfoldable pub is_state : (String → ℕ → Bool) → Bool → Fields → Bool
is_state float_is true fs = is_true (get_value "draft" fs) && is_null (get_value "published_at" fs)
is_state float_is false fs =
    is_false (get_value "draft" fs) && truthy float_is (get_value "published_at" fs)

unfoldable pub is_wanted : Option ℕ → ℕ → Bool
is_wanted none n = true
is_wanted (some wanted) n = n == wanted

-- the conditions of check_release, when the id is known
unfoldable pub is_release : (String → ℕ → Bool) → Args → Bool → Option ℕ → ℕ → Fields → Bool
is_release float_is args draft wanted n fs =
    is_wanted wanted n
    && is_str args.tag (get_value "tag_name" fs)
    && is_true (get_value "prerelease" fs)
    && is_target args (get_value "target_commitish" fs)
    && is_state float_is draft fs

unfoldable pub mismatch : ReleaseError
mismatch = invalid "Release identity, source, or publication state mismatch"

unfoldable pub check_release :
    (String → ℕ → Bool) → Option Value → Args → Bool → Option ℕ → Result ReleaseError ℕ
check_release float_is (some (obj fs)) args draft wanted = do
  n ← or_raise (positive (get_value "id" fs)) mismatch
  require (is_release float_is args draft wanted n fs) mismatch
  ok n
check_release float_is _ args draft wanted = err mismatch

unfoldable pub find_file : String → List AssetFile → Option AssetFile
find_file name [] = none
find_file name (f ∷ files) = if name ≈ f.name then some f else find_file name files

-- asset.get("digest") == "sha256:" + files[name][2]
unfoldable pub is_digest : String → Value → Bool
is_digest sha256 v = is_str (concat "sha256:" sha256) v

-- the checks of an asset whose name is `name`
unfoldable pub check_named :
    List AssetFile → List String → Fields → String → Result ReleaseError String
check_named files seen fs name = do
  file ← or_raise (find_file name files) (invalid "Unexpected or duplicate remote asset")
  require (not (elem name seen)) (invalid "Unexpected or duplicate remote asset")
  require (is_str "uploaded" (get_value "state" fs) && is_nat file.size (get_value "size" fs))
      (invalid "Remote asset state or size mismatch")
  require (is_digest file.sha256 (get_value "digest" fs))
      (invalid "Remote asset SHA-256 digest missing or mismatched")
  ok name

unfoldable pub text_of : Value → Option String
text_of (str s) = some s
text_of _ = none

unfoldable pub check_asset : List AssetFile → List String → Value → Result ReleaseError String
check_asset files seen (obj fs) = do
  name ← or_raise (text_of (get_value "name" fs)) (invalid "Invalid remote asset")
  check_named files seen fs name
check_asset files seen _ = err (invalid "Invalid remote asset")

-- the loop over the assets, with `seen`
unfoldable pub check_assets :
    List AssetFile → List String → List Value → Result ReleaseError (Unit {0})
check_assets files seen [] = ok tt
check_assets files seen (asset ∷ assets) = do
  name ← check_asset files seen asset
  check_assets files (name ∷ seen) assets

-- check_remote_assets, behind the call
unfoldable pub check_asset_list : List AssetFile → Option Value → Result ReleaseError (Unit {0})
check_asset_list files (some (arr is)) = do
  require (length (values is) == length files) (invalid "Remote asset count mismatch")
  check_assets files [] (values is)
check_asset_list files _ = err (invalid "Remote asset count mismatch")

-- the dictionaries of `releases`, if all are
unfoldable pub dicts : List Value → Option (List Fields)
dicts [] = some []
dicts (obj fs ∷ vs) = elim (dicts vs) [ none ↦ none | some fss ↦ some (fs ∷ fss) ]
dicts (_ ∷ vs) = none

unfoldable pub present : Option Value → List Value
present none = []
present (some v) = v ∷ []

unfoldable pub identity_mismatch : ReleaseError
identity_mismatch = invalid "Existing release identity mismatch"

-- {release.get("id") for release in releases}
unfoldable pub check_hashable : List Fields → Result ReleaseError (Unit {0})
check_hashable fss =
    if any (λ fs. is_unhashable (get_value "id" fs)) fss then err type_error else ok tt

-- The release that is there: by its id, which is all that the callers read of it.
unfoldable pub check_existing :
    (String → ℕ → Bool) → String → List Fields → Result ReleaseError (Option ℕ)
check_existing float_is tag [] = ok none
check_existing float_is tag (fs ∷ fss) = do
  check_hashable (fs ∷ fss)
  n ← or_raise (positive (get_value "id" fs)) identity_mismatch
  require (all (λ gs. equals float_is n (get_value "id" gs)) fss) identity_mismatch
  require (all (λ gs. is_str tag (get_value "tag_name" gs)) (fs ∷ fss)) identity_mismatch
  require (is_false (get_value "immutable" fs))
      (invalid "Existing release immutability state is unsafe")
  ok (some n)

unfoldable pub existing_release :
    (String → ℕ → Bool) → String → Option Value → Option Value → Result ReleaseError (Option ℕ)
existing_release float_is tag published listed = do
  fss ← or_raise (dicts (present published ++ present listed)) identity_mismatch
  check_existing float_is tag fss

-- isinstance(ref, dict) and ref.get("ref") == f"refs/tags/{args.tag}"
unfoldable pub is_ref : String → Value → Bool
is_ref tag (obj fs) = is_str (concat "refs/tags/" tag) (get_value "ref" fs)
is_ref tag _ = false

unfoldable pub existing_ref : String → Option Value → Result ReleaseError (Option Value)
existing_ref tag none = ok none
existing_ref tag (some ref) = do
  require (is_ref tag ref) (invalid "Existing tag identity mismatch")
  ok (some ref)

-- The `object` of a reference or of an annotated tag: its type and its SHA.
pub record TagObject : Type 0 where
  pub is_commit : Bool
  pub is_tag : Bool
  pub sha : String

unfoldable pub object_fields : Value → Result ReleaseError TagObject
object_fields (obj fs) = do
  sha ← or_raise (text_of (get_value "sha" fs)) (invalid "Invalid tag object SHA")
  require (is_sha sha) (invalid "Invalid tag object SHA")
  ok record {
    is_commit = is_str "commit" (get_value "type" fs);
    is_tag = is_str "tag" (get_value "type" fs);
    sha = sha;
  }
object_fields _ = err (invalid "Invalid tag object SHA")

-- document.get("object"), of the reference and of a tag, behind the check of its identity
unfoldable pub object_of_ref : String → Option Value → Result ReleaseError Value
object_of_ref tag (some (obj fs)) = do
  require (is_ref tag (obj fs)) (invalid "Tag reference mismatch")
  ok (get_value "object" fs)
object_of_ref tag _ = err (invalid "Tag reference mismatch")

unfoldable pub object_of_tag : String → Option Value → Result ReleaseError Value
object_of_tag sha (some (obj fs)) = do
  require (is_str sha (get_value "sha" fs)) (invalid "Annotated tag identity mismatch")
  ok (get_value "object" fs)
object_of_tag sha _ = err (invalid "Annotated tag identity mismatch")

-- The releases of a page, if each is a dictionary whose tag_name is a text.
unfoldable pub has_tag_name : Fields → Bool
has_tag_name fs = elim (get_value "tag_name" fs) [ str s ↦ true | _ ↦ false ]

unfoldable pub page_of : Option Value → Result ReleaseError (List Fields)
page_of (some (arr is)) = do
  fss ← or_raise (dicts (values is)) (invalid "Invalid release list")
  require (all has_tag_name fss) (invalid "Invalid release list")
  ok fss
page_of _ = err (invalid "Invalid release list")

unfoldable pub tagged : String → List Fields → List Fields
tagged tag [] = []
tagged tag (fs ∷ fss) =
    let rest = tagged tag fss in if is_str tag (get_value "tag_name" fs) then fs ∷ rest else rest

-- The release that `gh release view` shows, under the names of the REST interface.
unfoldable pub shown : String → Fields → Result ReleaseError Value
shown key fs = or_raise (item key fs) (invalid "gh release view returned invalid release JSON")

unfoldable pub view_of : Option Value → Result ReleaseError Value
view_of (some (obj fs)) = do
  id ← shown "databaseId" fs
  tag_name ← shown "tagName" fs
  draft ← shown "isDraft" fs
  prerelease ← shown "isPrerelease" fs
  target ← shown "targetCommitish" fs
  published_at ← shown "publishedAt" fs
  ok (
      obj (
        field "id" id (
          field "tag_name" tag_name (
            field "draft" draft (
              field "prerelease" prerelease
                (field "target_commitish" target (field "published_at" published_at end)))))))
view_of _ = err (invalid "gh release view returned invalid release JSON")

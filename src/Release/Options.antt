-- ===== src/Release/Options.antt =====
-- The options of scripts/ci-publish-release.py and the checks of `main` on them.
use Prim.Native.Char.{code}
use Prim.Native.String.{◌++◌ as concat}
use edgepi_e87n.Base.{
  String, Bool, true, false, not, ◌&&◌, ◌||◌, List, Option, none, some, ◌==◌, ◌≈◌, if◌then◌else◌,
  length, all, Bytes, ◌=ᵇ◌, codes, split, Result, ok, err, ◌>>=◌, ◌>>◌, require,
}
use edgepi_e87n.Release.{ReleaseError, invalid, Args, AssetFile}
use edgepi_e87n.Release.Texts.{safe, matches_safe, is_sha, contains, ends_in}
use edgepi_e87n.Release.Identity.{release_tag}
use edgepi_e87n.Release.Staging.{Policy, Directory, validate_assets}

-- The options: `assets` is the directory, if one is given, and an absent replacement id is none.
pub record Options : Type 0 where
  pub publishes : Bool
  pub kind : String
  pub repository : Bytes
  pub source_commit : String
  pub tag : String
  pub assets : Option Directory
  pub replace_existing : Bool
  pub replacement_id : Option String

-- safe(part), for a part of the repository
unfoldable pub is_safe_part : Bytes → Bool
is_safe_part part =
    matches_safe part
    && not (contains (codes "..") part)
    && not (ends_in (codes ".") part || ends_in (codes ".lock") part)

unfoldable pub is_repository : Bytes → Bool
is_repository repository =
    length (split b'/' repository) == 2 && all is_safe_part (split b'/' repository)

-- sha.lower(), whose letters are at most F
unfoldable pub lower_sha : String → String
lower_sha String.[] = ""
lower_sha (String.◌∷◌ c s) =
    let rest = lower_sha s in
    if code c == 65
    then concat "a" rest
    else if code c == 66
    then concat "b" rest
    else if code c == 67
    then concat "c" rest
    else if code c == 68
    then concat "d" rest
    else if code c == 69
    then concat "e" rest
    else if code c == 70
    then concat "f" rest
    else String.◌∷◌ c rest

-- bool(text), for an option
unfoldable pub is_given : Option String → Bool
is_given none = false
is_given (some text) = not (text ≈ "")

unfoldable pub has_assets : Options → Bool
has_assets o = elim (o.assets) [ none ↦ false | some d ↦ true ]

unfoldable pub is_safe_id : Option String → Bool
is_safe_id none = true
is_safe_id (some id) = safe id

unfoldable pub id_text : Option String → String
id_text none = ""
id_text (some id) = id

unfoldable pub args_of : Options → Args
args_of o = record {
  kind = o.kind;
  source_commit = lower_sha o.source_commit;
  tag = o.tag;
  replace_existing = o.replace_existing;
  replacement_id = id_text o.replacement_id;
}

unfoldable pub check_options : Policy → Options → Result ReleaseError (Unit {0})
check_options policy o = do
  require (safe o.tag) (invalid "Invalid release tag")
  tag ← release_tag o.kind (Policy.versions policy)
  require (codes o.tag =ᵇ tag) (invalid "Release tag does not match the current channel version")
  require (is_repository o.repository) (invalid "Invalid repository")
  require (is_sha o.source_commit) (invalid "Invalid source commit")
  require (if o.publishes then has_assets o else not (has_assets o))
      (invalid "--assets is required only for publish")
  require (not o.replace_existing || o.kind ≈ "image")
      (invalid "Replacement is supported only for image releases")
  require
      (if o.publishes && o.replace_existing
        then is_given o.replacement_id
        else not (is_given o.replacement_id))
      (invalid "--replacement-id is required only for replacement publish")
  require (is_safe_id o.replacement_id) (invalid "Invalid replacement id")

-- files = validate_assets(...) if args.command == "publish" else None
unfoldable pub staged :
    Policy → Options → Option Directory → Result ReleaseError (Option (List AssetFile))
staged policy o none = ok none
staged policy o (some directory) =
    elim (validate_assets policy directory (lower_sha o.source_commit) o.kind) [
      | ok files ↦ ok (some files)
      | err e ↦ err e
    ]

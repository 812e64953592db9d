-- ===== src/Examples/Publication.antt =====
-- A display package that is staged and published, from the options to the exit status.
use edgepi_e87n.Base.{
  ℕ, String, Bool, true, false, List, [], ◌∷◌, ◌++◌, Option, none, some, ◌≡◌, refl, any, ◌=ᵇ◌, ◌==◌,
  if◌then◌else◌, Bytes, codes, ok, err, length, read_decimal,
}
use edgepi_e87n.Json.{pos, Value, str, num, bool, obj, arr, null, nil, cons, end, field, item}
use edgepi_e87n.Release.{
  invalid, commits, tag_ref, release_by_tag, release_page, release_by_id, release_assets, Call, get,
  create, upload, edit, Answer, answered, Service, AssetFile,
}
use edgepi_e87n.Release.Texts.{
  is_alnum, is_safe_char, ends_in, contains, matches_safe, safe, is_hex, is_sha, is_display_package,
  newlines, partition, line_of, after_version, code_of, status_of,
}
use edgepi_e87n.Release.Job.{
  completed, is_zero, is_one, finished, is_document, body_of, is_accepted, parse_status,
  parse_reply, captured, gh, api,
}
use edgepi_e87n.Release.Checks.{
  values, get_value, is_str, is_true, is_false, is_null, positive, is_nat, equals, truthy,
  is_unhashable, is_target, is_state, is_wanted, is_release, mismatch, check_release, find_file,
  is_digest, check_named, text_of, check_asset, check_assets, check_asset_list, dicts, present,
  identity_mismatch, check_hashable, check_existing, existing_release, is_ref, existing_ref,
  object_fields, object_of_ref, object_of_tag, has_tag_name, page_of, tagged, shown, view_of,
}
use edgepi_e87n.Release.Remote.{
  first_of, is_none, is_commit_of, find_pages, find_release, inspect_existing, preflight,
  delete_api, delete_found, delete_ref, delete_identity, view_release, or_view,
  find_created_release, check_remote_assets, check_objects, check_ref, check_tag,
}
use edgepi_e87n.Release.Publish.{
  names_of, replacement_tag, replacement_args, is_download, downloads_of, recheck, fill_draft,
  create_verified_draft, publish_draft, delete_stale, replace_public, publish_replacement,
  publish_new, publish,
}
use edgepi_e87n.Release.Identity.{
  is_display_version, display_version, spelled, tag_version, tag_text, release_tag, image_filename,
  display_filename,
}
use edgepi_e87n.Release.Staging.{
  is_asset_char, is_asset_name, same_file, check_entries, select, images_of, packages_of, fixed,
  is_only, is_empty, check_payload, lower_hex, lowered, sum_line, has_sum, check_lines, is_covered,
  are_equal, has_pairs, has_target, is_empty_list, is_text, check_metadata, entry_of, are_filled,
  sha_of, metadata_file, check_manifest, check_report, is_glob, check_root, check_names, audit,
  validate_assets,
}
use edgepi_e87n.Release.Options.{
  is_safe_part, is_repository, lower_sha, is_given, has_assets, is_safe_id, id_text, args_of,
  check_options, staged,
}
use edgepi_e87n.Release.Main.{publish_staged, run, exit_of, main}
use edgepi_e87n.Release.Staging.{Entry, Directory, Policy}
use edgepi_e87n.Release.Options.{Options}
use edgepi_e87n.Release.Staging.Single.{validate_assets-downloads_of}
use edgepi_e87n.Release.Main.Ends.{run-validate_assets, main-Reaches}
use edgepi_e87n.Release.Plan.{done, Reaches, plan_of}

abbrev commit : String
commit = "0123456789abcdef0123456789abcdef01234567"

abbrev sha : String
sha = "aaaaaaaaaaaaaaaaaaaaaaaaaaaaaaaaaaaaaaaaaaaaaaaaaaaaaaaaaaaaaaaa"

abbrev deb : String
deb = "e87n-display_1.0_all.deb"

abbrev tag : String
tag = "e87n-display-v1.0"

abbrev sum : String → Bytes
sum name = codes sha ++ (codes "  " ++ (codes name ++ (10 ∷ [])))

abbrev sums : Bytes
sums =
    sum "display-build-metadata.json"
    ++ (sum "build-evidence.tar.xz" ++ (sum "RELEASE-NOTES.md" ++ sum deb))

abbrev entry : ℕ → String → Entry
entry inode name = record {
  name = name;
  is_regular = true;
  device = 1;
  inode = inode;
  size = 5;
  sha256 = sha;
  content = if inode == 4 then sums else [];
}

abbrev directory : Directory
directory = record {
  path = codes "/tmp/assets";
  has_symlink = false;
  is_directory = true;
  entries =
      entry 3 "RELEASE-NOTES.md"
      ∷ entry 4 "SHA256SUMS"
      ∷ entry 2 "build-evidence.tar.xz"
      ∷ entry 1 "display-build-metadata.json"
      ∷ entry 5 deb
      ∷ [];
}

abbrev metadata : Value
metadata = obj (
    field "kind" (str "display") (
      field "build_step_outcome" (str "success") (
        field "source_commit" (str commit) (
          field "target" (obj (field "release" (str "trixie") end)) (
            field "collection_errors" (arr nil) (
              field "display_version_source" (str "1.0") (
                field "image_static_audit" (str "not applicable")
                  (field "kernel_release" (str "6.18.52") end))))))))

abbrev policy : Policy
policy = record {
  versions = record { firmware = codes "2026.09.1"; display = codes "1.0" ++ (10 ∷ []) };
  build = record { key = "kernel_release"; value = "6.18.52" } ∷ [];
  target = record { key = "release"; value = "trixie" } ∷ [];
  factory_format = "";
  load_metadata = λ content. some metadata;
  report_is_valid = λ report firmware display commit id attempt. false;
}

abbrev options : Options
options = record {
  publishes = true;
  kind = "display";
  repository = codes "owner/name";
  source_commit = commit;
  tag = tag;
  assets = some directory;
  replace_existing = false;
  replacement_id = none;
}

abbrev asset : Value
asset = obj (
    field "name" (str deb) (
      field "state" (str "uploaded") (
        field "size" (num (pos 5)) (
          field "digest"
            (str "sha256:aaaaaaaaaaaaaaaaaaaaaaaaaaaaaaaaaaaaaaaaaaaaaaaaaaaaaaaaaaaaaaaa") end))))

abbrev release_of : Bool → Value → Value
release_of is_draft published_at = obj (
    field "id" (num (pos 7)) (
      field "tag_name" (str tag) (
        field "draft" (bool is_draft) (
          field "prerelease" (bool true)
            (field "target_commitish" (str commit) (field "published_at" published_at end))))))

abbrev reference : Value
reference = obj (
    field "ref" (str "refs/tags/e87n-display-v1.0")
      (field "object" (obj (field "type" (str "commit") (field "sha" (str commit) end))) end))

abbrev json : Bytes → Option Value
json body =
    if body =ᵇ codes "E"
    then some (arr nil)
    else if body =ᵇ codes "A"
    then some (arr (cons asset nil))
    else if body =ᵇ codes "R"
    then some reference
    else if body =ᵇ codes "D"
    then some (release_of true null)
    else if body =ᵇ codes "L"
    then some (arr (cons (release_of true null) nil))
    else if body =ᵇ codes "P"
    then some (release_of false (str "now"))
    else if body =ᵇ codes "C"
    then some (obj (field "sha" (str commit) end))
    else some (obj end)

abbrev found : String → Answer
found body = answered (pos 0) (codes "HTTP/2 200 OK" ++ (10 ∷ 10 ∷ codes body))

abbrev absent : Answer
absent = answered (pos 1) (codes "HTTP/2 404 Not Found" ++ (10 ∷ 10 ∷ codes "M"))

abbrev is_create : Call → Bool
is_create (create t s title notes) = true
is_create _ = false

abbrev is_upload : Call → Bool
is_upload (upload t names) = true
is_upload _ = false

abbrev is_edit : Call → Bool
is_edit (edit t) = true
is_edit _ = false

abbrev answer : List Call → Call → Answer
answer calls (get (commits s)) = found "C"
answer calls (get (tag_ref t)) = if any is_edit calls then found "R" else absent
answer calls (get (release_by_tag t)) = absent
answer calls (get (release_page page)) = if any is_create calls then found "L" else found "E"
answer calls (get (release_by_id id)) = if any is_edit calls then found "P" else found "D"
answer calls (get (release_assets id)) = if any is_upload calls then found "A" else found "E"
answer calls _ = answered (pos 0) []

abbrev hub : Service
hub = record { reply = answer; json_loads = json; float_is = λ f n. false; title = λ kind. kind }

abbrev staged_files : List AssetFile
staged_files =
    record { name = "RELEASE-NOTES.md"; size = 5; sha256 = sha }
    ∷ record { name = "SHA256SUMS"; size = 5; sha256 = sha }
    ∷ record { name = "build-evidence.tar.xz"; size = 5; sha256 = sha }
    ∷ record { name = "display-build-metadata.json"; size = 5; sha256 = sha }
    ∷ record { name = deb; size = 5; sha256 = sha }
    ∷ []

valid : validate_assets policy directory commit "display" ≡ ok staged_files
unfolding is_alnum is_safe_char ends_in contains matches_safe safe is_hex is_sha is_display_package
    newlines partition line_of after_version code_of status_of completed is_zero is_one finished
    is_document body_of is_accepted parse_status parse_reply captured gh api values get_value is_str
    is_true is_false is_null positive is_nat equals truthy is_unhashable is_target is_state
    is_wanted is_release mismatch check_release find_file is_digest check_named text_of check_asset
    check_assets check_asset_list dicts present identity_mismatch check_hashable check_existing
    existing_release is_ref existing_ref object_fields object_of_ref object_of_tag has_tag_name
    page_of tagged shown view_of first_of is_none is_commit_of find_pages find_release
    inspect_existing preflight delete_api delete_found delete_ref delete_identity view_release
    or_view find_created_release check_remote_assets check_objects check_ref check_tag names_of
    replacement_tag replacement_args is_download downloads_of recheck fill_draft
    create_verified_draft publish_draft delete_stale replace_public publish_replacement publish_new
    publish is_display_version display_version spelled tag_version tag_text release_tag
    image_filename display_filename is_asset_char is_asset_name same_file check_entries select
    images_of packages_of fixed is_only is_empty check_payload lower_hex lowered sum_line has_sum
    check_lines is_covered are_equal has_pairs has_target is_empty_list is_text check_metadata
    entry_of are_filled sha_of metadata_file check_manifest check_report is_glob check_root
    check_names audit validate_assets is_safe_part is_repository lower_sha is_given has_assets
    is_safe_id id_text args_of check_options staged publish_staged run exit_of main item
valid = refl

validate_assets-downloads_of_example : length (downloads_of "display" staged_files) ≡ 1
validate_assets-downloads_of_example =
    validate_assets-downloads_of policy directory commit "display" staged_files valid

exits_zero : main hub policy options ≡ some 0
unfolding is_alnum is_safe_char ends_in contains matches_safe safe is_hex is_sha is_display_package
    newlines partition line_of after_version code_of status_of completed is_zero is_one finished
    is_document body_of is_accepted parse_status parse_reply captured gh api values get_value is_str
    is_true is_false is_null positive is_nat equals truthy is_unhashable is_target is_state
    is_wanted is_release mismatch check_release find_file is_digest check_named text_of check_asset
    check_assets check_asset_list dicts present identity_mismatch check_hashable check_existing
    existing_release is_ref existing_ref object_fields object_of_ref object_of_tag has_tag_name
    page_of tagged shown view_of first_of is_none is_commit_of find_pages find_release
    inspect_existing preflight delete_api delete_found delete_ref delete_identity view_release
    or_view find_created_release check_remote_assets check_objects check_ref check_tag names_of
    replacement_tag replacement_args is_download downloads_of recheck fill_draft
    create_verified_draft publish_draft delete_stale replace_public publish_replacement publish_new
    publish is_display_version display_version spelled tag_version tag_text release_tag
    image_filename display_filename is_asset_char is_asset_name same_file check_entries select
    images_of packages_of fixed is_only is_empty check_payload lower_hex lowered sum_line has_sum
    check_lines is_covered are_equal has_pairs has_target is_empty_list is_text check_metadata
    entry_of are_filled sha_of metadata_file check_manifest check_report is_glob check_root
    check_names audit validate_assets is_safe_part is_repository lower_sha is_given has_assets
    is_safe_id id_text args_of check_options staged publish_staged run exit_of main read_decimal
    item
exits_zero = refl

main-Reaches_example :
    (files : List AssetFile) × (start : List Call) × (id : ℕ) × (validate_assets policy directory
        (lower_sha commit)
        "display"
      ≡ ok files)
    × Reaches hub (plan_of (args_of options) files) start ((run hub policy options []).1) (done id)
main-Reaches_example = main-Reaches hub policy options directory refl exits_zero

abbrev linked : Directory
linked = record directory { has_symlink = true }

abbrev bad_options : Options
bad_options = record options { assets = some linked }

refused :
    validate_assets policy linked (lower_sha commit) "display"
    ≡ err (invalid "Asset directory contains a symlink")
unfolding validate_assets check_root
refused = refl

run-validate_assets_example : (run hub policy bad_options []).1 ≡ []
run-validate_assets_example =
    run-validate_assets hub policy bad_options linked (invalid "Asset directory contains a symlink")
      refl refused

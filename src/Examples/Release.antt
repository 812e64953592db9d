-- ===== src/Examples/Release.antt =====
-- A hosting service with one old release, and a publication that replaces it.
use edgepi_e87n.Base.{
  ℕ, String, Bool, true, false, not, ◌&&◌, List, [], ◌∷◌, ◌++◌, Option, some, ◌≡◌, refl, ap, any,
  ◌≈◌, ◌=ᵇ◌, ◌==◌, if◌then◌else◌, Bytes, codes, ok, read_decimal,
}
use edgepi_e87n.Json.{pos, Value, str, num, bool, obj, arr, null, nil, cons, end, field, item}
use edgepi_e87n.Release.{
  tag_ref, release_by_tag, release_page, release_by_id, release_assets, Call, get, delete_release,
  delete_tag, create, upload, retag, Answer, answered, Service, Args, AssetFile,
}
use edgepi_e87n.Release.Texts.{
  is_alnum, is_safe_char, ends_in, contains, matches_safe, safe, is_hex, is_sha, is_display_package,
  newlines, partition, line_of, after_version, code_of, status_of,
}
use edgepi_e87n.Release.Job.{
  completed, is_zero, is_one, finished, is_document, body_of, is_accepted, parse_status,
  parse_reply, captured, gh, api,
}
use edgepi_e87n.Release.Checks.{
  values, get_value, is_str, is_true, is_false, is_null, positive, is_nat, equals, truthy,
  is_unhashable, is_target, is_state, is_wanted, is_release, mismatch, check_release, find_file,
  is_digest, check_named, text_of, check_asset, check_assets, check_asset_list, dicts, present,
  identity_mismatch, check_hashable, check_existing, existing_release, is_ref, existing_ref,
  object_fields, object_of_ref, object_of_tag, has_tag_name, page_of, tagged, shown, view_of,
}
use edgepi_e87n.Release.Remote.{
  first_of, is_none, is_commit_of, find_pages, find_release, inspect_existing, preflight,
  delete_api, delete_found, delete_ref, delete_identity, view_release, or_view,
  find_created_release, check_remote_assets, check_objects, check_ref, check_tag,
}
use edgepi_e87n.Release.Publish.{
  names_of, replacement_tag, replacement_args, is_download, downloads_of, recheck, fill_draft,
  create_verified_draft, publish_draft, delete_stale, replace_public, publish_replacement,
  publish_new, publish,
}
use edgepi_e87n.Release.Plan.{Stage, done, Reaches, plan_of}
use edgepi_e87n.Release.Plan.Refines.{publish_refines}
use edgepi_e87n.Release.Plan.Safety.{is_deletion, IsCompared, publish-IsCompared, publish_keeps}
use edgepi_e87n.Release.Mirror.{IsHosted, check_asset_list-IsHosted}

abbrev commit : String
commit = "0123456789abcdef0123456789abcdef01234567"

abbrev args : Args
args = record {
  kind = "image";
  source_commit = commit;
  tag = "v1";
  replace_existing = true;
  replacement_id = "9";
}

abbrev firmware : AssetFile
firmware = record { name = "fw.tar"; size = 5; sha256 = "aa" }

abbrev files : List AssetFile
files = firmware ∷ record { name = "RELEASE-NOTES.md"; size = 2; sha256 = "bb" } ∷ []

abbrev asset : Value
asset = obj (
    field "name" (str "fw.tar") (
      field "state" (str "uploaded")
        (field "size" (num (pos 5)) (field "digest" (str "sha256:aa") end))))

abbrev release_of : ℕ → String → Bool → Value → Value
release_of id tag is_draft published_at = obj (
    field "id" (num (pos id)) (
      field "tag_name" (str tag) (
        field "draft" (bool is_draft) (
          field "prerelease" (bool true) (
            field "target_commitish" (str "main")
              (field "published_at" published_at (field "immutable" (bool false) end)))))))

abbrev reference : Value
reference = obj (
    field "ref" (str "refs/tags/v1")
      (field "object" (obj (field "type" (str "commit") (field "sha" (str commit) end))) end))

-- the documents that the bodies of the answers stand for
abbrev json : Bytes → Option Value
json body =
    if body =ᵇ codes "E"
    then some (arr nil)
    else if body =ᵇ codes "A"
    then some (arr (cons asset nil))
    else if body =ᵇ codes "R"
    then some reference
    else if body =ᵇ codes "O"
    then some (release_of 3 "v1" false (str "then"))
    else if body =ᵇ codes "D"
    then some (release_of 7 "v1-replacement-9" true null)
    else if body =ᵇ codes "L"
    then some (arr (cons (release_of 7 "v1-replacement-9" true null) nil))
    else if body =ᵇ codes "P"
    then some (release_of 7 "v1" false (str "now"))
    else some (obj end)

abbrev found : String → Answer
found body = answered (pos 0) (codes "HTTP/2 200 OK" ++ (10 ∷ 10 ∷ codes body))

abbrev absent : Answer
absent = answered (pos 1) (codes "HTTP/2 404 Not Found" ++ (10 ∷ 10 ∷ codes "M"))

abbrev is_create : Call → Bool
is_create (create tag sha title notes) = true
is_create _ = false

abbrev is_upload : Call → Bool
is_upload (upload tag names) = true
is_upload _ = false

abbrev is_retag : Call → Bool
is_retag (retag from to sha title) = true
is_retag _ = false

abbrev answer : List Call → Call → Answer
answer calls (get (tag_ref tag)) =
    if not (tag ≈ "v1")
    then absent
    else if any is_retag calls
    then found "R"
    else if any is_deletion calls
    then absent
    else found "R"
answer calls (get (release_by_tag tag)) =
    if tag ≈ "v1" && not (any is_deletion calls) then found "O" else absent
answer calls (get (release_page page)) = if any is_create calls then found "L" else found "E"
answer calls (get (release_by_id id)) =
    if id == 3 then absent else if any is_retag calls then found "P" else found "D"
answer calls (get (release_assets id)) = if any is_upload calls then found "A" else found "E"
answer calls _ = answered (pos 0) []

abbrev hub : Service
hub = record { reply = answer; json_loads = json; float_is = λ f n. false; title = λ kind. kind }

publish_refines_example :
    (stage : Stage) × Reaches hub (plan_of args files) [] ((publish hub args files []).1) stage
    × ((publish hub args files []).0 ≡ ok tt → (id : ℕ) × (stage ≡ done id))
publish_refines_example = publish_refines hub args files []

abbrev draft_tag : String
draft_tag = "v1-replacement-9"

abbrev before_deletion : List Call
before_deletion =
    get (release_page 1)
    ∷ get (release_by_tag "v1")
    ∷ get (tag_ref "v1")
    ∷ get (tag_ref draft_tag)
    ∷ get (release_assets 7)
    ∷ get (release_by_id 7)
    ∷ upload draft_tag ("fw.tar" ∷ [])
    ∷ get (release_assets 7)
    ∷ get (release_page 1)
    ∷ create draft_tag commit "image" "RELEASE-NOTES.md"
    ∷ get (release_page 1)
    ∷ get (release_by_tag draft_tag)
    ∷ get (tag_ref draft_tag)
    ∷ []

abbrev after_deletion : List Call
after_deletion =
    get (tag_ref draft_tag)
    ∷ get (tag_ref "v1")
    ∷ get (release_assets 7)
    ∷ get (release_by_id 7)
    ∷ retag draft_tag "v1" commit "image"
    ∷ get (tag_ref "v1")
    ∷ delete_tag "v1"
    ∷ get (release_by_id 3)
    ∷ []

published :
    publish hub args files []
    ≡ (ok tt, after_deletion ++ (delete_release 3 ∷ (before_deletion ++ [])))
unfolding is_alnum is_safe_char ends_in contains matches_safe safe is_hex is_sha is_display_package
    newlines partition line_of after_version code_of status_of completed is_zero is_one finished
    is_document body_of is_accepted parse_status parse_reply captured gh api values get_value is_str
    is_true is_false is_null positive is_nat equals truthy is_unhashable is_target is_state
    is_wanted is_release mismatch check_release find_file is_digest check_named text_of check_asset
    check_assets check_asset_list dicts present identity_mismatch check_hashable check_existing
    existing_release is_ref existing_ref object_fields object_of_ref object_of_tag has_tag_name
    page_of tagged shown view_of first_of is_none is_commit_of find_pages find_release
    inspect_existing preflight delete_api delete_found delete_ref delete_identity view_release
    or_view find_created_release check_remote_assets check_objects check_ref check_tag names_of
    replacement_tag replacement_args is_download downloads_of recheck fill_draft
    create_verified_draft publish_draft delete_stale replace_public publish_replacement publish_new
    publish read_decimal item
published = refl

publish-IsCompared_example :
    (id : ℕ) × IsCompared hub (plan_of args files) [] id (before_deletion ++ [])
publish-IsCompared_example =
    publish-IsCompared hub args files [] (delete_release 3) after_deletion before_deletion
      (ap (λ p. p.1) published) refl

abbrev first_args : Args
first_args = record args { replace_existing = false; tag = "v1-replacement-9" }

publish_keeps_example : any is_deletion ((publish hub first_args files []).1) ≡ false
publish_keeps_example = publish_keeps hub first_args files [] refl

located : find_file "fw.tar" (firmware ∷ []) ≡ some firmware
unfolding find_file
located = refl

accepted : check_asset_list (firmware ∷ []) (some (arr (cons asset nil))) ≡ ok tt
unfolding check_asset_list check_assets check_asset check_named find_file values get_value is_str
    is_nat is_digest text_of item
accepted = refl

check_asset_list-IsHosted_example : IsHosted "fw.tar" firmware (some (arr (cons asset nil)))
check_asset_list-IsHosted_example =
    check_asset_list-IsHosted (firmware ∷ []) (some (arr (cons asset nil))) "fw.tar" firmware
      accepted located

-- ===== src/Release/Plan.antt =====
-- The order of work that scripts/ci-publish-release.py is written for, as a state machine over the calls: a
-- draft is created, filled, read back, and only then made public. Where it replaces a release, the
-- public tag is inspected in between, and the release and the tag found there are deleted: in this plan
-- the stage `cleared` is not reached past either of them.
pub mod Readers
pub mod Draft
pub mod Refines
pub mod Safety
use edgepi_e87n.Base.{
  if◌then◌else◌, Option, none, some, ℕ, String, Bool, true, false, ◌≡◌, List, [], ◌∷◌, Result, ok,
  err,
}
use edgepi_e87n.Json.{ℤ, Value}
use edgepi_e87n.Release.{
  Call, get, view, delete_release, delete_tag, create, upload, edit, retag, Endpoint, release_by_id,
  release_assets, Answer, Service, Args, AssetFile,
}
use edgepi_e87n.Release.Job.{api}
use edgepi_e87n.Release.Remote.{inspect_existing, check_remote_assets}
use edgepi_e87n.Release.Publish.{names_of, recheck, downloads_of, replacement_args}

pub data Stage : Type 0 where
  fresh drafted filled : Stage
  inspected verified cleared public confirmed done : ℕ → Stage
  found : ℕ → Option Value → Option ℕ → Stage

-- What a run is given: the draft's tag, the public one, and whether a release is replaced.
pub record Plan : Type 0 where
  pub draft : Args
  pub target : Args
  pub replace : Bool
  pub downloads : List AssetFile

abbrev pub new_plan : Args → List AssetFile → Plan
new_plan args files = record {
  draft = args;
  target = args;
  replace = false;
  downloads = downloads_of args.kind files;
}

abbrev pub replacement_plan : Args → List AssetFile → Plan
replacement_plan args files = record {
  draft = replacement_args args;
  target = args;
  replace = true;
  downloads = downloads_of args.kind files;
}

abbrev pub plan_of : Args → List AssetFile → Plan
plan_of args files =
    if args.replace_existing then replacement_plan args files else new_plan args files

-- The service told that release `id` is the one of `args`, as a draft or public.
abbrev pub IsSeen : Service → Args → Bool → ℕ → List Call → Type 0
IsSeen service args draft id calls = (recheck service args draft id calls).0 ≡ ok id

-- The service told that the assets of release `id` are the given files.
abbrev pub IsMirrored : Service → List AssetFile → ℕ → List Call → Type 0
IsMirrored service files id calls = (check_remote_assets service id files calls).0 ≡ ok tt

-- The calls of a run that has come to a stage.
pub data Reaches (service : Service) (plan : Plan) (start : List Call)
    : List Call → Stage → Type 0 where
  begin : Reaches service plan start start fresh
  look :
      (calls : List Call) (stage : Stage) (endpoint : Endpoint)
      → Reaches service plan start calls stage
      → Reaches service plan start (get endpoint ∷ calls) stage
  show :
      (calls : List Call) (stage : Stage) (tag : String)
      → Reaches service plan start calls stage
      → Reaches service plan start (view tag ∷ calls) stage
  draft :
      (calls : List Call) (title notes : String)
      → Reaches service plan start calls fresh
      → Reaches service plan start
          (create (plan.draft.tag) (plan.draft.source_commit) title notes ∷ calls)
          drafted
  fill :
      (calls : List Call)
      → Reaches service plan start calls drafted
      → Reaches service plan start
          (upload (plan.draft.tag) (names_of plan.downloads) ∷ calls)
          filled
  inspect :
      (calls : List Call) (id : ℕ)
      → Reaches service plan start calls filled
      → IsSeen service plan.draft true id calls
      → Reaches service plan start (get (release_by_id id) ∷ calls) (inspected id)
  verify :
      (calls : List Call) (id : ℕ)
      → Reaches service plan start calls (inspected id)
      → IsMirrored service plan.downloads id calls
      → Reaches service plan start (get (release_assets id) ∷ calls) (verified id)
  locate :
      (before calls : List Call) (id : ℕ) (ref : Option Value) (release : Option ℕ)
      → Reaches service plan start before (verified id)
      → inspect_existing service plan.target before ≡ (ok (ref, release), calls)
      → Reaches service plan start calls (verified id)
      → Reaches service plan start calls (found id ref release)
  clear_release :
      (calls : List Call) (id old : ℕ) (ref : Option Value)
      → plan.replace ≡ true
      → Reaches service plan start calls (found id ref (some old))
      → Reaches service plan start (delete_release old ∷ calls) (found id ref none)
  clear_tag :
      (calls : List Call) (id : ℕ) (ref : Value)
      → plan.replace ≡ true
      → Reaches service plan start calls (found id (some ref) none)
      → Reaches service plan start (delete_tag (plan.target.tag) ∷ calls) (cleared id)
  no_tag :
      (calls : List Call) (id : ℕ)
      → Reaches service plan start calls (found id none none)
      → Reaches service plan start calls (cleared id)
  keep_public :
      (calls : List Call) (id : ℕ)
      → plan.replace ≡ false
      → Reaches service plan start calls (verified id)
      → Reaches service plan start calls (cleared id)
  publish :
      (calls : List Call) (id : ℕ)
      → plan.replace ≡ false
      → Reaches service plan start calls (cleared id)
      → Reaches service plan start (edit (plan.target.tag) ∷ calls) (public id)
  publish_as :
      (calls : List Call) (id : ℕ) (title : String)
      → plan.replace ≡ true
      → Reaches service plan start calls (cleared id)
      → Reaches service plan start
          (retag (plan.draft.tag) (plan.target.tag) (plan.target.source_commit) title ∷ calls)
          (public id)
  confirm :
      (calls : List Call) (id : ℕ)
      → Reaches service plan start calls (public id)
      → IsSeen service plan.target false id calls
      → Reaches service plan start (get (release_by_id id) ∷ calls) (confirmed id)
  finish :
      (calls : List Call) (id : ℕ)
      → Reaches service plan start calls (confirmed id)
      → IsMirrored service plan.downloads id calls
      → Reaches service plan start (get (release_assets id) ∷ calls) (done id)
  tidy :
      (calls : List Call) (id : ℕ)
      → plan.replace ≡ true
      → Reaches service plan start calls (done id)
      → Reaches service plan start (delete_tag (plan.draft.tag) ∷ calls) (done id)

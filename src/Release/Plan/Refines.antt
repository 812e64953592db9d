-- ===== src/Release/Plan/Refines.antt =====
-- `publish` of scripts/ci-publish-release.py as a run of the plan.
use edgepi_e87n.Base.{
  ℕ, String, Bool, true, false, List, ◌∷◌, Option, none, some, ◌≡◌, refl, Result, ok, err, ◌&&◌,
  ◌==◌, length, if◌then◌else◌,
}
use edgepi_e87n.Json.{Value}
use edgepi_e87n.Release.{
  ReleaseError, Call, delete_tag, tag_ref, release_by_id, Service, Args, AssetFile,
}
use edgepi_e87n.Release.Texts.{safe}
use edgepi_e87n.Release.Job.{Job, and_then, ◌>>=◌, ◌>>◌}
use edgepi_e87n.Release.Remote.{
  is_none, inspect_existing, delete_api, delete_found, delete_ref, delete_identity,
}
use edgepi_e87n.Release.Publish.{
  replacement_tag, replacement_args, downloads_of, publish_draft, delete_stale, replace_public,
  publish_replacement, publish_new, publish,
}
use edgepi_e87n.Release.Plan.{
  Stage, fresh, verified, found, cleared, public, confirmed, done, Plan, plan_of, new_plan,
  replacement_plan, Reaches, begin, locate, clear_release, clear_tag, no_tag, keep_public,
  publish_as, confirm, finish, tidy,
}
use edgepi_e87n.Release.Plan
use edgepi_e87n.Release.Publish
use edgepi_e87n.Release.Job
use edgepi_e87n.Release.Remote
use edgepi_e87n.Release.Plan.Readers.{
  Lands, Lands-bind, At, At-bind, Reads, Reads-require, Reads-api, Reads-inspect_existing,
  Reads-check_tag,
}
use edgepi_e87n.Release.Plan.Draft.{
  gh-Lands, recheck-Lands, check_remote_assets-Lands, create_verified_draft-Lands,
}

module _ (service : Service) (plan : Plan) (start : List Call) where
  -- The second look at the public tag.
  abbrev Found : ℕ → Option Value × Option ℕ → List Call → Type 0
  Found id (ref, release) after = Reaches service plan start after (found id ref release)

  known-Found :
      (id : ℕ) (calls : List Call) (p : Result ReleaseError (Option Value × Option ℕ) × List Call)
      → inspect_existing service (plan.target) calls ≡ p
      → Reaches service plan start calls (verified id)
      → Lands service plan start (At service plan start (verified id)) p
      → Lands service plan start (Found id) p
  known-Found id calls (ok (ref, release), after) e r h = locate calls after id ref release r e h
  known-Found id calls (err x, after) e r h = h

  inspect_existing-Found :
      (id : ℕ) (calls : List Call)
      → Reaches service plan start calls (verified id)
      → Lands service plan start (Found id) (inspect_existing service (plan.target) calls)
  unfolding Reads
  inspect_existing-Found id calls r =
      known-Found id calls _ refl r
        (Reads-inspect_existing service plan start (plan.target) (verified id) calls r)

  delete_found-Lands :
      (id : ℕ) (ref : Option Value) (release : Option ℕ) (calls : List Call)
      → plan.replace ≡ true
      → Reaches service plan start calls (found id ref release)
      → Lands service plan start
          (At service plan start (found id ref none))
          (delete_found service release calls)
  unfolding delete_found delete_api Reads
  delete_found-Lands id ref none calls e r = r
  delete_found-Lands id ref (some old) calls e r =
      At-bind service plan start (found id ref none) _ _ _
        (gh-Lands service plan start _ calls (found id ref none)
          (clear_release calls id old ref e r))
        (λ u calls₁ r₁.
          At-bind service plan start (found id ref none) _ _ _
            (Reads-api service plan start (release_by_id old) true (found id ref none) calls₁ r₁)
            (λ there calls₂ r₂.
              Reads-require service plan start (is_none there) _ (found id ref none) calls₂ r₂))

  -- the deletion of a tag, from one stage to another
  delete_ref-Lands :
      (tag : String) (ref : Option Value) (from : Option Value → Stage) (to : Stage)
      (calls : List Call)
      → Reaches service plan start calls (from ref)
      → ((v : Value) (after : List Call)
          → Reaches service plan start after (from (some v))
          → Reaches service plan start (delete_tag tag ∷ after) to)
      → ((after : List Call)
          → Reaches service plan start after (from none)
          → Reaches service plan start after to)
      → Lands service plan start (At service plan start to) (delete_ref service tag ref calls)
  unfolding delete_ref delete_api Reads
  delete_ref-Lands tag none from to calls r cut keep = keep calls r
  delete_ref-Lands tag (some ref) from to calls r cut keep =
      At-bind service plan start to _ _ _ (gh-Lands service plan start _ calls to (cut ref calls r))
        (λ u calls₁ r₁.
          At-bind service plan start to _ _ _
            (Reads-api service plan start (tag_ref tag) true to calls₁ r₁)
            (λ there calls₂ r₂. Reads-require service plan start (is_none there) _ to calls₂ r₂))

  delete_identity-Lands :
      (id : ℕ) (current : Option Value × Option ℕ) (calls : List Call)
      → plan.replace ≡ true
      → Found id current calls
      → Lands service plan start
          (At service plan start (cleared id))
          (delete_identity service (plan.target) (current.0) (current.1) calls)
  unfolding delete_identity
  delete_identity-Lands id (ref, release) calls e r =
      At-bind service plan start (found id ref none) _ _ _
        (delete_found-Lands id ref release calls e r)
        (λ u calls₁ r₁.
          delete_ref-Lands (plan.target.tag) ref (λ v. found id v none) (cleared id) calls₁ r₁
            (λ v after s. clear_tag after id v e s) (λ after s. no_tag after id s))

  -- the checks behind the publication
  confirm-Lands :
      (id : ℕ) (calls : List Call)
      → Reaches service plan start calls (public id)
      → Lands service plan start (At service plan start (done id)) (
          (do
            Publish.recheck service (plan.target) false id
            Remote.check_remote_assets service id (plan.downloads)
            Remote.check_tag service (plan.target) false)
            calls)
  unfolding Reads
  confirm-Lands id calls r =
      At-bind service plan start (confirmed id) _ _ _
        (recheck-Lands service plan start (plan.target) false id calls (public id) (confirmed id) r
          (confirm calls id r))
        (λ n calls₁ r₁.
          At-bind service plan start (done id) _ _ _
            (check_remote_assets-Lands service plan start (plan.downloads) id calls₁ (confirmed id)
              (done id) r₁ (finish calls₁ id r₁))
            (λ u calls₂ r₂.
              Reads-check_tag service plan start (plan.target) false (done id) calls₂ r₂))

  publish_draft-Lands :
      (id : ℕ) (calls : List Call)
      → plan.replace ≡ false
      → Reaches service plan start calls (verified id)
      → Lands service plan start
          (At service plan start (done id))
          (publish_draft service (plan.target) id (plan.downloads) calls)
  unfolding publish_draft
  publish_draft-Lands id calls e r =
      At-bind service plan start (public id) _ _ _
        (gh-Lands service plan start _ calls (public id)
          (Plan.publish calls id e (keep_public calls id e r)))
        (λ u calls₁ r₁. confirm-Lands id calls₁ r₁)

module _ (service : Service) (args : Args) (files : List AssetFile) (start : List Call) where
  abbrev Replaced : List Call → Stage → Type 0
  Replaced calls stage = Reaches service (replacement_plan args files) start calls stage

  replace_public-Lands :
      (id : ℕ) (calls : List Call)
      → Replaced calls (verified id)
      → Lands service
          (replacement_plan args files)
          start
          (At service (replacement_plan args files) start (done id))
          (replace_public service args id (downloads_of args.kind files) calls)
  unfolding replace_public replacement_args
  replace_public-Lands id calls r =
      let plan = replacement_plan args files in
      Lands-bind service plan start (Found service plan start id) (At service plan start (done id))
        _ _ (inspect_existing-Found service plan start id calls r)
        (λ current calls₁ found.
          At-bind service plan start (cleared id) _ _ _
            (delete_identity-Lands service plan start id current calls₁ refl found)
            (λ u calls₂ r₂.
              At-bind service plan start (public id) _ _ _
                (gh-Lands service plan start _ calls₂ (public id)
                  (publish_as calls₂ id (service.title args.kind) refl r₂))
                (λ u calls₃ r₃. confirm-Lands service plan start id calls₃ r₃)))

  delete_stale-Lands :
      (id : ℕ) (stale : Option Value) (calls : List Call)
      → Replaced calls (done id)
      → Lands service
          (replacement_plan args files)
          start
          (At service (replacement_plan args files) start (done id))
          (delete_stale service (replacement_args args) stale calls)
  unfolding delete_stale delete_identity delete_found replacement_args
  delete_stale-Lands id none calls r = r
  delete_stale-Lands id (some ref) calls r =
      delete_ref-Lands service (replacement_plan args files) start (replacement_tag args) (some ref)
        (λ v. done id) (done id) calls r (λ v after s. tidy after id refl s) (λ after s. s)

  -- What has to be shown of the end of a run.
  abbrev Ends : Plan → Result ReleaseError (Unit {0}) × List Call → Type 0
  Ends plan p =
      Lands service plan start (λ u after. (id : ℕ) × Reaches service plan start after (done id)) p

  done-Ends :
      (plan : Plan) (id : ℕ) (p : Result ReleaseError (Unit {0}) × List Call)
      → Lands service plan start (At service plan start (done id)) p
      → Ends plan p
  done-Ends plan id (ok u, calls) h = (id, h)
  done-Ends plan id (err e, calls) h = h

  publish_new-Ends :
      (calls : List Call)
      → Reaches service (new_plan args files) start calls fresh
      → Ends
          (new_plan args files)
          (publish_new service args files (downloads_of args.kind files) calls)
  unfolding publish_new
  publish_new-Ends calls r =
      let plan = new_plan args files in
      Lands-bind service plan start
        (λ (id : ℕ) (after : List Call). Reaches service plan start after (verified id)) _ _ _
        (create_verified_draft-Lands service plan start files calls r)
        (λ id calls₁ r₁.
          done-Ends plan id _ (publish_draft-Lands service plan start id calls₁ refl r₁))

  tidied-Lands :
      (id : ℕ) (calls : List Call)
      → Replaced calls (verified id)
      → Lands service
          (replacement_plan args files)
          start
          (At service (replacement_plan args files) start (done id))
          ((do
            replace_public service args id (downloads_of args.kind files)
            stale ← Job.api service (tag_ref (replacement_tag args)) true
            delete_stale service (replacement_args args) stale)
            calls)
  unfolding Reads
  tidied-Lands id calls r =
      let plan = replacement_plan args files in
      At-bind service plan start (done id) _ _ _ (replace_public-Lands id calls r) (λ u calls₁ r₁.
        At-bind service plan start (done id) _ _ _
          (Reads-api service plan start (tag_ref (replacement_tag args)) true (done id) calls₁ r₁)
          (λ stale calls₂ r₂. delete_stale-Lands id stale calls₂ r₂))

  publish_replacement-Ends :
      (calls : List Call)
      → Replaced calls fresh
      → Ends
          (replacement_plan args files)
          (publish_replacement service args files (downloads_of args.kind files) calls)
  unfolding publish_replacement Reads
  publish_replacement-Ends calls r =
      let plan = replacement_plan args files in
      At-bind service plan start fresh _ _ _
        (Reads-require service plan start (safe (replacement_tag args)) _ fresh calls r)
        (λ u calls₁ r₁.
          At-bind service plan start fresh _ _ _
            (Reads-inspect_existing service plan start (replacement_args args) fresh calls₁ r₁)
            (λ there calls₂ r₂.
              At-bind service plan start fresh _ _ _
                (Reads-require service plan start (is_none (there.0) && is_none (there.1)) _ fresh
                  calls₂ r₂)
                (λ u calls₃ r₃.
                  Lands-bind service plan start
                    (λ (id : ℕ) (after : List Call). Reaches service plan start after (verified id))
                    _ _ _ (create_verified_draft-Lands service plan start files calls₃ r₃)
                    (λ id calls₄ r₄. done-Ends plan id _ (tidied-Lands id calls₄ r₄)))))

  chosen-Ends :
      (b : Bool) (calls : List Call)
      → Reaches service
          (if b then replacement_plan args files else new_plan args files)
          start
          calls
          fresh
      → Ends (if b then replacement_plan args files else new_plan args files) (
          (elim b as (λ x. Job (Unit {0})) [
            | true ↦ publish_replacement service args files (downloads_of args.kind files)
            | false ↦ publish_new service args files (downloads_of args.kind files)
          ])
            calls)
  chosen-Ends true calls r = publish_replacement-Ends calls r
  chosen-Ends false calls r = publish_new-Ends calls r

  publish-Ends : Ends (plan_of args files) (publish service args files start)
  unfolding publish Reads
  publish-Ends =
      At-bind service (plan_of args files) start fresh _ _ _
        (Reads-require service (plan_of args files) start
          (length (downloads_of args.kind files) == 1) _ fresh start begin)
        (λ u calls r. chosen-Ends args.replace_existing calls r)

  ended :
      (plan : Plan) (p : Result ReleaseError (Unit {0}) × List Call)
      → Ends plan p
      → (stage : Stage) × Reaches service plan start (p.1) stage
        × (p.0 ≡ ok tt → (id : ℕ) × (stage ≡ done id))
  ended plan (ok tt, calls) (id, r) = (done id, r, λ e. (id, refl))
  ended plan (err e, calls) (stage, r) = (stage, r, λ e. cc)

  -- Whatever the service answers to which call, the calls of `publish` are a run of the plan, and a
  -- publication that succeeded came to its last stage: draft created, filled, seen as a draft, its
  -- assets compared; where a release is replaced, the public tag inspected, the release found there
  -- deleted if there is one, and the tag deleted if there is one; the draft made public, seen as
  -- public, and its assets compared again.
  pub publish_refines :
      (stage : Stage) × Reaches service
        (plan_of args files)
        start
        ((publish service args files start).1)
        stage
      × ((publish service args files start).0 ≡ ok tt → (id : ℕ) × (stage ≡ done id))
  publish_refines = ended (plan_of args files) (publish service args files start) publish-Ends

-- ===== src/Release/Plan/Readers.antt =====
-- The jobs of scripts/ci-publish-release.py that only look: they leave the stage of a run as it is.
use edgepi_e87n.Base.{
  ℕ, zero, suc, ◌+◌, String, Bool, true, false, List, [], ◌∷◌, ◌++◌, Option, none, some, leb, ltb,
  length, Result, ok, err,
}
use edgepi_e87n.Json.{Value, Fields}
use edgepi_e87n.Release.{
  ReleaseError, Endpoint, tag_ref, release_by_tag, release_page, release_by_id, release_assets,
  tag_object, Call, get, view, Service, Args, AssetFile,
}
use edgepi_e87n.Release.Job.{Job, and_then, ◌>>=◌, pure, require, captured, api, completed, is_zero}
use edgepi_e87n.Release.Checks.{
  existing_release, existing_ref, view_of, page_of, tagged, object_fields, TagObject,
}
use edgepi_e87n.Release.Remote.{
  find_pages, find_release, inspect_existing, view_release, or_view, find_created_release,
  check_remote_assets, check_objects, check_ref, check_tag,
}
use edgepi_e87n.Release.Publish.{recheck}
use edgepi_e87n.Release.Plan.{Stage, Plan, Reaches, look, show}

module _ (service : Service) (plan : Plan) (start : List Call) where
  -- A run in which `P` holds at the end, if it got that far; otherwise it came to some stage.
  abbrev pub Lands :
      {A : Type 0} → (A → List Call → Type 0) → Result ReleaseError A × List Call → Type 0
  Lands P (ok a, calls) = P a calls
  Lands P (err e, calls) = (stage : Stage) × Reaches service plan start calls stage

  pub Lands-bind :
      {A B : Type 0} (P : A → List Call → Type 0) (Q : B → List Call → Type 0)
      (r : Result ReleaseError A × List Call) (next : A → Job B)
      → Lands P r
      → ((a : A) (calls : List Call) → P a calls → Lands Q (next a calls))
      → Lands Q (and_then r next)
  Lands-bind P Q (ok a, calls) next h k = k a calls h
  Lands-bind P Q (err e, calls) next h k = h

  abbrev pub At : {A : Type 0} → Stage → A → List Call → Type 0
  At stage a calls = Reaches service plan start calls stage

  -- A part of a run that comes to `stage`, and what follows.
  pub At-bind :
      {A B : Type 0} (stage : Stage) (Q : B → List Call → Type 0)
      (r : Result ReleaseError A × List Call) (next : A → Job B)
      → Lands (At stage) r
      → ((a : A) (calls : List Call)
          → Reaches service plan start calls stage
          → Lands Q (next a calls))
      → Lands Q (and_then r next)
  At-bind stage Q r next h k = Lands-bind (At stage) Q r next h k

  unfoldable pub Reads : {A : Type 0} → Job A → Type 0
  Reads m =
      (stage : Stage) (calls : List Call)
      → Reaches service plan start calls stage
      → Lands (At stage) (m calls)

  pub Reads-pure : {A : Type 0} (r : Result ReleaseError A) → Reads (pure r)
  unfolding Reads
  Reads-pure (ok a) stage calls h = h
  Reads-pure (err e) stage calls h = (stage, h)

  pub Reads-require : (b : Bool) (message : String) → Reads (require b message)
  unfolding Reads
  Reads-require true message stage calls h = h
  Reads-require false message stage calls h = (stage, h)

  pub Reads-bind :
      {A B : Type 0} (m : Job A) (next : A → Job B)
      → Reads m
      → ((a : A) → Reads (next a))
      → Reads (m >>= next)
  unfolding Reads
  Reads-bind m next h k stage calls r =
      Lands-bind (At stage) (At stage) (m calls) next (h stage calls r)
        (λ a after s. k a stage after s)

  Reads-branch :
      {A : Type 0} (b : Bool) (m n : Job A)
      → Reads m
      → Reads n
      → Reads (elim b [ true ↦ m | false ↦ n ])
  Reads-branch true m n h k = h
  Reads-branch false m n h k = k

  Reads-get : (endpoint : Endpoint) → Reads (captured service (get endpoint))
  unfolding captured Reads
  Reads-get endpoint stage calls r =
      Reads-pure (completed _) stage (get endpoint ∷ calls) (look calls stage endpoint r)

  Reads-view : (tag : String) → Reads (captured service (view tag))
  unfolding captured Reads
  Reads-view tag stage calls r =
      Reads-pure (completed _) stage (view tag ∷ calls) (show calls stage tag r)

  pub Reads-api : (endpoint : Endpoint) (absent : Bool) → Reads (api service endpoint absent)
  unfolding api
  Reads-api endpoint absent =
      Reads-bind (captured service (get endpoint)) _ (Reads-get endpoint) (λ result. Reads-pure _)

  Reads-find_pages :
      (left : ℕ) (tag : String) (page : ℕ) (matches : List Fields)
      → Reads (find_pages service left tag page matches)
  unfolding find_pages
  Reads-find_pages zero tag page matches = Reads-pure _
  Reads-find_pages (suc left) tag page matches =
      Reads-bind _ _ (Reads-api (release_page page) false) (λ answer.
        Reads-bind _ _ (Reads-pure (page_of answer)) (λ fss.
          let found : List Fields = matches ++ tagged tag fss in
          Reads-bind _ _ (Reads-require (leb (length found) 1) _) (λ u.
            Reads-branch (ltb (length fss) 100) _ _ (Reads-pure _)
              (Reads-find_pages left tag (page + 1) found))))

  pub Reads-find_release : (args : Args) → Reads (find_release service args)
  unfolding find_release
  Reads-find_release args = Reads-find_pages 20 (args.tag) 1 []

  pub Reads-inspect_existing : (args : Args) → Reads (inspect_existing service args)
  unfolding inspect_existing
  Reads-inspect_existing args = Reads-bind _ _ (Reads-api (tag_ref (args.tag)) true) (λ ref.
      Reads-bind _ _ (Reads-api (release_by_tag (args.tag)) true) (λ published.
        Reads-bind _ _ (Reads-find_release args) (λ listed.
          Reads-bind _ _
            (Reads-pure (existing_release service.float_is (args.tag) published listed))
            (λ release.
              Reads-bind _ _ (Reads-pure (existing_ref (args.tag) ref))
                (λ ref'. Reads-pure (ok (ref', release)))))))

  Reads-view_release : (args : Args) → Reads (view_release service args)
  unfolding view_release
  Reads-view_release args = Reads-bind _ _ (Reads-view (args.tag)) (λ result.
      Reads-branch (is_zero (result.0)) _ _
        (Reads-bind _ _ (Reads-pure (view_of (service.json_loads (result.1))))
          (λ shown. Reads-pure (ok (some shown))))
        (Reads-pure (ok none)))

  Reads-or_view : (args : Args) (release : Option Value) → Reads (or_view service args release)
  unfolding or_view
  Reads-or_view args none = Reads-view_release args
  Reads-or_view args (some release) = Reads-pure _

  pub Reads-find_created_release : (args : Args) → Reads (find_created_release service args)
  unfolding find_created_release
  Reads-find_created_release args =
      Reads-bind _ _ (Reads-find_release args) (λ release. Reads-or_view args release)

  pub Reads-check_remote_assets :
      (id : ℕ) (files : List AssetFile) → Reads (check_remote_assets service id files)
  unfolding check_remote_assets
  Reads-check_remote_assets id files =
      Reads-bind _ _ (Reads-api (release_assets id) false) (λ assets. Reads-pure _)

  pub Reads-recheck : (args : Args) (draft : Bool) (id : ℕ) → Reads (recheck service args draft id)
  unfolding recheck
  Reads-recheck args draft id =
      Reads-bind _ _ (Reads-api (release_by_id id) false) (λ release. Reads-pure _)

  Reads-check_objects :
      (left : ℕ) (commit : String) (object : Value) (seen : List String)
      → Reads (check_objects service left commit object seen)
  unfolding check_objects
  Reads-check_objects zero commit object seen = Reads-pure _
  Reads-check_objects (suc left) commit object seen =
      Reads-bind _ _ (Reads-pure (object_fields object)) (λ o.
        Reads-branch (TagObject.is_commit o) _ _ (Reads-require _ _) (
          Reads-bind _ _ (Reads-require _ _) (λ u.
            Reads-bind _ _ (Reads-api (tag_object (TagObject.sha o)) false) (λ tag.
              Reads-bind _ _ (Reads-pure _)
                (λ inner. Reads-check_objects left commit inner (TagObject.sha o ∷ seen))))))

  Reads-check_ref :
      (args : Args) (pending : Bool) (ref : Option Value)
      → Reads (check_ref service args pending ref)
  unfolding check_ref
  Reads-check_ref args true none = Reads-pure _
  Reads-check_ref args true (some ref) =
      Reads-bind _ _ (Reads-pure _)
        (λ object. Reads-check_objects 16 (args.source_commit) object [])
  Reads-check_ref args false ref =
      Reads-bind _ _ (Reads-pure _)
        (λ object. Reads-check_objects 16 (args.source_commit) object [])

  pub Reads-check_tag : (args : Args) (pending : Bool) → Reads (check_tag service args pending)
  unfolding check_tag
  Reads-check_tag args pending =
      Reads-bind _ _ (Reads-api (tag_ref (args.tag)) pending)
        (λ ref. Reads-check_ref args pending ref)

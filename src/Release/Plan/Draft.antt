-- ===== src/Release/Plan/Draft.antt =====
-- `create_verified_draft` and the calls that it shares with the publication of the draft, in
-- scripts/ci-publish-release.py: which stage of the plan they come to.
use edgepi_e87n.Base.{
  ℕ, String, Bool, true, false, List, [], ◌∷◌, Option, none, some, ◌≡◌, refl, Result, ok, err,
  arith, or_raise,
}
use edgepi_e87n.Json.{Value}
use edgepi_e87n.Release.{
  key_error, ReleaseError, Call, get, release_by_id, release_assets, Service, Args, AssetFile,
}
use edgepi_e87n.Release.Job.{and_then_ok, captured, gh, api, completed, finished}
use edgepi_e87n.Release.Checks.{find_file, check_release, is_release, is_wanted}
use edgepi_e87n.Release.Remote.{check_remote_assets}
use edgepi_e87n.Release.Publish.{fill_draft, recheck, create_verified_draft}
use edgepi_e87n.Release.Plan.{
  look, Stage, drafted, filled, fresh, verified, inspected, Plan, Reaches, draft, fill, inspect,
  verify, IsSeen, IsMirrored,
}
use edgepi_e87n.Release.Plan.Readers.{
  At-bind, Lands, Lands-bind, At, Reads, Reads-pure, Reads-find_created_release,
  Reads-check_remote_assets, Reads-check_tag,
}

recheck-calls :
    (service : Service) (args : Args) (is_draft : Bool) (id : ℕ) (calls : List Call)
    → (recheck service args is_draft id calls).1 ≡ get (release_by_id id) ∷ calls
unfolding recheck api captured
recheck-calls service args is_draft id calls = ground arith

check_remote_assets-calls :
    (service : Service) (id : ℕ) (files : List AssetFile) (calls : List Call)
    → (check_remote_assets service id files calls).1 ≡ get (release_assets id) ∷ calls
unfolding check_remote_assets api captured
check_remote_assets-calls service id files calls = ground arith

-- the id that a release is checked for is the one that comes back
check_release-wanted :
    (float_is : String → ℕ → Bool) (v : Option Value) (args : Args) (is_draft : Bool) (id n : ℕ)
    → check_release float_is v args is_draft (some id) ≡ ok n
    → n ≡ id
unfolding check_release is_release is_wanted
check_release-wanted float_is v args is_draft id n h = ground arith

recheck-wanted :
    (service : Service) (args : Args) (is_draft : Bool) (id n : ℕ) (calls : List Call)
    → (recheck service args is_draft id calls).0 ≡ ok n
    → n ≡ id
unfolding recheck
recheck-wanted service args is_draft id n calls h =
    let (v, told, e) = and_then_ok (api service (release_by_id id) false calls) _ h in
    check_release-wanted service.float_is v args is_draft id n e

module _ (service : Service) (plan : Plan) (start : List Call) where
  Lands-known :
      {A : Type 0} (p : Result ReleaseError A × List Call) (after : List Call) (from to : Stage)
      → p.1 ≡ after
      → Reaches service plan start after from
      → ((a : A) → p.0 ≡ ok a → Reaches service plan start after to)
      → Lands service plan start (At service plan start to) p
  Lands-known (ok a, calls) after from to e r k = rw e (k a refl)
  Lands-known (err x, calls) after from to e r k = (from, rw e r)

  pub recheck-Lands :
      (args : Args) (is_draft : Bool) (id : ℕ) (calls : List Call) (from to : Stage)
      → Reaches service plan start calls from
      → (IsSeen service args is_draft id calls
          → Reaches service plan start (get (release_by_id id) ∷ calls) to)
      → Lands service plan start (At service plan start to) (recheck service args is_draft id calls)
  recheck-Lands args is_draft id calls from to r k =
      Lands-known (recheck service args is_draft id calls) (get (release_by_id id) ∷ calls) from to
        (recheck-calls service args is_draft id calls) (look calls from (release_by_id id) r)
        (λ n e. k (rw (recheck-wanted service args is_draft id n calls e) at e))

  pub check_remote_assets-Lands :
      (files : List AssetFile) (id : ℕ) (calls : List Call) (from to : Stage)
      → Reaches service plan start calls from
      → (IsMirrored service files id calls
          → Reaches service plan start (get (release_assets id) ∷ calls) to)
      → Lands service plan start
          (At service plan start to)
          (check_remote_assets service id files calls)
  check_remote_assets-Lands files id calls from to r k =
      Lands-known (check_remote_assets service id files calls) (get (release_assets id) ∷ calls)
        from to (check_remote_assets-calls service id files calls)
        (look calls from (release_assets id) r) (λ u e. k e)

  pub gh-Lands :
      (call : Call) (calls : List Call) (to : Stage)
      → Reaches service plan start (call ∷ calls) to
      → Lands service plan start (At service plan start to) (gh service call calls)
  unfolding gh captured Reads
  gh-Lands call calls to r =
      Lands-bind service plan start (At service plan start to) (At service plan start to) _ _
        (Reads-pure service plan start (completed _) to (call ∷ calls) r)
        (λ result after s. Reads-pure service plan start (finished result) to after s)

  fill_draft-Lands :
      (id : ℕ) (calls : List Call)
      → Reaches service plan start calls drafted
      → Lands service plan start
          (λ n after. Reaches service plan start after (verified n))
          (fill_draft service (plan.draft) id (plan.downloads) calls)
  unfolding fill_draft Reads
  fill_draft-Lands id calls r =
      let Verified = λ (n : ℕ) (after : List Call). Reaches service plan start after (verified n) in
      At-bind service plan start drafted Verified _ _
        (Reads-check_remote_assets service plan start id [] drafted calls r)
        (λ u calls₁ r₁.
          At-bind service plan start filled Verified _ _ (gh-Lands _ calls₁ filled (fill calls₁ r₁))
            (λ u calls₂ r₂.
              At-bind service plan start (inspected id) Verified _ _
                (recheck-Lands (plan.draft) true id calls₂ filled (inspected id) r₂
                  (inspect calls₂ id r₂))
                (λ n calls₃ r₃.
                  At-bind service plan start (verified id) Verified _ _
                    (check_remote_assets-Lands (plan.downloads) id calls₃ (inspected id)
                      (verified id) r₃ (verify calls₃ id r₃))
                    (λ u calls₄ r₄.
                      At-bind service plan start (verified id) Verified _ _
                        (Reads-check_tag service plan start (plan.draft) true (verified id) calls₄
                          r₄)
                        (λ u calls₅ r₅. r₅)))))

  -- A draft that was created came to the stage `verified`.
  pub create_verified_draft-Lands :
      (files : List AssetFile) (calls : List Call)
      → Reaches service plan start calls fresh
      → Lands service plan start
          (λ id after. Reaches service plan start after (verified id))
          (create_verified_draft service plan.draft files plan.downloads calls)
  unfolding create_verified_draft Reads
  create_verified_draft-Lands files calls r =
      let Verified =
        λ (id : ℕ) (after : List Call). Reaches service plan start after (verified id) in
      At-bind service plan start fresh Verified _ _
        (Reads-pure service plan start (or_raise (find_file "RELEASE-NOTES.md" files) key_error)
          fresh calls r)
        (λ notes calls₁ r₁.
          At-bind service plan start drafted Verified _ _
            (gh-Lands _ calls₁ drafted
              (draft calls₁ (service.title (plan.draft.kind)) (AssetFile.name notes) r₁))
            (λ u calls₂ r₂.
              At-bind service plan start drafted Verified _ _
                (Reads-find_created_release service plan start (plan.draft) drafted calls₂ r₂)
                (λ created calls₃ r₃.
                  At-bind service plan start drafted Verified _ _
                    (Reads-pure service plan start
                      (check_release service.float_is created (plan.draft) true none) drafted calls₃
                      r₃)
                    (λ id calls₄ r₄. fill_draft-Lands id calls₄ r₄))))

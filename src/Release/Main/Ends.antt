-- ===== src/Release/Main/Ends.antt =====
-- What the exit status of scripts/ci-publish-release.py stands for.
use edgepi_e87n.Base.{
  ℕ, List, [], Option, some, ◌≡◌, refl, ◌∙◌, ap, sym, subst, arith, Result, ok, err, Result-cases,
  inl, inr,
}
use edgepi_e87n.Release.{
  ReleaseError, invalid, os_error, type_error, key_error, Call, Service, AssetFile,
}
use edgepi_e87n.Release.Job.{and_then_err, and_then_ok, and_then_go, pure}
use edgepi_e87n.Release.Remote.{preflight}
use edgepi_e87n.Release.Publish.{publish}
use edgepi_e87n.Release.Staging.{Policy, Directory, validate_assets}
use edgepi_e87n.Release.Options.{Options, check_options, staged, args_of, lower_sha}
use edgepi_e87n.Release.Main.{publish_staged, run, exit_of, main}
use edgepi_e87n.Release.Plan.{done, Reaches, plan_of}
use edgepi_e87n.Release.Plan.Refines.{publish_refines}

exit_zero : (r : Result ReleaseError (Unit {0})) → exit_of r ≡ some 0 → r ≡ ok tt
unfolding exit_of
exit_zero (ok tt) h = refl
exit_zero (err (invalid message)) h = absurd (ground (arith, h))
exit_zero (err os_error) h = absurd (ground (arith, h))
exit_zero (err type_error) h = absurd (ground (arith, h))
exit_zero (err key_error) h = absurd (ground (arith, h))

staged-some :
    (policy : Policy) (o : Options) (directory : Directory) (files : Option (List AssetFile))
    → staged policy o (some directory) ≡ ok files
    → (fs : List AssetFile) × (validate_assets policy directory (lower_sha o.source_commit) o.kind
        ≡ ok fs)
      × (files ≡ some fs)
unfolding staged
staged-some policy o directory files h =
    elim (Result-cases (validate_assets policy directory (lower_sha o.source_commit) o.kind)) [
      | inl (fs, valid) ↦ (fs, valid, ground (arith, h, valid))
      | inr (e, failed) ↦ absurd (ground (arith, h, failed))
    ]

staged-err :
    (policy : Policy) (o : Options) (directory : Directory) (e : ReleaseError)
    → validate_assets policy directory (lower_sha o.source_commit) o.kind ≡ err e
    → staged policy o (some directory) ≡ err e
unfolding staged
staged-err policy o directory e h = ground (arith, h)

-- A directory of assets that is not valid ends the run before it has asked the service anything.
pub run-validate_assets :
    (service : Service) (policy : Policy) (o : Options) (directory : Directory) (e : ReleaseError)
    → o.assets ≡ some directory
    → validate_assets policy directory (lower_sha o.source_commit) o.kind ≡ err e
    → (run service policy o []).1 ≡ []
unfolding run
run-validate_assets service policy o directory e given bad =
    let refused : staged policy o o.assets ≡ err e =
      subst (λ a. staged policy o a ≡ err e) (sym given) (staged-err policy o directory e bad) in
    elim (Result-cases (check_options policy o)) [
      | inl (u, went) ↦
          ap (λ p. p.1) (and_then_go (pure (check_options policy o) []) _ u went)
          ∙ and_then_err (pure (staged policy o o.assets) []) _ e refused
      | inr (x, failed) ↦ and_then_err (pure (check_options policy o) []) _ x failed
    ]

-- A run that is given a directory of assets and ends with status 0 has published: the directory was valid,
-- and the calls of the run came to the last stage of the plan for its files.
pub main-Reaches :
    (service : Service) (policy : Policy) (o : Options) (directory : Directory)
    → o.assets ≡ some directory
    → main service policy o ≡ some 0
    → (files : List AssetFile) × (start : List Call) × (id : ℕ) × (validate_assets policy directory
          (lower_sha o.source_commit)
          o.kind
        ≡ ok files)
      × Reaches service (plan_of (args_of o) files) start ((run service policy o []).1) (done id)
unfolding main run publish_staged
main-Reaches service policy o directory given zero' =
    let ended = exit_zero _ zero' in
    let (u₁, checked, h₁) = and_then_ok (pure (check_options policy o) []) _ ended in
    let (files, read, h₂) = and_then_ok (pure (staged policy o o.assets) []) _ h₁ in
    let (u₂, flight, h₃) = and_then_ok (preflight service (args_of o) []) _ h₂ in
    let start = (preflight service (args_of o) []).1 in
    let (fs, valid, some_fs) =
      staged-some policy o directory files (subst (λ a. staged policy o a ≡ ok files) given read) in
    let published =
      subst (λ f. (publish_staged service (args_of o) f start).0 ≡ ok tt) some_fs h₃ in
    let (stage, reached, last) = publish_refines service (args_of o) fs start in
    let (id, at) = last published in
    let same : run service policy o [] ≡ publish service (args_of o) fs start =
      and_then_go (pure (check_options policy o) []) _ u₁ checked
      ∙ and_then_go (pure (staged policy o o.assets) []) _ files read
      ∙ and_then_go (preflight service (args_of o) []) _ u₂ flight
      ∙ ap (λ f. publish_staged service (args_of o) f start) some_fs in
    (
      fs,
      start,
      id,
      valid,
      subst (λ p. Reaches service (plan_of (args_of o) fs) start (p.1) (done id)) (sym same)
          (subst
            (λ s.
              Reaches service (plan_of (args_of o) fs) start
                ((publish service (args_of o) fs start).1) s)
            at reached),
    )

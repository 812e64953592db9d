-- ===== src/Release/Plan/Safety.antt =====
-- What the plan of scripts/ci-publish-release.py says of the calls that cannot be taken back.
use mathlib.Core.Option.{some-injective}
use edgepi_e87n.Base.{
  ℕ, Bool, true, false, List, [], ◌∷◌, ◌++◌, Option, none, some, ◌≡◌, ◌≢◌, refl, ap, subst, any,
  arith, length, length-append,
}
use edgepi_e87n.Release.{
  Call, get, delete_release, delete_tag, edit, retag, release_assets, Service, Args, AssetFile,
}
use edgepi_e87n.Release.Publish.{publish}
use edgepi_e87n.Release.Plan.{
  Stage, fresh, drafted, filled, inspected, verified, found, cleared, public, confirmed, done, Plan,
  plan_of, Reaches, begin, look, show, draft, fill, inspect, verify, locate, clear_release,
  clear_tag, no_tag, keep_public, publish_as, confirm, finish, tidy, IsMirrored,
}
use edgepi_e87n.Release.Plan
use edgepi_e87n.Release.Plan.Refines.{publish_refines}

-- The calls that delete something or make something public.
abbrev pub is_final : Call → Bool
is_final (delete_release id) = true
is_final (delete_tag tag) = true
is_final (edit tag) = true
is_final (retag from to commit title) = true
is_final _ = false

-- The release whose assets were compared before a stage.
verified_id : Stage → Option ℕ
verified_id (verified id) = some id
verified_id (found id ref release) = some id
verified_id (cleared id) = some id
verified_id (public id) = some id
verified_id (confirmed id) = some id
verified_id (done id) = some id
verified_id _ = none

module _ (service : Service) (plan : Plan) (start : List Call) where
  -- Among the calls, the comparison of the assets of a release with the files stands.
  abbrev pub IsCompared : ℕ → List Call → Type 0
  IsCompared id calls =
      (later : List Call) × (earlier : List Call) × (calls
        ≡ later ++ (get (release_assets id) ∷ earlier))
      × IsMirrored service (plan.downloads) id earlier

  IsCompared-cons :
      (c : Call) (id : ℕ) (calls : List Call) → IsCompared id calls → IsCompared id (c ∷ calls)
  IsCompared-cons c id calls (later, earlier, e, m) =
      (c ∷ later, earlier, ap (λ (l : List Call). c ∷ l) e, m)

  verified-IsCompared :
      (calls : List Call) (stage : Stage) (id : ℕ)
      → Reaches service plan start calls stage
      → verified_id stage ≡ some id
      → IsCompared id calls
  unfolding verified_id
  verified-IsCompared _ _ id begin e = cc
  verified-IsCompared _ _ id (look calls stage endpoint r) e =
      IsCompared-cons _ id calls (verified-IsCompared calls stage id r e)
  verified-IsCompared _ _ id (show calls stage tag r) e =
      IsCompared-cons _ id calls (verified-IsCompared calls stage id r e)
  verified-IsCompared _ _ id (draft calls title notes r) e = cc
  verified-IsCompared _ _ id (fill calls r) e = cc
  verified-IsCompared _ _ id (inspect calls n r s) e = cc
  verified-IsCompared _ _ id (verify calls n r m) e =
      let here : IsCompared n (get (release_assets n) ∷ calls) = ([], calls, refl, m) in
      subst (λ (k : ℕ). IsCompared k (get (release_assets n) ∷ calls)) (some-injective n id e) here
  verified-IsCompared _ _ id (locate before calls n ref release b f r) e =
      verified-IsCompared calls (verified n) id r e
  verified-IsCompared _ _ id (clear_release calls n old ref p r) e =
      IsCompared-cons _ id calls (verified-IsCompared calls (found n ref (some old)) id r e)
  verified-IsCompared _ _ id (clear_tag calls n ref p r) e =
      IsCompared-cons _ id calls (verified-IsCompared calls (found n (some ref) none) id r e)
  verified-IsCompared _ _ id (no_tag calls n r) e =
      verified-IsCompared calls (found n none none) id r e
  verified-IsCompared _ _ id (keep_public calls n p r) e =
      verified-IsCompared calls (verified n) id r e
  verified-IsCompared _ _ id (Plan.publish calls n p r) e =
      IsCompared-cons _ id calls (verified-IsCompared calls (cleared n) id r e)
  verified-IsCompared _ _ id (publish_as calls n title p r) e =
      IsCompared-cons _ id calls (verified-IsCompared calls (cleared n) id r e)
  verified-IsCompared _ _ id (confirm calls n r s) e =
      IsCompared-cons _ id calls (verified-IsCompared calls (public n) id r e)
  verified-IsCompared _ _ id (finish calls n r m) e =
      IsCompared-cons _ id calls (verified-IsCompared calls (confirmed n) id r e)
  verified-IsCompared _ _ id (tidy calls n p r) e =
      IsCompared-cons _ id calls (verified-IsCompared calls (done n) id r e)

  -- the newest call, or one of the others
  split :
      {X : Type 0} (d c : Call) (calls tail after : List Call)
      → d ∷ calls ≡ after ++ (c ∷ tail)
      → ((rest : List Call) → calls ≡ rest ++ (c ∷ tail) → X)
      → (d ≡ c → calls ≡ tail → X)
      → X
  split d c calls tail [] e older newest = newest (cc) (cc)
  split d c calls tail (a ∷ after) e older newest = older after (cc)

  no_split : (tail after : List Call) (c : Call) → start ≢ after ++ (c ∷ (tail ++ start))
  no_split tail after c e = omega (
    arith,
    ap (λ (l : List Call). length l) e,
    length-append {0} after (c ∷ (tail ++ start)),
    length-append {0} tail start,
  )

  Guarded : Call → List Call → Type 0
  Guarded c tail = is_final c ≡ true → (id : ℕ) × IsCompared id tail

  -- a call that can be taken back, on top
  harmless :
      (d c : Call) (calls tail after : List Call)
      → d ∷ calls ≡ after ++ (c ∷ tail)
      → is_final d ≡ false
      → ((rest : List Call) → calls ≡ rest ++ (c ∷ tail) → Guarded c tail)
      → Guarded c tail
  unfolding Guarded
  harmless d c calls tail after e safe older =
      split d c calls tail after e older
        (λ same rest final. absurd (ground (arith, same, safe, final)))

  -- a final call on top, at a stage that follows the comparison
  guarded :
      (stage : Stage) (id : ℕ) (d c : Call) (calls tail after : List Call)
      → verified_id stage ≡ some id
      → Reaches service plan start calls stage
      → d ∷ calls ≡ after ++ (c ∷ tail)
      → ((rest : List Call) → calls ≡ rest ++ (c ∷ tail) → Guarded c tail)
      → Guarded c tail
  unfolding Guarded
  guarded stage id d c calls tail after v r e older =
      split d c calls tail after e older
        (λ same rest final. (id, rw rest at (verified-IsCompared calls stage id r v)))

  final-Guarded :
      (calls : List Call) (stage : Stage) (c : Call) (mid after : List Call)
      → Reaches service plan start calls stage
      → calls ≡ after ++ (c ∷ (mid ++ start))
      → Guarded c (mid ++ start)
  unfolding verified_id
  final-Guarded _ _ c mid after begin e = absurd (no_split mid after c e)
  final-Guarded _ _ c mid after (look calls stage endpoint r) e =
      harmless _ c calls _ after e refl (λ rest q. final-Guarded calls stage c mid rest r q)
  final-Guarded _ _ c mid after (show calls stage tag r) e =
      harmless _ c calls _ after e refl (λ rest q. final-Guarded calls stage c mid rest r q)
  final-Guarded _ _ c mid after (draft calls title notes r) e =
      harmless _ c calls _ after e refl (λ rest q. final-Guarded calls fresh c mid rest r q)
  final-Guarded _ _ c mid after (fill calls r) e =
      harmless _ c calls _ after e refl (λ rest q. final-Guarded calls drafted c mid rest r q)
  final-Guarded _ _ c mid after (inspect calls n r s) e =
      harmless _ c calls _ after e refl (λ rest q. final-Guarded calls filled c mid rest r q)
  final-Guarded _ _ c mid after (verify calls n r m) e =
      harmless _ c calls _ after e refl (λ rest q. final-Guarded calls (inspected n) c mid rest r q)
  final-Guarded _ _ c mid after (locate before calls n ref release b f r) e =
      final-Guarded calls (verified n) c mid after r e
  final-Guarded _ _ c mid after (clear_release calls n old ref p r) e =
      guarded (found n ref (some old)) n _ c calls _ after refl r e
        (λ rest q. final-Guarded calls (found n ref (some old)) c mid rest r q)
  final-Guarded _ _ c mid after (clear_tag calls n ref p r) e =
      guarded (found n (some ref) none) n _ c calls _ after refl r e
        (λ rest q. final-Guarded calls (found n (some ref) none) c mid rest r q)
  final-Guarded _ _ c mid after (no_tag calls n r) e =
      final-Guarded calls (found n none none) c mid after r e
  final-Guarded _ _ c mid after (keep_public calls n p r) e =
      final-Guarded calls (verified n) c mid after r e
  final-Guarded _ _ c mid after (Plan.publish calls n p r) e =
      guarded (cleared n) n _ c calls _ after refl r e
        (λ rest q. final-Guarded calls (cleared n) c mid rest r q)
  final-Guarded _ _ c mid after (publish_as calls n title p r) e =
      guarded (cleared n) n _ c calls _ after refl r e
        (λ rest q. final-Guarded calls (cleared n) c mid rest r q)
  final-Guarded _ _ c mid after (confirm calls n r s) e =
      harmless _ c calls _ after e refl (λ rest q. final-Guarded calls (public n) c mid rest r q)
  final-Guarded _ _ c mid after (finish calls n r m) e =
      harmless _ c calls _ after e refl (λ rest q. final-Guarded calls (confirmed n) c mid rest r q)
  final-Guarded _ _ c mid after (tidy calls n p r) e =
      guarded (done n) n _ c calls _ after refl r e
        (λ rest q. final-Guarded calls (done n) c mid rest r q)

-- A publication deletes nothing and makes nothing public before the service has told that the assets
-- of one release are the downloads: for every answer of the service, if the run made a call that
-- deletes a release or a tag or that ends a draft, such a comparison stands before it.
pub publish-IsCompared :
    (service : Service) (args : Args) (files : List AssetFile) (start : List Call) (c : Call)
    (after mid : List Call)
    → (publish service args files start).1 ≡ after ++ (c ∷ (mid ++ start))
    → is_final c ≡ true
    → (id : ℕ) × IsCompared service (plan_of args files) start id (mid ++ start)
unfolding Guarded
publish-IsCompared service args files start c after mid e final =
    let (stage, r, ended) = publish_refines service args files start in
    final-Guarded service (plan_of args files) start _ stage c mid after r e final

abbrev pub is_deletion : Call → Bool
is_deletion (delete_release id) = true
is_deletion (delete_tag tag) = true
is_deletion _ = false

keeps :
    (service : Service) (plan : Plan) (start calls : List Call) (stage : Stage)
    → plan.replace ≡ false
    → Reaches service plan start calls stage
    → any is_deletion calls ≡ any is_deletion start
keeps service plan start _ _ new begin = refl
keeps service plan start _ _ new (look calls stage endpoint r) =
    keeps service plan start calls stage new r
keeps service plan start _ _ new (show calls stage tag r) =
    keeps service plan start calls stage new r
keeps service plan start _ _ new (draft calls title notes r) =
    keeps service plan start calls fresh new r
keeps service plan start _ _ new (fill calls r) = keeps service plan start calls drafted new r
keeps service plan start _ _ new (inspect calls n r s) = keeps service plan start calls filled new r
keeps service plan start _ _ new (verify calls n r m) =
    keeps service plan start calls (inspected n) new r
keeps service plan start _ _ new (locate before calls n ref release b f r) =
    keeps service plan start calls (verified n) new r
keeps service plan start _ _ new (clear_release calls n old ref p r) = cc
keeps service plan start _ _ new (clear_tag calls n ref p r) = cc
keeps service plan start _ _ new (no_tag calls n r) =
    keeps service plan start calls (found n none none) new r
keeps service plan start _ _ new (keep_public calls n p r) =
    keeps service plan start calls (verified n) new r
keeps service plan start _ _ new (Plan.publish calls n p r) =
    keeps service plan start calls (cleared n) new r
keeps service plan start _ _ new (publish_as calls n title p r) =
    keeps service plan start calls (cleared n) new r
keeps service plan start _ _ new (confirm calls n r s) =
    keeps service plan start calls (public n) new r
keeps service plan start _ _ new (finish calls n r m) =
    keeps service plan start calls (confirmed n) new r
keeps service plan start _ _ new (tidy calls n p r) = cc

-- Without --replace-existing a publication asks the service to delete nothing, whatever it answers
-- and however the run ends.
pub publish_keeps :
    (service : Service) (args : Args) (files : List AssetFile) (start : List Call)
    → args.replace_existing ≡ false
    → any is_deletion ((publish service args files start).1) ≡ any is_deletion start
publish_keeps service args files start new =
    let (stage, r, ended) = publish_refines service args files start in
    keeps service (plan_of args files) start _ stage (ground (arith, new)) r

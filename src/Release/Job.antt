-- ===== src/Release/Job.antt =====
-- `gh` and `api` of scripts/ci-publish-release.py. A job gets the calls that were made so far, the last
-- one first, and hands on those that stand at its end with its result.
use edgepi_e87n.Base.{
  ℕ, String, Bool, true, ◌≡◌, refl, ap, false, ◌&&◌, ◌||◌, List, ◌∷◌, Option, none, some, ◌==◌,
  if◌then◌else◌, Bytes, Result, ok, err,
}
use edgepi_e87n.Json.{ℤ, pos, Value, obj, arr}
use edgepi_e87n.Release.{
  ReleaseError, invalid, os_error, Endpoint, Call, get, Answer, timed_out, unstarted, answered,
  Service,
}
use edgepi_e87n.Release.Texts.{newlines, partition, status_of}

abbrev pub Job {ℓ} : Type ℓ → Type ℓ
Job A = List Call → Result ReleaseError A × List Call

abbrev pub and_then {ℓ κ} :
    {A : Type ℓ} {B : Type κ}
    → Result ReleaseError A × List Call
    → (A → Job B)
    → Result ReleaseError B × List Call
and_then (ok a, calls) next = next a calls
and_then (err e, calls) next = (err e, calls)

-- A chain that succeeded, taken apart.
pub and_then_ok {ℓ κ} :
    {A : Type ℓ} {B : Type κ} (p : Result ReleaseError A × List Call) (next : A → Job B) {b : B}
    → (and_then p next).0 ≡ ok b
    → (a : A) × (p.0 ≡ ok a) × ((next a (p.1)).0 ≡ ok b)
and_then_ok (ok a, calls) next h = (a, refl, h)
and_then_ok (err e, calls) next h = cc

pub and_then_go {ℓ κ} :
    {A : Type ℓ} {B : Type κ} (p : Result ReleaseError A × List Call) (next : A → Job B) (a : A)
    → p.0 ≡ ok a
    → and_then p next ≡ next a (p.1)
and_then_go (ok b, calls) next a h = ap (λ r. and_then (r, calls) next) h
and_then_go (err e, calls) next a h = cc

pub and_then_err {ℓ κ} :
    {A : Type ℓ} {B : Type κ} (p : Result ReleaseError A × List Call) (next : A → Job B)
    (e : ReleaseError)
    → p.0 ≡ err e
    → (and_then p next).1 ≡ p.1
and_then_err (ok b, calls) next e h = cc
and_then_err (err x, calls) next e h = refl

infixl 5 ◌>>=◌ ◌>>◌
abbrev pub ◌>>=◌ {ℓ κ} : {A : Type ℓ} {B : Type κ} → Job A → (A → Job B) → Job B
(m >>= next) calls = and_then (m calls) next

abbrev pub ◌>>◌ {ℓ κ} : {A : Type ℓ} {B : Type κ} → Job A → Job B → Job B
(m >> next) calls = and_then (m calls) (λ a. next)

-- Code that makes no call.
abbrev pub pure {ℓ} : {A : Type ℓ} → Result ReleaseError A → Job A
pure r calls = (r, calls)

abbrev pub require : Bool → String → Job (Unit {0})
require true message calls = (ok tt, calls)
require false message calls = (err (invalid message), calls)

-- What `gh` makes of the end of the subprocess: the result of a captured call.
unfoldable pub completed : Answer → Result ReleaseError (ℤ × Bytes)
completed timed_out = err (invalid "gh timed out")
completed unstarted = err os_error
completed (answered code stdout) = ok (code, stdout)

unfoldable pub is_zero : ℤ → Bool
is_zero (pos n) = n == 0
is_zero _ = false

unfoldable pub is_one : ℤ → Bool
is_one (pos n) = n == 1
is_one _ = false

-- the check of a call whose output is not captured
unfoldable pub finished : ℤ × Bytes → Result ReleaseError (Unit {0})
finished (code, stdout) = if is_zero code then ok tt else err (invalid "gh failed")

-- isinstance(data, (dict, list))
unfoldable pub is_document : Value → Bool
is_document (obj fs) = true
is_document (arr is) = true
is_document _ = false

unfoldable pub body_of : Option Value → ℕ → Result ReleaseError (Option Value)
body_of none code = err (invalid "API response has invalid JSON")
body_of (some document) code =
    if is_document document
    then ok (if code == 404 then none else some document)
    else err (invalid "API response must be a JSON object or array")

-- code == 200 and returncode == 0, or absent and code == 404 and returncode in (0, 1)
unfoldable pub is_accepted : Bool → ℕ → ℤ → Bool
is_accepted absent code returncode =
    (code == 200 && is_zero returncode)
    || (absent && code == 404 && (is_zero returncode || is_one returncode))

unfoldable pub parse_status :
    (Bytes → Option Value) → Bool → ℤ → Bytes → Option ℕ → Result ReleaseError (Option Value)
parse_status json_loads absent returncode body none =
    err (invalid "API response has no valid HTTP status/header block")
parse_status json_loads absent returncode body (some code) =
    if is_accepted absent code returncode
    then body_of (json_loads body) code
    else err (invalid "API GET failed")

-- The answer of a GET: `none` is an absence that the caller allows.
unfoldable pub parse_reply :
    (Bytes → Option Value) → Bool → ℤ × Bytes → Result ReleaseError (Option Value)
parse_reply json_loads absent (returncode, stdout) = elim (partition (newlines stdout)) [
  | none ↦ err (invalid "API response has no valid HTTP status/header block")
  | some (header, body) ↦ parse_status json_loads absent returncode body (status_of header)
]

module _ (service : Service) where
  -- gh(..., capture=True)
  unfoldable pub captured : Call → Job (ℤ × Bytes)
  captured call calls = (completed (service.reply calls call), call ∷ calls)

  -- gh(...)
  unfoldable pub gh : Call → Job (Unit {0})
  gh call = captured call >>= λ (result : ℤ × Bytes). pure (finished result)

  unfoldable pub api : Endpoint → Bool → Job (Option Value)
  api endpoint absent = captured (get endpoint) >>= λ (result : ℤ × Bytes).
      pure (parse_reply service.json_loads absent result)

-- ===== src/Hardware/Fan/Restore.antt =====
-- The writes of `fan_test`, and its result.
use edgepi_e87n.Base.{
  ℕ, ◌≤◌, ◌≡◌, inl, inr, refl, ap, subst, ◌∙◌, List, [], ◌∷◌, Option, Option-cases, none, some,
  arith, Bytes, Result, ok, err, require, or_raise, bind-eq-ok, ◌>>◌,
}
use edgepi_e87n.Json.{ℤ, pos, negsuc, Value, null, num}
use edgepi_e87n.Hardware.{HardwareError, no_fan, not_regular}
use edgepi_e87n.Hardware.Number.{integer}
use edgepi_e87n.Hardware.Number.Bounds.{integer_bounds}
use edgepi_e87n.Hardware.Fan.{
  Cooling, FanSystem, Tested, FanTest, check_request, natural, number, levels, level_text,
  write_level, restore, prepare, test_level, fan_test,
}

-- The writes that a test issues: none; or the tested level and then the level before it, whether the
-- kernel takes them or not; or the tested level alone, where the wait was interrupted.
pub data Writes (f : FanSystem) (state seconds : Value) : FanTest → Type 0 where
  nothing_written :
      {test : FanTest} (e : HardwareError)
      → prepare f state seconds ≡ err e
      → test.issued ≡ []
      → test.result ≡ err e
      → Writes f state seconds test
  restored :
      {test : FanTest} (t : Tested)
      → prepare f state seconds ≡ ok t
      → f.wait ≡ ok tt
      → test.issued ≡ level_text t.state ∷ level_text t.previous ∷ []
      → ((e : HardwareError) → write_level f t.previous ≡ err e → test.result ≡ err e)
      → (write_level f t.previous ≡ ok tt → test.result ≡ (write_level f t.state >> ok t))
      → Writes f state seconds test
  cut_short :
      {test : FanTest} (t : Tested) (e : HardwareError)
      → prepare f state seconds ≡ ok t
      → f.wait ≡ err e
      → test.issued ≡ level_text t.state ∷ []
      → test.result ≡ err e
      → Writes f state seconds test

module _ (f : FanSystem) (state seconds : Value) where
  restore-Writes :
      (t : Tested) (wait : Result HardwareError (Unit {0}))
      → prepare f state seconds ≡ ok t
      → f.wait ≡ wait
      → Writes f state seconds (restore f t wait)
  restore-Writes t (ok _) ready same =
      restored t ready same refl (λ e h. rw (h) refl) (λ h. rw (h) refl)
  restore-Writes t (err e) ready same = cut_short t e ready same refl refl

  test_level-Writes :
      (r : Result HardwareError Tested)
      → prepare f state seconds ≡ r
      → Writes f state seconds (test_level f r)
  test_level-Writes (ok t) ready = restore-Writes t f.wait ready refl
  test_level-Writes (err e) ready = nothing_written e ready refl refl

-- Whatever fails, a test goes one of three ways. A check in front of the first write fails: nothing is
-- written, and its error is raised. The wait ends: the write of the level that was asked for is followed
-- by a write of the level that was found, even if the kernel refused the first; if the kernel refuses
-- the second, that error is raised, and if it takes the second, the test ends as the first write did.
-- The wait is interrupted: its error is raised, and no write of the level that was found is issued.
pub fan_test-Writes :
    (f : FanSystem) (state seconds : Value) → Writes f state seconds (fan_test f state seconds)
unfolding fan_test
fan_test-Writes f state seconds = test_level-Writes f state seconds (prepare f state seconds) refl

number_bounds : (text : Option Bytes) (limit n : ℕ) → number text limit ≡ some n → n ≤ limit
number_bounds text limit n h = go (integer text (pos 0) (pos limit)) refl h
  where
    go : (o : Option ℤ) → integer text (pos 0) (pos limit) ≡ o → natural o ≡ some n → n ≤ limit
    go (some (pos m)) e k =
        let bounds = integer_bounds text (pos 0) (pos limit) (pos m) e in
        let same : m ≡ n = ground arith in ground (arith, bounds)
    go (some (negsuc m)) e k = cc
    go none e k = cc

levels_bounds :
    (c : Cooling) (state : ℕ) {maximum before : ℕ}
    → levels c state ≡ ok (maximum, before)
    → (state ≤ maximum) × (before ≤ maximum) × (maximum ≤ 255)
unfolding levels
levels_bounds c state {maximum} {before} h = elim (Option-cases (number c.max_state 255)) [
  | inl absent ↦ absurd (ground (arith, absent))
  | inr (m, e) ↦ elim (Option-cases (number c.cur_state m)) [
    | inl absent ↦ absurd (ground (arith, e, absent))
    | inr (n, d) ↦
        let top = number_bounds c.max_state 255 m e in
        let low = number_bounds c.cur_state m n d in
        (ground (arith, e, d), ground (arith, e, d, low), ground (arith, e, d, top))
  ]
]

some_of : (o : Option Cooling) (c : Cooling) → or_raise o no_fan ≡ ok c → o ≡ some c
some_of (some d) c h = ground arith
some_of none c h = cc

check_request-eq :
    (state seconds : Value) {s n : ℕ}
    → check_request state seconds ≡ ok (s, n)
    → (state ≡ num (pos s)) × (n ≤ 30)
unfolding check_request
check_request-eq (num (pos a)) (num (pos b)) {s} {n} h =
    let same : a ≡ s = ground arith in (ap (λ (x : ℕ). num (pos x)) same, ground arith)
check_request-eq (num (pos a)) (num (negsuc b)) h = cc
check_request-eq (num (negsuc a)) b h = cc
check_request-eq (num (pos a)) null h = cc
check_request-eq (num (pos a)) _ h = cc
check_request-eq null b h = cc
check_request-eq _ b h = cc

prepare-levels :
    (f : FanSystem) (state seconds : Value) {t : Tested}
    → prepare f state seconds ≡ ok t
    → (state ≡ num (pos t.state))
      × (t.seconds ≤ 30)
      × (cooling : Cooling) × (maximum : ℕ) × (f.cooling ≡ some cooling)
      × (levels cooling t.state ≡ ok (maximum, t.previous))
unfolding prepare
prepare-levels f state seconds {t} h =
    let ((s, n), request, a) = bind-eq-ok (check_request state seconds) _ h in
    let (_, allowed, b) = bind-eq-ok f.authority _ a in
    let (cooling, there, d) = bind-eq-ok (or_raise f.cooling no_fan) _ b in
    let ((maximum, before), known, e) = bind-eq-ok (levels cooling s) _ d in
    let (_, opened, g) = bind-eq-ok f.opened _ e in
    let (_, regular, i) = bind-eq-ok (require f.regular not_regular) _ g in
    let same : record { state = s; previous = before; seconds = n } ≡ t = ground (arith, i) in
    let (asked, short) = check_request-eq state seconds request in
    (
      asked ∙ ap (λ (x : Tested). num (pos x.state)) same,
      subst (λ x. x.seconds ≤ 30) same short,
      cooling,
      maximum,
      some_of f.cooling cooling there,
      subst (λ x. levels cooling x.state ≡ ok (maximum, x.previous)) same known,
    )

-- What a test that returned has done.
pub record Done (f : FanSystem) (state : Value) (t : Tested) (writes : List Bytes) : Type 0 where
  pub asked : state ≡ num (pos t.state)
  pub maximum : ℕ
  pub in_range : (t.state ≤ maximum) × (t.previous ≤ maximum) × (maximum ≤ 255)
  pub seconds : t.seconds ≤ 30
  pub issued : writes ≡ level_text t.state ∷ level_text t.previous ∷ []
  pub tested : write_level f t.state ≡ ok tt
  pub put_back : write_level f t.previous ≡ ok tt

restore-ok :
    (f : FanSystem) (t u : Tested) (wait : Result HardwareError (Unit {0}))
    → (restore f t wait).result ≡ ok u
    → (t ≡ u)
      × (write_level f t.state ≡ ok tt)
      × (write_level f t.previous ≡ ok tt)
      × ((restore f t wait).issued ≡ level_text t.state ∷ level_text t.previous ∷ [])
restore-ok f t u (err e) h = cc
restore-ok f t u (ok _) h =
    let (_, back, rest) = bind-eq-ok (write_level f t.previous) _ h in
    let (_, first, last) = bind-eq-ok (write_level f t.state) _ rest in
    (ground (arith, last), first, back, refl)

test_level-Done :
    (f : FanSystem) (state : Value) (r : Result HardwareError Tested) (u : Tested)
    → ((t : Tested)
        → r ≡ ok t
        → (state ≡ num (pos t.state))
          × (t.seconds ≤ 30)
          × (cooling : Cooling) × (maximum : ℕ) × (f.cooling ≡ some cooling)
          × (levels cooling t.state ≡ ok (maximum, t.previous)))
    → (test_level f r).result ≡ ok u
    → Done f state u (test_level f r).issued
test_level-Done f state (err e) u known h = cc
test_level-Done f state (ok t) u known h =
    let (asked, short, cooling, maximum, there, found) = known t refl in
    let (same, first, back, writes) = restore-ok f t u f.wait h in
    subst (λ x. Done f state x (restore f t f.wait).issued) same
      (record {
        asked = asked;
        maximum = maximum;
        in_range = levels_bounds cooling t.state found;
        seconds = short;
        issued = writes;
        tested = first;
        put_back = back;
      })

-- A test that returns was asked for a level of the fan's range and for at most 30 seconds, has set
-- that level, and has then set the level that it found, each write taken whole by the kernel.
pub fan_test-Done :
    (f : FanSystem) (state seconds : Value) {t : Tested}
    → (fan_test f state seconds).result ≡ ok t
    → Done f state t (fan_test f state seconds).issued
unfolding fan_test
fan_test-Done f state seconds {t} h =
    test_level-Done f state (prepare f state seconds) t (λ u e. prepare-levels f state seconds e) h

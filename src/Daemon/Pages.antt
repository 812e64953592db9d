-- ===== src/Daemon/Pages.antt =====
-- The pages that `_daemon_pages` offers a turn.
use edgepi_e87n.Base.{
  Bool, false, ◌≈◌, String, ◌≡◌, ◌≢◌, refl, true, inl, inr, List, [], ◌∷◌, Option, none, some,
  arith, ≈_iff, List-cases, Bool-cases, if◌then◌else◌, subst, sym,
}
use edgepi_e87n.Daemon.{
  Settings, Presence, requested_pages, is_available, keep_available, available_pages, daemon_pages,
}

-- The pages that a snapshot has something to show on.
pub data HasTelemetry (p : Presence) : String → Type 0 where
  overview : HasTelemetry p "overview"
  cpu : p.cpu ≡ true → HasTelemetry p "cpu"
  memory : p.memory ≡ true → HasTelemetry p "memory"
  thermal : p.thermal ≡ true → HasTelemetry p "thermal"
  fan : p.fan ≡ true → HasTelemetry p "fan"
  network : p.network ≡ true → HasTelemetry p "network"
  traffic : p.traffic ≡ true → HasTelemetry p "traffic"
  storage : p.storage ≡ true → HasTelemetry p "storage"

-- The pages with telemetry of a list, in its order.
pub data Kept (p : Presence) : List String → List String → Type 0 where
  no_page : Kept p [] []
  keep :
      (page : String) (pages kept : List String)
      → HasTelemetry p page
      → Kept p pages kept
      → Kept p (page ∷ pages) (page ∷ kept)
  skip :
      (page : String) (pages kept : List String)
      → ¬ HasTelemetry p page
      → Kept p pages kept
      → Kept p (page ∷ pages) kept

pub data Requested (c : Settings) : List String → Type 0 where
  rotating : c.rotation_enabled ≡ true → Requested c c.rotation_screens
  fixed : c.rotation_enabled ≡ false → Requested c (c.screen ∷ [])

pub data Offered (c : Settings) : Option Presence → List String → Type 0 where
  as_asked : (pages : List String) → Requested c pages → Offered c none pages
  live :
      (p : Presence) (pages : List String) (page : String) (kept : List String)
      → Requested c pages
      → Kept p pages (page ∷ kept)
      → Offered c (some p) (page ∷ kept)
  fallback :
      (p : Presence) (pages : List String)
      → Requested c pages
      → Kept p pages []
      → Offered c (some p) ("overview" ∷ [])

HasTelemetry-is_available :
    (p : Presence) (page : String) → HasTelemetry p page → is_available p page ≡ true
unfolding is_available
HasTelemetry-is_available p _ overview = refl
HasTelemetry-is_available p _ (cpu h) = h
HasTelemetry-is_available p _ (memory h) = h
HasTelemetry-is_available p _ (thermal h) = h
HasTelemetry-is_available p _ (fan h) = h
HasTelemetry-is_available p _ (network h) = h
HasTelemetry-is_available p _ (traffic h) = h
HasTelemetry-is_available p _ (storage h) = h

-- One test of the chain: the page has the name, or the rest of the chain decides.
test_name :
    (p : Presence) (page name : String) (shown rest : Bool)
    → (if page ≈ name then shown else rest) ≡ true
    → (shown ≡ true → HasTelemetry p name)
    → (rest ≡ true → HasTelemetry p page)
    → HasTelemetry p page
test_name p page name shown rest h here there = elim (Bool-cases (page ≈ name)) [
  | inl e ↦
      subst (λ s. HasTelemetry p s) (sym ((≈_iff page name).0 e)) (here (ground (arith, h, e)))
  | inr e ↦ there (ground (arith, h, e))
]

is_available-HasTelemetry :
    (p : Presence) (page : String) → is_available p page ≡ true → HasTelemetry p page
unfolding is_available
is_available-HasTelemetry p page h =
    test_name p page "overview" true _ h (λ _. overview)
      (λ h₁. test_name p page "cpu" p.cpu _ h₁ cpu (λ h₂.
        test_name p page "memory" p.memory _ h₂ memory (λ h₃.
          test_name p page "thermal" p.thermal _ h₃ thermal (λ h₄.
            test_name p page "fan" p.fan _ h₄ fan (λ h₅.
              test_name p page "network" p.network _ h₅ network (λ h₆.
                test_name p page "traffic" p.traffic _ h₆ traffic (λ h₇.
                  test_name p page "storage" p.storage false h₇ storage
                    (λ h₈. absurd (cc h₈)))))))))

keep_available-Kept : (p : Presence) (pages : List String) → Kept p pages (keep_available p pages)
unfolding keep_available
keep_available-Kept p [] = no_page
keep_available-Kept p (page ∷ pages) = elim (Bool-cases (is_available p page)) [
  | inl e ↦ rw (e) (
      keep page pages (keep_available p pages) (is_available-HasTelemetry p page e)
        (keep_available-Kept p pages))
  | inr e ↦ rw (e) (
      skip page pages (keep_available p pages)
        (λ t. absurd (ground (arith, e, HasTelemetry-is_available p page t)))
        (keep_available-Kept p pages))
]

chosen-Requested :
    (c : Settings) (b : Bool)
    → c.rotation_enabled ≡ b
    → Requested c (if b then c.rotation_screens else c.screen ∷ [])
chosen-Requested c true e = rotating e
chosen-Requested c false e = fixed e

requested_pages-Requested : (c : Settings) → Requested c (requested_pages c)
requested_pages-Requested c = chosen-Requested c c.rotation_enabled refl

available_pages-Offered :
    (c : Settings) (p : Presence) (pages : List String)
    → Requested c pages
    → Offered c (some p) (available_pages p pages)
unfolding available_pages
available_pages-Offered c p pages r = elim (List-cases (keep_available p pages)) [
  | inl e ↦ rw (e) (fallback p pages r (rw e at (keep_available-Kept p pages)))
  | inr (q, qs, e) ↦ rw (e) (live p pages q qs r (rw e at (keep_available-Kept p pages)))
]

-- The pages of a turn. They are asked for by the list of the rotation if it is enabled, else by the one
-- fixed page. Without a snapshot they are shown as asked for; with one, those for which the snapshot
-- has telemetry are shown, in the order of the list, and the overview alone if there is none.
pub daemon_pages-Offered :
    (c : Settings) (snapshot : Option Presence) → Offered c snapshot (daemon_pages c snapshot)
unfolding daemon_pages
daemon_pages-Offered c none = as_asked (requested_pages c) (requested_pages-Requested c)
daemon_pages-Offered c (some p) =
    available_pages-Offered c p (requested_pages c) (requested_pages-Requested c)

available_pages-ne-nil : (p : Presence) (pages : List String) → available_pages p pages ≢ []
unfolding available_pages
available_pages-ne-nil p pages h = ground (arith, List-cases (keep_available p pages))

-- There is always a page to show: the configuration's list of pages is never empty.
pub daemon_pages-ne-nil :
    (c : Settings) (snapshot : Option Presence)
    → c.rotation_screens ≢ []
    → daemon_pages c snapshot ≢ []
unfolding daemon_pages
daemon_pages-ne-nil c none ne h = ground arith
daemon_pages-ne-nil c (some p) ne h = available_pages-ne-nil p _ h

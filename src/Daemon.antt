-- ===== src/Daemon.antt =====
-- The page rotation of board-support/e87n/display.py: `_available_pages`, `_daemon_pages` and one
-- turn of the loop of `run_daemon`. Times are whole milliseconds of the monotonic clock.
pub mod Pages
pub mod Step
pub mod Rotation
use edgepi_e87n.Base.{
  ℕ, zero, suc, ◌+◌, ◌-◌, ◌*◌, ◌%◌, String, Bool, true, false, not, ◌&&◌, ◌||◌, List, [], ◌∷◌,
  Option, none, some, ltb, leb, ◌==◌, ◌≈◌, if◌then◌else◌, elem, length, get_elem?, Result, ok, err,
  or_raise, ◌>>=◌, min, max,
}

-- The fields of a validated configuration that the daemon reads.
pub record Settings : Type 0 where
  pub enabled : Bool
  pub screen : String
  pub refresh_seconds : ℕ
  pub theme : String
  pub rotation_enabled : Bool
  pub rotation_seconds : ℕ
  pub rotation_screens : List String

-- Which groups of telemetry a snapshot holds: the tests that `availability` collects.
pub record Presence : Type 0 where
  pub cpu : Bool
  pub memory : Bool
  pub thermal : Bool
  pub fan : Bool
  pub network : Bool
  pub traffic : Bool
  pub storage : Bool

-- availability.get(page, False)
unfoldable pub is_available : Presence → String → Bool
is_available p page =
    if page ≈ "overview"
    then true
    else if page ≈ "cpu"
    then p.cpu
    else if page ≈ "memory"
    then p.memory
    else if page ≈ "thermal"
    then p.thermal
    else if page ≈ "fan"
    then p.fan
    else if page ≈ "network"
    then p.network
    else if page ≈ "traffic"
    then p.traffic
    else if page ≈ "storage"
    then p.storage
    else false

unfoldable pub keep_available : Presence → List String → List String
keep_available p [] = []
keep_available p (page ∷ pages) =
    if is_available p page then page ∷ keep_available p pages else keep_available p pages

abbrev or_overview : List String → List String
or_overview [] = "overview" ∷ []
or_overview (page ∷ pages) = page ∷ pages

unfoldable pub available_pages : Presence → List String → List String
available_pages p pages = or_overview (keep_available p pages)

abbrev pub requested_pages : Settings → List String
requested_pages c = if c.rotation_enabled then c.rotation_screens else c.screen ∷ []

-- A disabled daemon takes no snapshot.
unfoldable pub daemon_pages : Settings → Option Presence → List String
daemon_pages c none = requested_pages c
daemon_pages c (some p) = available_pages p (requested_pages c)

pub data DaemonError : Type 0 where
  index_error : DaemonError

-- The tuple that tells one rotation set-up from another.
pub record Identity : Type 0 where
  pub screen : String
  pub theme : String
  pub rotation_enabled : Bool
  pub rotation_seconds : ℕ
  pub rotation_screens : List String

abbrev pub identity_of : Settings → Identity
identity_of c = record {
  screen = c.screen;
  theme = c.theme;
  rotation_enabled = c.rotation_enabled;
  rotation_seconds = c.rotation_seconds;
  rotation_screens = c.rotation_screens;
}

abbrev pub same_bool : Bool → Bool → Bool
same_bool true b = b
same_bool false b = not b

abbrev pub same_texts : List String → List String → Bool
same_texts [] [] = true
same_texts (s ∷ ss) (t ∷ ts) = s ≈ t && same_texts ss ts
same_texts _ _ = false

abbrev pub same_identity : Identity → Option Identity → Bool
same_identity i none = false
same_identity i (some j) =
    i.screen ≈ j.screen
    && i.theme ≈ j.theme
    && same_bool i.rotation_enabled j.rotation_enabled
    && i.rotation_seconds == j.rotation_seconds
    && same_texts i.rotation_screens j.rotation_screens

-- The variables of the loop: `active_screen`, `config_identity`, `rotation_deadline`.
pub record Daemon : Type 0 where
  pub active : Option String
  pub identity : Option Identity
  pub deadline : ℕ

abbrev pub initial : Daemon
initial = record { active = none; identity = none; deadline = 0 }

abbrev pub first : List String → Result DaemonError String
first pages = or_raise (get_elem? pages 0) index_error

-- pages.index(page), or the length where the page is not there
unfoldable pub index : String → List String → ℕ
index page [] = 0
index page (p ∷ ps) = if page ≈ p then 0 else suc (index page ps)

-- pages[(pages.index(active_screen) + 1) % len(pages)]
unfoldable pub next_page : String → List String → Result DaemonError String
unfolding index
next_page active pages =
    or_raise (get_elem? pages ((index active pages + 1) % length pages)) index_error

abbrev pub period : Settings → ℕ
period c = c.rotation_seconds * 1000

-- A page is chosen anew, and stays for a whole period.
abbrev pub show : Settings → ℕ → Daemon → String → Daemon
show c now d page = record d { active = some page; deadline = now + period c }

-- the branch `identity != config_identity`
unfoldable pub restart : Settings → List String → ℕ → Daemon → Result DaemonError Daemon
restart c pages now d = do
  page ← (if c.rotation_enabled && elem c.screen pages then ok c.screen else first pages)
  ok (record { active = some page; identity = some (identity_of c); deadline = now + period c })

abbrev pub rotate_from :
    Option String → Settings → List String → ℕ → Daemon → Result DaemonError Daemon
rotate_from none c pages now d = do page ← first pages; ok (show c now d page)
rotate_from (some active) c pages now d =
    if not (elem active pages)
    then (do page ← first pages; ok (show c now d page))
    else if leb d.deadline now
    then (do page ← next_page active pages; ok (show c now d page))
    else ok d

-- the branch `elif config["rotation_enabled"]`
unfoldable pub rotate : Settings → List String → ℕ → Daemon → Result DaemonError Daemon
rotate c pages now d = rotate_from d.active c pages now d

-- One turn of the loop, up to the drawing.
unfoldable pub turn : Settings → Option Presence → ℕ → Daemon → Result DaemonError Daemon
turn c snapshot now d =
    let pages = daemon_pages c snapshot in
    if not (same_identity (identity_of c) d.identity)
    then restart c pages now d
    else if c.rotation_enabled
    then rotate c pages now d
    else (do page ← first pages; ok (record d { active = some page }))

-- How long the loop sleeps behind a turn, at the clock `later`.
unfoldable pub sleep_for : Settings → ℕ → Daemon → ℕ
sleep_for c later d =
    let refresh = c.refresh_seconds * 1000 in
    if c.rotation_enabled then min refresh (max 100 (d.deadline - later)) else refresh

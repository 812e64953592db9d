-- ===== src/Daemon/Step.antt =====
-- One turn of the daemon: the page it shows, its deadline, its sleep.
use edgepi_e87n.Base.{
  ℕ, zero, suc, ◌+◌, ◌*◌, ◌≤◌, ◌<◌, ◌%◌, String, ◌≡◌, ◌≢◌, ◌⊎◌, refl, ap, ◌∙◌, true, false, ◌&&◌,
  List, [], ◌∷◌, Option, none, some, arith, ≈_refl, if◌then◌else◌, elem, Bool-cases, inl, inr,
  length, get_elem?, Result, ok, ◌>>=◌, leb,
}
use edgepi_e87n.Daemon.{
  Settings, Presence, daemon_pages, DaemonError, Daemon, identity_of, same_identity, first, index,
  next_page, period, show, restart, rotate_from, rotate, turn, sleep_for,
}
use edgepi_e87n.Daemon.Pages.{daemon_pages-ne-nil}

-- The turn showed one of the pages, for at most a period from now.
pub record Shows (pages : List String) (page : String) (d : Daemon) : Type 0 where
  pub active : d.active ≡ some page
  pub listed : elem page pages ≡ true

get_elem?-lt :
    (pages : List String) (i : ℕ)
    → i < length pages
    → (page : String) × (get_elem? pages i ≡ some page) × (elem page pages ≡ true)
get_elem?-lt [] i h = elim h [ ]
get_elem?-lt (p ∷ ps) zero h = (p, refl, ground (arith, ≈_refl p))
get_elem?-lt (p ∷ ps) (suc i) h =
    let (page, found, listed) = get_elem?-lt ps i (omega arith) in
    (page, found, ground (arith, listed))

first-elem :
    (pages : List String)
    → pages ≢ []
    → (page : String) × (first pages ≡ ok page) × (elem page pages ≡ true)
first-elem [] ne = absurd (ne refl)
first-elem (p ∷ ps) ne = (p, refl, ground (arith, ≈_refl p))

length_pos : (pages : List String) → pages ≢ [] → 0 < length pages
length_pos [] ne = absurd (ne refl)
length_pos (p ∷ ps) ne = omega arith

next_page-elem :
    (active : String) (pages : List String)
    → pages ≢ []
    → (page : String) × (next_page active pages ≡ ok page) × (elem page pages ≡ true)
unfolding next_page
next_page-elem active pages ne =
    let pos = length_pos pages ne in
    let (page, found, listed) =
      get_elem?-lt pages ((index active pages + 1) % length pages) (grind arith) in
    (page, rw found, listed)

abbrev restarted : Settings → ℕ → String → Daemon
restarted c now page = record {
  active = some page;
  identity = some (identity_of c);
  deadline = now + period c;
}

-- The page was chosen now and is due a period later, or it is still the old one and not yet due.
abbrev pub Due : Settings → ℕ → Daemon → Daemon → Type 0
Due c now old new = (new.deadline ≡ now + period c) ⊎ ((new ≡ old) × (now < old.deadline))

module _ (c : Settings) (pages : List String) (now : ℕ) (ne : pages ≢ []) where
  restart-Shows :
      (d : Daemon)
      → (page : String) × (restart c pages now d ≡ ok (restarted c now page))
        × (elem page pages ≡ true)
  unfolding restart
  restart-Shows d = elim (Bool-cases (c.rotation_enabled && elem c.screen pages)) [
    | inl kept ↦ (c.screen, rw kept, ground arith)
    | inr changed ↦
        let (page, found, listed) = first-elem pages ne in (page, rw (changed, found), listed)
  ]

  -- the first page, from now on
  first_shown :
      (d : Daemon)
      → (new : Daemon) × (page : String) × ((first pages >>= λ p. ok (show c now d p)) ≡ ok new)
        × Shows pages page new
        × Due c now d new
  first_shown d =
      let (page, found, listed) = first-elem pages ne in
      (show c now d page, page, rw found, record { active = refl; listed = listed }, inl refl)

  rotate_from-Shows :
      (active : Option String) (d : Daemon)
      → d.active ≡ active
      → (new : Daemon) × (page : String) × (rotate_from active c pages now d ≡ ok new)
        × Shows pages page new
        × Due c now d new
  rotate_from-Shows none d e = first_shown d
  rotate_from-Shows (some active) d e = elim (Bool-cases (elem active pages)) [
    | inr gone ↦ rw gone (first_shown d)
    | inl there ↦ elim (Bool-cases (leb d.deadline now)) [
      | inl due ↦
          let (page, found, listed) = next_page-elem active pages ne in
          (
            show c now d page,
            page,
            rw (there, due, found),
            record { active = refl; listed = listed },
            inl refl,
          )
      | inr early ↦ (
        d,
        active,
        rw (there, early),
        record { active = e; listed = there },
        inr (refl, ground arith),
      )
    ]
  ]

module _ (c : Settings) (snapshot : Option Presence) (now : ℕ) (d : Daemon) where
  pub turn_on :
      same_identity (identity_of c) d.identity ≡ true
      → c.rotation_enabled ≡ true
      → turn c snapshot now d ≡ rotate_from d.active c (daemon_pages c snapshot) now d
  unfolding turn rotate
  turn_on same on =
      rw same
        (ap (λ b. if b then rotate_from d.active c (daemon_pages c snapshot) now d else still) on)
    where
      still : Result DaemonError Daemon
      still = do page ← first (daemon_pages c snapshot); ok (record d { active = some page })

module _ (c : Settings) (snapshot : Option Presence) (now : ℕ) (d : Daemon)
    (valid : c.rotation_screens ≢ []) where
  abbrev pages_now : List String
  pages_now = daemon_pages c snapshot

  pages_now-ne-nil : pages_now ≢ []
  pages_now-ne-nil = daemon_pages-ne-nil c snapshot valid

  turn_off :
      same_identity (identity_of c) d.identity ≡ true
      → c.rotation_enabled ≡ false
      → turn c snapshot now d ≡ (first pages_now >>= λ page. ok (record d { active = some page }))
  unfolding turn
  turn_off same off = rw same (ap (λ b. if b then rotate c pages_now now d else still) off)
    where
      still : Result DaemonError Daemon
      still = do page ← first pages_now; ok (record d { active = some page })

  -- With a list of rotation pages that is not empty, a turn never raises, and shows one of the
  -- pages of the moment. While rotation is on, the page was chosen now and is due a period later,
  -- or nothing changed and it was not yet due.
  pub turn-Shows :
      (new : Daemon) × (page : String) × (turn c snapshot now d ≡ ok new)
      × Shows (daemon_pages c snapshot) page new
      × ((c.rotation_enabled ≡ false) ⊎ Due c now d new)
  unfolding turn
  turn-Shows = elim (Bool-cases (same_identity (identity_of c) d.identity)) [
    | inr changed ↦
        let (page, found, listed) = restart-Shows c pages_now now pages_now-ne-nil d in
        (
          restarted c now page,
          page,
          rw changed found,
          record { active = refl; listed = listed },
          inr (inl refl),
        )
    | inl same ↦ elim (Bool-cases c.rotation_enabled) [
      | inl on ↦
          let (new, page, found, shows, due) =
            rotate_from-Shows c pages_now now pages_now-ne-nil d.active d refl in
          (new, page, turn_on c snapshot now d same on ∙ found, shows, inr due)
      | inr off ↦
          let (page, found, listed) = first-elem pages_now pages_now-ne-nil in
          (
            record d { active = some page },
            page,
            turn_off same off ∙ rw found,
            record { active = refl; listed = listed },
            inl off,
          )
    ]
  ]

-- With a refresh interval of two seconds or more, the loop sleeps no longer than that interval,
-- and at least a tenth of a second.
pub sleep_for_bounds :
    (c : Settings) (later : ℕ) (d : Daemon)
    → 2 ≤ c.refresh_seconds
    → (100 ≤ sleep_for c later d) × (sleep_for c later d ≤ c.refresh_seconds * 1000)
unfolding sleep_for
sleep_for_bounds c later d h = ground arith

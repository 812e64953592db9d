-- ===== src/Daemon/Rotation.antt =====
-- Several turns of the daemon, one after the other.
use native.Mathlib.Nat.{mod-eq_of_lt, mod-add-mod}
use edgepi_e87n.Base.{
  ℕ, zero, suc, ◌+◌, ◌≤◌, ◌<◌, ◌%◌, String, ◌≡◌, refl, ap, sym, subst, ◌∙◌, Bool, true, false, List,
  [], ◌∷◌, Option, some, arith, ≈_iff, ≈_refl, elem, distinct, length, get_elem?, Result, ok, ◌>>=◌,
  le→leb,
}
use edgepi_e87n.Daemon.{
  Settings, Presence, daemon_pages, DaemonError, Daemon, Identity, identity_of, same_identity,
  same_texts, same_bool, index, next_page, period, show, rotate_from, turn,
}
use edgepi_e87n.Daemon.Step.{turn_on}

same_bool_refl : (b : Bool) → same_bool b b ≡ true
same_bool_refl true = refl
same_bool_refl false = refl

same_texts_refl : (ts : List String) → same_texts ts ts ≡ true
same_texts_refl [] = refl
same_texts_refl (t ∷ ts) = ground (arith, ≈_refl t, same_texts_refl ts)

same_identity_refl : (i : Identity) → same_identity i (some i) ≡ true
same_identity_refl i = ground (
  arith,
  ≈_refl i.screen,
  ≈_refl i.theme,
  same_bool_refl i.rotation_enabled,
  same_texts_refl i.rotation_screens,
)

elem-get_elem? :
    (pages : List String) (i : ℕ) (page : String)
    → get_elem? pages i ≡ some page
    → (elem page pages ≡ true) × (i < length pages)
elem-get_elem? [] i page h = cc
elem-get_elem? (p ∷ ps) zero page h = (ground (arith, ≈_iff page p), omega arith)
elem-get_elem? (p ∷ ps) (suc i) page h =
    let (there, small) = elem-get_elem? ps i page h in (ground (arith, there), omega arith)

index-get_elem? :
    (pages : List String) (i : ℕ) (page : String)
    → distinct pages ≡ true
    → get_elem? pages i ≡ some page
    → index page pages ≡ i
unfolding index
index-get_elem? [] i page d h = cc
index-get_elem? (p ∷ ps) zero page d h = ground (arith, ≈_iff page p)
index-get_elem? (p ∷ ps) (suc i) page d h =
    ground (arith, index-get_elem? ps i page, ≈_iff page p, elem-get_elem? ps i page h)

get_elem?-some :
    (pages : List String) (i : ℕ)
    → i < length pages
    → (page : String) × (get_elem? pages i ≡ some page)
get_elem?-some [] i h = elim h [ ]
get_elem?-some (p ∷ ps) zero h = (p, refl)
get_elem?-some (p ∷ ps) (suc i) h = get_elem?-some ps i (omega arith)

-- Turns at the given times, with the configuration and the telemetry unchanged.
pub turns : Settings → Option Presence → List ℕ → Daemon → Result DaemonError Daemon
turns c snapshot [] d = ok d
turns c snapshot (now ∷ times) d = do d' ← turn c snapshot now d; turns c snapshot times d'

-- Each time is past the deadline that stands then.
abbrev pub AllDue : Settings → ℕ → List ℕ → Type 0
AllDue c deadline [] = Unit {0}
AllDue c deadline (now ∷ times) = (deadline ≤ now) × AllDue c (now + period c) times

-- The daemon shows page number `i` of the pages under this configuration.
pub record At (c : Settings) (pages : List String) (i : ℕ) (d : Daemon) : Type 0 where
  pub identity : d.identity ≡ some (identity_of c)
  pub page : String
  pub found : get_elem? pages i ≡ some page
  pub active : d.active ≡ some page

next_index : (n i k : ℕ) → ((i + 1) % n + k) % n ≡ (i + suc k) % n
next_index n i k = mod-add-mod (i + 1) n k ∙ ap (λ m. m % n) (omega arith)

stay : (n i : ℕ) → i < n → i ≡ (i + 0) % n
stay n i h = sym (mod-eq_of_lt (omega arith)) ∙ ap (λ m. m % n) (omega arith)

rotate_due :
    (c : Settings) (pages : List String) (i now : ℕ) (d : Daemon) (page : String)
    → distinct pages ≡ true
    → get_elem? pages i ≡ some page
    → d.deadline ≤ now
    → (next : String) × (get_elem? pages ((i + 1) % length pages) ≡ some next)
      × (rotate_from (some page) c pages now d ≡ ok (show c now d next))
unfolding next_page
rotate_due c pages i now d page once found due =
    let (there, small) = elem-get_elem? pages i page found in
    let (next, next_found) = get_elem?-some pages ((i + 1) % length pages) (grind arith) in
    (
      next,
      next_found,
      rw (there, le→leb d.deadline now due, index-get_elem? pages i page once found, next_found),
    )

module _ (c : Settings) (snapshot : Option Presence) (on : c.rotation_enabled ≡ true)
    (once : distinct (daemon_pages c snapshot) ≡ true) where
  abbrev pages_now : List String
  pages_now = daemon_pages c snapshot

  turn_next :
      (i now : ℕ) (d : Daemon)
      → At c pages_now i d
      → d.deadline ≤ now
      → (new : Daemon) × (turn c snapshot now d ≡ ok new)
        × At c pages_now ((i + 1) % length pages_now) new
        × (new.deadline ≡ now + period c)
  turn_next i now d here due =
      let same : same_identity (identity_of c) d.identity ≡ true =
        rw here.identity (same_identity_refl (identity_of c)) in
      let (next, found, rotated) = rotate_due c pages_now i now d here.page once here.found due in
      (
        show c now d next,
        turn_on c snapshot now d same on
            ∙ ap (λ a. rotate_from a c pages_now now d) here.active
            ∙ rotated,
        record { identity = here.identity; page = next; found = found; active = refl },
        refl,
      )

  -- With distinct pages, unchanged configuration and telemetry, and each turn past the deadline,
  -- k turns move from page i to page (i + k) modulo the number of pages: every page has its turn.
  pub turns_cycle :
      (times : List ℕ) (i : ℕ) (d : Daemon)
      → At c (daemon_pages c snapshot) i d
      → i < length (daemon_pages c snapshot)
      → AllDue c d.deadline times
      → (new : Daemon) × (turns c snapshot times d ≡ ok new)
        × At c (daemon_pages c snapshot) ((i + length times) % length (daemon_pages c snapshot)) new
  unfolding turns
  turns_cycle [] i d here small due =
      (d, refl, subst (λ j. At c pages_now j d) (stay (length pages_now) i small) here)
  turns_cycle (now ∷ times) i d here small (early, later) =
      let (mid, went, there, set_to) = turn_next i now d here early in
      let (new, ran, at) =
        turns_cycle times ((i + 1) % length pages_now) mid there (grind arith)
          (subst (λ t. AllDue c t times) (sym set_to) later) in
      (
        new,
        rw went ran,
        subst (λ j. At c pages_now j new) (next_index (length pages_now) i (length times)) at,
      )

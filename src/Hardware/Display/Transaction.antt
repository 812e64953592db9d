-- ===== src/Hardware/Display/Transaction.antt =====
-- The saved configuration and the panel behind a setter of `display`.
use edgepi_e87n.Base.{
  ℕ, ◌≤◌, ◌≡◌, ◌≢◌, refl, ◌⊎◌, inl, inr, true, [], ◌∷◌, some, Result, ok, err, ◌∙◌, subst, ap, sym,
  List, Result-cases, bind-eq-ok, ◌>>◌,
}
use edgepi_e87n.Json.{obj, Fields, update}
use edgepi_e87n.Hardware.{HardwareError}
use edgepi_e87n.Hardware.Config.Valid.{IsConfig, validate_config-IsConfig, validate_config_idem}
use edgepi_e87n.Hardware.Backlight.{Writing, raw_of_config, apply_config}
use edgepi_e87n.Hardware.Backlight.Writes.{power_on, level, apply_config_done}
use edgepi_e87n.Hardware.Saving.{Disk, Trace, save}
use edgepi_e87n.Hardware.Saving.Atomic.{saved, All, IsKept, save-IsKept, save-ok}
use edgepi_e87n.Hardware.Display.{
  Machine, Outcome, require_write_authority, load_config, save_config, raised, applied,
  apply_traced, apply_saved, merged, display_set, guarded, display,
}

merged-IsConfig :
    (changes : Fields) (disk : Disk) (config : Fields)
    → merged changes disk ≡ ok config
    → IsConfig config
unfolding merged
merged-IsConfig changes disk config h =
    let (old, loaded, valid) = bind-eq-ok (load_config disk) _ h in
    validate_config-IsConfig (obj (update old changes)) config valid

-- the second validation, in `_save_config_at`, always passes
save_merged_lem :
    (m : Machine) (changes config : Fields) (disk : Disk)
    → merged changes disk ≡ ok config
    → save_config m config disk ≡ save m.saving config disk
unfolding merged save_config
save_merged_lem m changes config disk h =
    let (old, loaded, valid) = bind-eq-ok (load_config disk) _ h in
    rw (validate_config_idem (obj (update old changes)) config valid)

-- what may stand in the file after a setter
abbrev pub FileAfter : Fields → Disk → Disk → Type 0
FileAfter changes old new =
    (new.file ≡ old.file)
    ⊎ ((c : Fields) × (merged changes old ≡ ok c) × IsConfig c × (new.file ≡ some (saved c)))

abbrev made : Disk → Disk
made disk = record disk { directory = true }

display_set_ok :
    (m : Machine) (changes config : Fields) (disk : Disk)
    → merged changes (made disk) ≡ ok config
    → display_set m changes disk ≡ apply_saved m config (save m.saving config (made disk))
unfolding display_set
display_set_ok m changes config disk h = rw (h, save_merged_lem m changes config (made disk) h)

display_set_err :
    (m : Machine) (changes : Fields) (disk : Disk) (e : HardwareError)
    → merged changes (made disk) ≡ err e
    → display_set m changes disk ≡ raised (made disk) e
unfolding display_set
display_set_err m changes disk e h = rw h

merged-made : (changes : Fields) (disk : Disk) → merged changes (made disk) ≡ merged changes disk
unfolding merged load_config
merged-made changes disk = refl

-- The three ways that a setter can go.
data SetCases (m : Machine) (changes : Fields) (disk : Disk) : Outcome → Type 0 where
  refused : (e : HardwareError) → SetCases m changes disk (raised disk e)
  invalid : (e : HardwareError) → SetCases m changes disk (raised (made disk) e)
  saving :
      (c : Fields)
      → merged changes disk ≡ ok c
      → SetCases m changes disk (apply_saved m c (save m.saving c (made disk)))

display_set-SetCases :
    (m : Machine) (changes : Fields) (disk : Disk)
    → SetCases m changes disk (display_set m changes disk)
display_set-SetCases m changes disk = elim (Result-cases (merged changes disk)) [
  | inl (c, h) ↦ rw (display_set_ok m changes c disk (merged-made changes disk ∙ h)) (saving c h)
  | inr (e, h) ↦ rw (display_set_err m changes disk e (merged-made changes disk ∙ h)) (invalid e)
]

guarded-SetCases :
    (m : Machine) (changes : Fields) (disk : Disk) (r : Result HardwareError (Unit {0}))
    → SetCases m changes disk (guarded r disk (display_set m changes disk))
guarded-SetCases m changes disk (ok _) = display_set-SetCases m changes disk
guarded-SetCases m changes disk (err e) = refused e

display-SetCases :
    (m : Machine) (changes : Fields) (disk : Disk)
    → SetCases m changes disk (display m (some changes) disk)
unfolding display
display-SetCases m changes disk =
    guarded-SetCases m changes disk (require_write_authority m >> m.panel)

applied-disk :
    (passed : List Disk) (new : Disk) (c : Fields) (w : Writing)
    → ((applied passed new c w).disk ≡ new) × ((applied passed new c w).passed ≡ passed)
applied-disk passed new c (issued, ok _) = (refl, refl)
applied-disk passed new c (issued, err e) = (refl, refl)

apply_traced-disk :
    (m : Machine) (c : Fields) (t : Trace) (r : Result HardwareError (Unit {0}))
    → ((apply_traced m c t r).disk ≡ t.now) × ((apply_traced m c t r).passed ≡ t.passed)
apply_traced-disk m c t (ok _) = applied-disk t.passed t.now c (apply_config m.kernel c)
apply_traced-disk m c t (err e) = (refl, refl)

apply_traced-ran :
    (m : Machine) (c : Fields) (t : Trace) (r : Result HardwareError (Unit {0}))
    → (apply_traced m c t r).issued ≢ []
    → r ≡ ok tt
apply_traced-ran m c t (ok _) ne = refl
apply_traced-ran m c t (err e) ne = absurd (ne refl)

applied_done :
    (passed : List Disk) (new : Disk) (c d : Fields) (w : Writing)
    → (applied passed new c w).result ≡ ok d
    → (c ≡ d) × (w.1 ≡ ok tt) × ((applied passed new c w).issued ≡ w.0)
applied_done passed new c d (issued, ok _) h = (cc, refl, refl)
applied_done passed new c d (issued, err e) h = cc

apply_traced_done :
    (m : Machine) (c d : Fields) (t : Trace) (r : Result HardwareError (Unit {0}))
    → (apply_traced m c t r).result ≡ ok d
    → (r ≡ ok tt)
      × (c ≡ d)
      × ((apply_config m.kernel c).1 ≡ ok tt)
      × ((apply_traced m c t r).issued ≡ (apply_config m.kernel c).0)
apply_traced_done m c d t (ok _) h =
    let (same, done, trace) = applied_done t.passed t.now c d (apply_config m.kernel c) h in
    (refl, same, done, trace)
apply_traced_done m c d t (err e) h = absurd (cc h)

All-map :
    (P Q : Disk → Type 0) (f : (d : Disk) → P d → Q d) (disks : List Disk)
    → All P disks
    → All Q disks
All-map P Q f [] h = tt
All-map P Q f (d ∷ disks) h = (f d h.0, All-map P Q f disks h.1)

kept_after :
    (changes c : Fields) (disk new : Disk)
    → merged changes disk ≡ ok c
    → IsKept c (made disk) new
    → FileAfter changes disk new
kept_after changes c disk new h (inl old) = inl old
kept_after changes c disk new h (inr put) = inr (c, h, merged-IsConfig changes disk c h, put)

file_after :
    {m : Machine} {changes : Fields} {disk : Disk} {out : Outcome}
    → SetCases m changes disk out
    → FileAfter changes disk out.disk × All (FileAfter changes disk) out.passed
file_after (refused e) = (inl refl, tt)
file_after (invalid e) = (inl refl, tt)
file_after {m} {changes} {disk} (saving c h) =
    let t = save m.saving c (made disk) in
    let (now, passed) = save-IsKept m.saving c (made disk) in
    let (is_now, is_passed) = apply_traced-disk m c t t.result in
    (
      subst (λ d. FileAfter changes disk d) (sym is_now) (kept_after changes c disk t.now h now),
      subst (λ l. All (FileAfter changes disk) l) (sym is_passed)
          (All-map (IsKept c (made disk)) (FileAfter changes disk)
            (λ d k. kept_after changes c disk d h k) t.passed passed),
    )

-- A setter is atomic on the saved configuration. In the state that it leaves, and in every state that the
-- directory goes through between two of its system calls, so also where the machine stops there,
-- and whichever of the calls fail: the file is as before, or it holds the old configuration with the
-- changes, complete, valid, and flushed to the storage.
pub display_atomic :
    (m : Machine) (changes : Fields) (disk : Disk)
    → FileAfter changes disk (display m (some changes) disk).disk
      × All (FileAfter changes disk) (display m (some changes) disk).passed
display_atomic m changes disk = file_after (display-SetCases m changes disk)

file_saved :
    (m : Machine) (c : Fields) (disk : Disk)
    → (save m.saving c disk).result ≡ ok tt
    → (apply_saved m c (save m.saving c disk)).disk.file ≡ some (saved c)
file_saved m c disk ran =
    let t = save m.saving c disk in
    ap (λ (d : Disk). d.file) (apply_traced-disk m c t t.result).0 ∙ save-ok m.saving c disk ran

persisted :
    {m : Machine} {changes : Fields} {disk : Disk} {out : Outcome}
    → SetCases m changes disk out
    → out.issued ≢ []
    → (c : Fields) × (merged changes disk ≡ ok c) × IsConfig c × (out.disk.file ≡ some (saved c))
persisted (refused e) ne = absurd (ne refl)
persisted (invalid e) ne = absurd (ne refl)
persisted {m} {changes} {disk} (saving c h) ne =
    let t = save m.saving c (made disk) in
    (
      c,
      h,
      merged-IsConfig changes disk c h,
      file_saved m c (made disk) (apply_traced-ran m c t t.result ne),
    )

-- Persist first: if a setter has written to the panel at all, even if the write then failed, the
-- file already holds the valid merged configuration, flushed to the storage.
pub display_persists_first :
    (m : Machine) (changes : Fields) (disk : Disk)
    → (display m (some changes) disk).issued ≢ []
    → (c : Fields) × (merged changes disk ≡ ok c)
      × IsConfig c
      × ((display m (some changes) disk).disk.file ≡ some (saved c))
display_persists_first m changes disk = persisted (display-SetCases m changes disk)

succeeded :
    {m : Machine} {changes : Fields} {disk : Disk} {out : Outcome} {c : Fields}
    → SetCases m changes disk out
    → out.result ≡ ok c
    → IsConfig c
      × (merged changes disk ≡ ok c)
      × (out.disk.file ≡ some (saved c))
      × (raw : ℕ) × (raw_of_config c ≡ ok raw)
      × (raw ≤ 26)
      × (out.issued ≡ power_on ∷ level raw ∷ [])
succeeded (refused e) h = cc
succeeded (invalid e) h = cc
succeeded {m} {changes} {disk} {c} (saving d k) h =
    let t = save m.saving d (made disk) in
    let (ran, is_c, done, trace) = apply_traced_done m d c t t.result h in
    let (raw, level_of, low, writes) = apply_config_done m.kernel d done in
    (
      subst IsConfig is_c (merged-IsConfig changes disk d k),
      k ∙ ap ok is_c,
      file_saved m d (made disk) ran ∙ ap (λ x. some (saved x)) is_c,
      raw,
      subst (λ x. raw_of_config x ≡ ok raw) is_c level_of,
      low,
      trace ∙ writes,
    )

-- A setter that returns has saved the configuration that it returns, and has set the panel to it:
-- `bl_power` 0 and the raw level of the configuration, in 0..26.
pub display_success :
    (m : Machine) (changes c : Fields) (disk : Disk)
    → (display m (some changes) disk).result ≡ ok c
    → IsConfig c
      × (merged changes disk ≡ ok c)
      × ((display m (some changes) disk).disk.file ≡ some (saved c))
      × (raw : ℕ) × (raw_of_config c ≡ ok raw)
      × (raw ≤ 26)
      × ((display m (some changes) disk).issued ≡ power_on ∷ level raw ∷ [])
display_success m changes c disk = succeeded (display-SetCases m changes disk)

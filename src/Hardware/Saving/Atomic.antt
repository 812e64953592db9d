-- ===== src/Hardware/Saving/Atomic.antt =====
-- The file display.json in every state that a save goes through.
use edgepi_e87n.Base.{
  true, List, [], ◌∷◌, some, Result, ok, err, ◌≡◌, ◌⊎◌, inl, inr, refl, ap, ◌∙◌, sym,
}
use edgepi_e87n.Json.{obj, Fields}
use edgepi_e87n.Hardware.{HardwareError}
use edgepi_e87n.Hardware.Saving.{
  whole, File, Disk, Trace, SaveCalls, same, created, written, half_written, synced_file, moved,
  answered, unless_raised, call, try_save, open_temporary, clean_up, begin, save,
}

-- The file of a configuration that is complete, and on the storage.
abbrev pub saved : Fields → File
saved config = record { content = whole (obj config); synced = true }

abbrev pub All : (Disk → Type 0) → List Disk → Type 0
All P [] = Unit
All P (d ∷ disks) = P d × All P disks

-- In all states up to now.
abbrev pub Always : (Disk → Type 0) → Trace → Type 0
Always P t = P t.now × All P t.passed

module _ (P : Disk → Type 0) where
  unless-Always :
      (r : Result HardwareError (Unit {0})) (t next : Trace)
      → Always P t
      → (r ≡ ok tt → Always P next)
      → Always P (unless_raised r t next)
  unless-Always (ok _) t next now later = later refl
  unless-Always (err e) t next now later = now

  answered-Always :
      (answer : Result HardwareError (Unit {0})) (done failed : Disk → Disk) (t : Trace)
      → Always P t
      → P (done t.now)
      → P (failed t.now)
      → Always P (answered answer done failed t)
  answered-Always (ok _) done failed t now good bad = (good, now)
  answered-Always (err e) done failed t now good bad = (bad, now)

  call-Always :
      (answer : Result HardwareError (Unit {0})) (done failed : Disk → Disk) (t : Trace)
      → Always P t
      → (t.result ≡ ok tt → P (done t.now))
      → P (failed t.now)
      → Always P (call answer done failed t)
  unfolding call
  call-Always answer done failed t now good bad =
      unless-Always t.result t (answered answer done failed t) now
        (λ ran. answered-Always answer done failed t now (good ran) bad)

unless-ok :
    (r : Result HardwareError (Unit {0})) (t next : Trace)
    → t.result ≡ r
    → (unless_raised r t next).result ≡ ok tt
    → (r ≡ ok tt) × (unless_raised r t next ≡ next)
unless-ok (ok _) t next same_result h = (refl, refl)
unless-ok (err e) t next same_result h = absurd (cc (same_result, h))

answered-ok :
    (answer : Result HardwareError (Unit {0})) (done failed : Disk → Disk) (t : Trace)
    → (answered answer done failed t).result ≡ ok tt
    → (answered answer done failed t).now ≡ done t.now
answered-ok (ok _) done failed t h = refl
answered-ok (err e) done failed t h = absurd (cc h)

-- A call that leaves no exception was made, and has done its work.
call-ok :
    (answer : Result HardwareError (Unit {0})) (done failed : Disk → Disk) (t : Trace)
    → (call answer done failed t).result ≡ ok tt
    → (t.result ≡ ok tt) × ((call answer done failed t).now ≡ done t.now)
unfolding call
call-ok answer done failed t h =
    let (ran, is_next) = unless-ok t.result t (answered answer done failed t) refl h in
    (
      ran,
      ap (λ (x : Trace). x.now) is_next
          ∙ answered-ok answer done failed t (sym (ap (λ (x : Trace). x.result) is_next) ∙ h),
    )

-- The file is as before the save, or complete and on the storage.
abbrev pub IsKept : Fields → Disk → Disk → Type 0
IsKept config old d = (d.file ≡ old.file) ⊎ (d.file ≡ some (saved config))

module _ (s : SaveCalls) (config : Fields) (old : Disk) where
  abbrev Kept : Disk → Type 0
  Kept d = IsKept config old d

  abbrev flushed : Trace → Trace
  flushed t =
      call s.sync synced_file same
        (call s.write (written config) half_written (call s.trusted same same t))

  flushed-temporary :
      (t : Trace) → (flushed t).result ≡ ok tt → (flushed t).now.temporary ≡ some (saved config)
  flushed-temporary t h =
      let (filled, now) = call-ok s.sync synced_file same _ h in
      let (checked, before) = call-ok s.write (written config) half_written _ filled in
      ap (λ (d : Disk). d.temporary) (now ∙ ap (λ d. synced_file d) before)

  try_save-Always : (t : Trace) → Always Kept t → Always Kept (try_save s config t)
  unfolding try_save
  try_save-Always t h =
      let checked = call-Always Kept s.trusted same same t h (λ _. h.0) (h.0) in
      let filled =
        call-Always Kept s.write (written config) half_written _ checked (λ _. checked.0)
          (checked.0) in
      let synced = call-Always Kept s.sync synced_file same _ filled (λ _. filled.0) (filled.0) in
      let replaced =
        call-Always Kept s.replace moved same (flushed t) synced
          (λ ran. inr (flushed-temporary t ran)) (synced.0) in
      call-Always Kept s.sync_directory same same _ replaced (λ _. replaced.0) (replaced.0)

  try_save-ok :
      (t : Trace)
      → (try_save s config t).result ≡ ok tt
      → (try_save s config t).now.file ≡ some (saved config)
  unfolding try_save
  try_save-ok t h =
      let (replaced, now) = call-ok s.sync_directory same same _ h in
      let (synced, before) = call-ok s.replace moved same (flushed t) replaced in
      ap (λ (d : Disk). d.file) (now ∙ before) ∙ flushed-temporary t synced

  clean_up-Always :
      (close unlink : Result HardwareError (Unit {0})) (t : Trace)
      → Always Kept t
      → Always Kept (clean_up close unlink t)
  unfolding clean_up
  clean_up-Always (ok _) (ok _) t h = (h.0, h)
  clean_up-Always (ok _) (err e) t h = (h.0, h)
  clean_up-Always (err e) unlink t h = (h.0, h)

  clean_up-ok :
      (close unlink : Result HardwareError (Unit {0})) (t : Trace)
      → (clean_up close unlink t).result ≡ ok tt
      → (t.result ≡ ok tt) × ((clean_up close unlink t).now.file ≡ t.now.file)
  unfolding clean_up
  clean_up-ok (ok _) (ok _) t h = (h, refl)
  clean_up-ok (ok _) (err e) t h = absurd (cc h)
  clean_up-ok (err e) unlink t h = absurd (cc h)

  open_temporary-Always : Always Kept (open_temporary s old)
  unfolding open_temporary
  open_temporary-Always =
      let targeted =
        call-Always Kept s.target same same (begin old) (inl refl, tt) (λ _. inl refl) (inl refl) in
      call-Always Kept s.create created same (call s.target same same (begin old)) targeted
        (λ _. targeted.0) (targeted.0)

  abbrev finished : Trace
  finished = clean_up s.close s.unlink (try_save s config (open_temporary s old))

  -- Every state that a save goes through, whichever of its calls fail, has the file as it was or
  -- complete and on the storage.
  pub save-IsKept : Always Kept (save s config old)
  unfolding save
  save-IsKept =
      unless-Always Kept (open_temporary s old).result (open_temporary s old) finished
        open_temporary-Always
        (λ ran.
          clean_up-Always s.close s.unlink (try_save s config (open_temporary s old))
            (try_save-Always (open_temporary s old) open_temporary-Always))

  -- A save that returns has put the file in place.
  pub save-ok :
      (save s config old).result ≡ ok tt → (save s config old).now.file ≡ some (saved config)
  unfolding save
  save-ok h =
      let opened = open_temporary s old in
      let (ran, is_next) = unless-ok opened.result opened finished refl h in
      let (tried, kept) =
        clean_up-ok s.close s.unlink (try_save s config opened)
          (sym (ap (λ (x : Trace). x.result) is_next) ∙ h) in
      ap (λ (x : Trace). x.now.file) is_next ∙ (kept ∙ try_save-ok opened tried)

-- ===== src/Hardware/Backlight/Writes.antt =====
-- The writes that `_apply_config` issues.
use edgepi_e87n.Base.{
  ℕ, ◌==◌, ◌≤◌, ◌≡◌, ◌≢◌, refl, ap, subst, sym, length, Option, none, some, Result, List,
  Bool-cases, ◌⊎◌, inl, inr, [], ◌∷◌, ◌++◌, ok, err, arith, decimal, bind-eq-ok, Result-cases,
}
use edgepi_e87n.Json.{Fields}
use edgepi_e87n.Hardware.{HardwareError, os_error, short_write}
use edgepi_e87n.Hardware.Config.{get}
use edgepi_e87n.Hardware.Backlight.{
  bl_power, brightness, Write, Kernel, Writing, raw_of_config, percent_of, then_write, write_value,
  answer, write_raw, apply_config,
}
use edgepi_e87n.Hardware.Backlight.Range.{raw_brightness_bounds}

abbrev pub power_on : Write
power_on = record { attribute = bl_power; payload = b'0' ∷ b'\n' ∷ [] }

abbrev pub level : ℕ → Write
level raw = record { attribute = brightness; payload = decimal raw ++ b'\n' ∷ [] }

decimal-zero : decimal 0 ≡ b'0' ∷ []
unfolding decimal
decimal-zero = refl

answer-cases :
    (o : Option ℕ) (n : ℕ)
    → ((answer o n ≡ ok tt) × (o ≡ some n))
      ⊎ ((e : HardwareError) × (answer o n ≡ err e) × (o ≢ some n))
answer-cases none n = inr (os_error, refl, λ h. cc h)
answer-cases (some m) n = elim (Bool-cases (m == n)) [
  | inl same ↦ inl (ground (arith, same), ground (arith, same))
  | inr apart ↦ inr (short_write, ground (arith, apart), λ h. ground (arith, apart, h))
]

-- A write that takes the first one, and then the second.
then_write-ok :
    (first : List Write) (r : Result HardwareError (Unit {0})) (b : Writing)
    → r ≡ ok tt
    → then_write (first, r) b ≡ (first ++ b.0, b.1)
then_write-ok first r (more, result) h = rw h refl

then_write-err :
    (first : List Write) (r : Result HardwareError (Unit {0})) (b : Writing) (e : HardwareError)
    → r ≡ err e
    → then_write (first, r) b ≡ (first, err e)
then_write-err first r b e h = rw h refl

-- The configuration has no level, and nothing is written.
abbrev NoLevel : Fields → Writing → Type 0
NoLevel config w = (e : HardwareError) × (raw_of_config config ≡ err e) × (w.0 ≡ []) × (w.1 ≡ err e)

-- The kernel did not take the first write, and no other follows.
abbrev PowerRefused : Kernel → Writing → Type 0
PowerRefused kernel w =
    (e : HardwareError) × (kernel bl_power power_on.payload ≢ some 2)
    × (w.0 ≡ power_on ∷ [])
    × (w.1 ≡ err e)

-- The kernel took the first write whole, and the second one decides.
abbrev BothIssued : Kernel → Fields → Writing → Type 0
BothIssued kernel config w =
    (raw : ℕ) × (raw_of_config config ≡ ok raw)
    × (kernel bl_power power_on.payload ≡ some 2)
    × (w.0 ≡ power_on ∷ level raw ∷ [])
    × (w.1
        ≡ answer (kernel brightness (Write.payload (level raw)))
            (length (Write.payload (level raw))))

abbrev pub IssuedInOrder : Kernel → Fields → Writing → Type 0
IssuedInOrder kernel config w =
    NoLevel config w ⊎ (PowerRefused kernel w ⊎ BothIssued kernel config w)

write_both :
    (kernel : Kernel) (config : Fields) (raw : ℕ)
    → raw_of_config config ≡ ok raw
    → IssuedInOrder kernel config
        (then_write (write_value kernel bl_power 0) (write_value kernel brightness raw))
unfolding write_value
write_both kernel config raw e =
    rw (decimal-zero) (elim (answer-cases (kernel bl_power power_on.payload) 2) [
      | inl (taken, whole) ↦
          let done = then_write-ok (power_on ∷ []) _ (write_value kernel brightness raw) taken in
          inr (inr (raw, e, whole, ap (λ w. w.0) done, ap (λ w. w.1) done))
      | inr (x, refused, short) ↦
          let done =
            then_write-err (power_on ∷ []) _ (write_value kernel brightness raw) x refused in
          inr (inl (x, short, ap (λ w. w.0) done, ap (λ w. w.1) done))
    ])

-- Whatever the kernel answers, there are three ways. The configuration has no level: nothing is written,
-- and its error is raised. The kernel does not take the two bytes of `bl_power` 0: an error is raised
-- and the level is not written. It takes them: the level of the configuration is written behind, and
-- the call succeeds or fails as that write does. `bl_power` gets no other value.
pub apply_config_writes :
    (kernel : Kernel) (config : Fields) → IssuedInOrder kernel config (apply_config kernel config)
unfolding apply_config
apply_config_writes kernel config = elim (Result-cases (raw_of_config config)) [
  | inr (e, failed) ↦
      let same = ap (λ r. write_raw kernel r) failed in
      inl (e, failed, ap (λ (w : Writing). w.0) same, ap (λ (w : Writing). w.1) same)
  | inl (raw, e) ↦
      subst (λ w. IssuedInOrder kernel config w) (sym (ap (λ r. write_raw kernel r) e))
        (write_both kernel config raw e)
]

raw_of_config-le : (config : Fields) (raw : ℕ) → raw_of_config config ≡ ok raw → raw ≤ 26
unfolding raw_of_config
raw_of_config-le config raw h =
    let (enabled, _, rest) = bind-eq-ok (get config "enabled") _ h in
    let (percent, _, found) = bind-eq-ok (percent_of config enabled) _ rest in
    (raw_brightness_bounds percent 26 raw found).4

-- If it returns, both writes were issued and taken whole, and the level lies in 0..26.
pub apply_config_done :
    (kernel : Kernel) (config : Fields)
    → (apply_config kernel config).1 ≡ ok tt
    → (raw : ℕ) × (raw_of_config config ≡ ok raw)
      × (raw ≤ 26)
      × ((apply_config kernel config).0 ≡ power_on ∷ level raw ∷ [])
unfolding apply_config write_value
apply_config_done kernel config h = elim (Result-cases (raw_of_config config)) [
  | inr (e, failed) ↦ absurd (ground (arith, failed))
  | inl (raw, e) ↦ (raw, e, raw_of_config-le config raw e, ground (arith, e, decimal-zero))
]

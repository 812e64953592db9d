-- ===== src/Doctor/Kernel/Symbols.antt =====
-- The states of the kernel symbols in board-support/e87n/doctor.py.
use edgepi_e87n.Base.{
  true, false, List, [], ◌∷◌, Option, none, some, ◌≡◌, refl, ◌∙◌, arith, map, if◌then◌else◌, Bytes,
  ◌=ᵇ◌, =ᵇ-eq, =ᵇ_refl, =ᵇ_sym, lines, String, Option-cases, inl, inr, any, Bool-cases, subst, ap,
}
use edgepi_e87n.Doctor.Identity.{or_empty}
use edgepi_e87n.Doctor.Patterns.{config_line}
use edgepi_e87n.Doctor.Kernel.{
  Setting, is_choice, assign, set_line, set_lines, blank, settings_of, setting, symbols, config_key,
}

-- The values that the lines give a key, in their order.
pub assignments : Bytes → List Bytes → List Bytes
assignments key [] = []
assignments key (line ∷ rest) = elim (config_line line) [
  | none ↦ assignments key rest
  | some (name, value) ↦ if key =ᵇ name then value ∷ assignments key rest else assignments key rest
]

-- the one value of a key, if it is y, m or n
pub only_choice : List Bytes → Option Bytes
only_choice (value ∷ []) = if is_choice value then some value else none
only_choice _ = none

-- the entry of a key behind the assignments of these values
evolve : Bytes → List Bytes → Setting → Setting
evolve key [] s = s
evolve key (value ∷ rest) s = evolve key rest (assign key value s)

evolve_void :
    (key : Bytes) (values : List Bytes) (s : Setting)
    → (key =ᵇ s.key) ≡ true
    → s.seen ≡ true
    → s.value ≡ none
    → (evolve key values s).value ≡ none
unfolding evolve assign
evolve_void key [] s same seen void = void
evolve_void key (value ∷ rest) s same seen void =
    evolve_void key rest (assign key value s) (ground arith) (ground arith) (ground arith)

evolve-only_choice :
    (key : Bytes) (values : List Bytes) → (evolve key values (blank key)).value ≡ only_choice values
unfolding evolve assign blank only_choice
evolve-only_choice key [] = refl
evolve-only_choice key (value ∷ []) = ground (arith, =ᵇ_refl key)
evolve-only_choice key (value ∷ second ∷ rest) =
    let first = assign key value (blank key) in
    evolve_void key rest (assign key second first) (ground (arith, =ᵇ_refl key))
      (ground (arith, =ᵇ_refl key)) (ground (arith, =ᵇ_refl key))

find : Bytes → List Setting → Option Setting
find key [] = none
find key (s ∷ settings) = if key =ᵇ s.key then some s else find key settings

setting-find :
    (key : Bytes) (settings : List Setting) (s : Setting)
    → find key settings ≡ some s
    → setting key settings ≡ s.value
unfolding find setting
setting-find key [] s h = cc
setting-find key (t ∷ settings) s h = ground (arith, setting-find key settings s)

find-map :
    (key name value : Bytes) (settings : List Setting) (s : Setting)
    → find key settings ≡ some s
    → find key (map (assign name value) settings) ≡ some (assign name value s)
unfolding find assign
find-map key name value [] s h = cc
find-map key name value (t ∷ settings) s h = ground (arith, find-map key name value settings s)

same-assign :
    (key value : Bytes) (s : Setting)
    → (key =ᵇ s.key) ≡ true
    → (key =ᵇ (assign key value s).key) ≡ true
unfolding assign
same-assign key value s same = ground arith

assign-other :
    (key name value : Bytes) (s : Setting)
    → (key =ᵇ s.key) ≡ true
    → (key =ᵇ name) ≡ false
    → assign name value s ≡ s
unfolding assign
assign-other key name value s same apart =
    let k = =ᵇ-eq key s.key same in
    let away : (name =ᵇ s.key) ≡ false =
      subst (λ (b : Bytes). (name =ᵇ b) ≡ false) k (=ᵇ_sym name key ∙ apart) in
    ground (arith, away)

set_line-none :
    (line : Bytes) (settings : List Setting)
    → config_line line ≡ none
    → set_line line settings ≡ settings
unfolding set_line
set_line-none line settings e = rw (set_line, e) refl

set_line-some :
    (line name value : Bytes) (settings : List Setting)
    → config_line line ≡ some (name, value)
    → set_line line settings ≡ map (assign name value) settings
unfolding set_line
set_line-some line name value settings e = rw (set_line, e) refl

assignments-none :
    (key line : Bytes) (rest : List Bytes)
    → config_line line ≡ none
    → assignments key (line ∷ rest) ≡ assignments key rest
unfolding assignments
assignments-none key line rest e = rw (assignments, e) refl

assignments-some :
    (key line name value : Bytes) (rest : List Bytes)
    → config_line line ≡ some (name, value)
    → assignments key (line ∷ rest)
      ≡ (if key =ᵇ name then value ∷ assignments key rest else assignments key rest)
unfolding assignments
assignments-some key line name value rest e = rw (assignments, e) refl

find-set_lines :
    (key : Bytes) (text : List Bytes) (settings : List Setting) (s : Setting)
    → (key =ᵇ s.key) ≡ true
    → find key settings ≡ some s
    → find key (set_lines text settings) ≡ some (evolve key (assignments key text) s)
unfolding set_lines evolve
find-set_lines key [] settings s same h = unfold assignments in h
find-set_lines key (line ∷ rest) settings s same h = elim (Option-cases (config_line line)) [
  | inl e ↦
      rw (set_line-none line settings e, assignments-none key line rest e)
        (find-set_lines key rest settings s same h)
  | inr ((name, value), e) ↦ elim (Bool-cases (key =ᵇ name)) [
    | inl about ↦
        let set =
          subst
            (λ (n : Bytes). find key (map (assign n value) settings) ≡ some (assign key value s))
            (=ᵇ-eq key name about) (find-map key key value settings s h) in
        rw
          (
            set_line-some line name value settings e,
            assignments-some key line name value rest e,
            about,
          )
          (find-set_lines key rest (map (assign name value) settings) (assign key value s)
            (same-assign key value s same) set)
    | inr apart ↦
        let kept =
          find-map key name value settings s h
          ∙ ap some (assign-other key name value s same apart) in
        rw
          (
            set_line-some line name value settings e,
            assignments-some key line name value rest e,
            apart,
          )
          (find-set_lines key rest (map (assign name value) settings) s same kept)
  ]
]

find-blank :
    (key : Bytes) (names : List String)
    → any (λ n. key =ᵇ config_key n) names ≡ true
    → find key (map (λ n. blank (config_key n)) names) ≡ some (blank key)
unfolding find blank
find-blank key [] h = cc
find-blank key (n ∷ names) h = ground (arith, find-blank key names, =ᵇ-eq key (config_key n))

-- The state of a symbol in the report is y, m or n exactly as the configuration gives it, where one
-- line and no other is about the symbol. A symbol that no line is about, or more than one, or one with
-- another value, is reported as unknown.
pub settings_of-only_choice :
    (config : Option Bytes) (key : Bytes)
    → any (λ n. key =ᵇ config_key n) symbols ≡ true
    → setting key (settings_of config) ≡ only_choice (assignments key (lines (or_empty config)))
unfolding settings_of blank
settings_of-only_choice config key h =
    let text = lines (or_empty config) in
    let same : (key =ᵇ (blank key).key) ≡ true = =ᵇ_refl key in
    setting-find key (settings_of config) (evolve key (assignments key text) (blank key))
      (find-set_lines key text _ (blank key) same (find-blank key symbols h))
    ∙ evolve-only_choice key (assignments key text)

-- ===== src/Base/Text.antt =====
-- Texts that are only compared, as native strings, and lists of them.
use Prim.Native.Char.{code}
use Prim.Native.String.{String}
use mathlib.Core.Path.{◌≡◌, refl}
use mathlib.Core.Logic.{◌↔◌}
use mathlib.Core.Bool.{Bool, true, false, ◌&&◌, ◌||◌, not}
use mathlib.Core.List.{List, [], ◌∷◌}
use native.Mathlib.Omega.{arith}
use text.Mathlib.Text.{◌==◌ as str_eq}
use text.Mathlib.TextEquality.{eq_iff}
use text.Mathlib.TextPositions.{eq_refl}
use Prim.Native.Nat.{ℕ}
use edgepi_e87n.Base.Tests.{Bool-ext, &&_true}
use edgepi_e87n.Base.Lists.{all}

infix 50 ◌≈◌
abbrev pub ◌≈◌ : String → String → Bool
s ≈ t = str_eq s t

pub ≈_iff : (s t : String) → ((s ≈ t) ≡ true) ↔ (s ≡ t)
≈_iff s t = eq_iff s t

pub ≈_refl : (s : String) → (s ≈ s) ≡ true
≈_refl s = eq_refl s

-- The code points of a text: its bytes, if it is ASCII.
abbrev pub codes : String → List ℕ
codes String.[] = []
codes (String.◌∷◌ c s) = code c ∷ codes s

-- name in names
abbrev pub elem : String → List String → Bool
elem s [] = false
elem s (t ∷ ts) = s ≈ t || elem s ts

-- len(set(names)) == len(names)
abbrev pub distinct : List String → Bool
distinct [] = true
distinct (s ∷ ss) = not (elem s ss) && distinct ss

-- set(a) <= set(b), set(a) == set(b)
abbrev pub subset : List String → List String → Bool
subset a b = all (λ s. elem s b) a

abbrev pub same_set : List String → List String → Bool
same_set a b = subset a b && subset b a

pub elem-subset :
    (s : String) (a b : List String) → subset a b ≡ true → elem s a ≡ true → elem s b ≡ true
elem-subset s [] b h m = cc
elem-subset s (t ∷ a) b h m = ground (arith, elem-subset s a b, eq_iff s t)

pub subset_intro :
    (a b : List String) → ((s : String) → elem s a ≡ true → elem s b ≡ true) → subset a b ≡ true
subset_intro [] b f = refl
subset_intro (t ∷ a) b f =
    ground (arith, f t, eq_refl t, subset_intro a b (λ s m. f s (ground arith)))

pub elem-same_set : (s : String) (a b : List String) → same_set a b ≡ true → elem s a ≡ elem s b
elem-same_set s a b h =
    let (p, q) = &&_true (subset a b) (subset b a) h in
    Bool-ext (elem s a) (elem s b) (elem-subset s a b p) (elem-subset s b a q)

pub same_set_intro :
    (a b : List String) → ((s : String) → elem s a ≡ elem s b) → same_set a b ≡ true
same_set_intro a b f =
    ground (arith, subset_intro a b (λ s m. cc (f s)), subset_intro b a (λ s m. cc (f s)))

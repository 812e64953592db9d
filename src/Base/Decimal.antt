-- ===== src/Base/Decimal.antt =====
-- Decimal text of a number, as an f-string prints it and as `int` reads it back.
use Prim.Native.Nat.{ℕ, zero, suc, ◌+◌, ◌-◌, ◌*◌, ◌/◌, ◌%◌, ◌<◌}
use mathlib.Core.Path.{◌≡◌, refl, ap, ◌∙◌}
use mathlib.Core.Bool.{Bool, true, ◌&&◌}
use mathlib.Core.List.{[], ◌∷◌}
use native.Mathlib.Omega.{arith}
use edgepi_e87n.Base.Tests.{ltb, leb, if◌then◌else◌, Bool-cases}
use edgepi_e87n.Base.Lists.{all}
use edgepi_e87n.Base.ByteString.{Bytes}
use mathlib.Core.Logic.{inl, inr}

abbrev pub is_digit : ℕ → Bool
is_digit c = leb b'0' c && leb c b'9'

-- On fuel; `decimal` gives more than the number of digits.
digits : ℕ → ℕ → Bytes → Bytes
digits zero n rest = rest
digits (suc fuel) n rest =
    let more = digits fuel (n / 10) ((b'0' + n % 10) ∷ rest) in
    if ltb n 10 then (b'0' + n) ∷ rest else more

unfoldable pub decimal : ℕ → Bytes
unfolding digits
decimal n = digits (n + 1) n []

unfoldable pub read_onto : ℕ → Bytes → ℕ
read_onto acc [] = acc
read_onto acc (c ∷ cs) = read_onto (acc * 10 + (c - b'0')) cs

-- int(text) of a text of digits
unfoldable pub read_decimal : Bytes → ℕ
unfolding read_onto
read_decimal = read_onto 0

read_onto-digits :
    (fuel n : ℕ) (rest : Bytes) → n < fuel → read_onto 0 (digits fuel n rest) ≡ read_onto n rest
unfolding digits read_onto
read_onto-digits zero n rest h = elim h [ ]
read_onto-digits (suc fuel) n rest h = elim (Bool-cases (ltb n 10)) [
  | inl small ↦ rw small (ap (λ m. read_onto m rest) (ground arith))
  | inr big ↦ rw big (
      read_onto-digits fuel (n / 10) ((b'0' + n % 10) ∷ rest) (ground arith)
      ∙ ap (λ m. read_onto m rest) (ground arith))
]

-- Reading back the decimal text of a number gives the number.
pub read_decimal-decimal : (n : ℕ) → read_decimal (decimal n) ≡ n
unfolding read_decimal decimal
read_decimal-decimal n = read_onto-digits (n + 1) n [] (omega arith)

all-digits :
    (fuel n : ℕ) (rest : Bytes)
    → all is_digit rest ≡ true
    → all is_digit (digits fuel n rest) ≡ true
unfolding digits
all-digits zero n rest h = h
all-digits (suc fuel) n rest h = ground (arith, all-digits fuel (n / 10) ((b'0' + n % 10) ∷ rest))

pub all-is_digit-decimal : (n : ℕ) → all is_digit (decimal n) ≡ true
unfolding decimal
all-is_digit-decimal n = all-digits (n + 1) n [] refl

-- ===== src/Hardware/Number/Bounds.antt =====
-- The range of `_integer`, and the texts that the kernel prints.
use edgepi_e87n.Base.{
  ℕ, ◌≤◌, ◌≡◌, true, ◌&&◌, Option, none, some, arith, length, Bytes, leb, le→leb, decimal,
  all-is_digit-decimal, read_decimal-decimal, read_decimal, [], ◌∷◌, Option-cases, inl, inr,
}
use edgepi_e87n.Json.{ℤ, pos}
use edgepi_e87n.Hardware.Number.{leb_ℤ, signed, integer, is_digits}

-- A number that `_integer` returns lies between the bounds.
pub integer_bounds :
    (text : Option Bytes) (minimum maximum value : ℤ)
    → integer text minimum maximum ≡ some value
    → (leb_ℤ minimum value && leb_ℤ value maximum) ≡ true
unfolding integer
integer_bounds none minimum maximum value h = cc
integer_bounds (some text) minimum maximum value h = elim (Option-cases (signed text)) [
  | inl e ↦ ground arith
  | inr (v, e) ↦ ground (arith, e)
]

signed_digits :
    (text : Bytes) → is_digits text ≡ true → signed text ≡ some (pos (read_decimal text))
unfolding signed
signed_digits [] h = cc
signed_digits (c ∷ text) h = ground arith

-- The decimal text of a number between the bounds, of at most twenty digits, is read back as that
-- number.
pub integer-decimal :
    (n low high : ℕ)
    → low ≤ n
    → n ≤ high
    → (leb 1 (length (decimal n)) && leb (length (decimal n)) 20) ≡ true
    → integer (some (decimal n)) (pos low) (pos high) ≡ some (pos n)
unfolding integer
integer-decimal n low high p q h = ground (
  arith,
  signed_digits (decimal n),
  all-is_digit-decimal n,
  read_decimal-decimal n,
  le→leb low n p,
  le→leb n high q,
)

-- ===== src/Hardware/Number.antt =====
-- `_integer` of board-support/e87n/hardware.py: a bounded integer out of a sysfs attribute.
pub mod Bounds
use edgepi_e87n.Base.{
  ℕ, zero, suc, ◌-◌, Bool, true, false, ◌&&◌, List, [], ◌∷◌, Option, none, some, leb, ltb, ◌==◌,
  if◌then◌else◌, length, all, Bytes, is_digit, read_decimal,
}
use edgepi_e87n.Json.{ℤ, pos, negsuc}

abbrev pub leb_ℤ : ℤ → ℤ → Bool
leb_ℤ (pos a) (pos b) = leb a b
leb_ℤ (pos a) (negsuc b) = false
leb_ℤ (negsuc a) (pos b) = true
leb_ℤ (negsuc a) (negsuc b) = leb b a

-- -n
abbrev pub negate : ℕ → ℤ
negate zero = pos 0
negate (suc n) = negsuc n

-- [0-9]{1,20}
abbrev pub is_digits : Bytes → Bool
is_digits text = leb 1 (length text) && leb (length text) 20 && all is_digit text

-- The value of a text that matches -?[0-9]{1,20}.
unfoldable pub signed : Bytes → Option ℤ
signed [] = none
signed (c ∷ text) =
    if c == b'-'
    then (if is_digits text then some (negate (read_decimal text)) else none)
    else if is_digits (c ∷ text)
    then some (pos (read_decimal (c ∷ text)))
    else none

abbrev pub within : ℤ → ℤ → Option ℤ → Option ℤ
within minimum maximum none = none
within minimum maximum (some value) =
    if leb_ℤ minimum value && leb_ℤ value maximum then some value else none

unfoldable pub integer : Option Bytes → ℤ → ℤ → Option ℤ
integer none minimum maximum = none
integer (some text) minimum maximum = within minimum maximum (signed text)

-- ===== src/Base/ByteString.antt =====
-- Python's `bytes`: a list of numbers below 256, with the methods that the program calls.
use Prim.Native.Nat.{ℕ, suc, ◌+◌, ◌-◌, ◌*◌, ◌/◌, ◌%◌}
use mathlib.Core.Path.{◌≡◌, refl}
use mathlib.Core.Bool.{Bool, true, false, ◌&&◌}
use mathlib.Core.Option.{Option, none, some}
use mathlib.Core.List.{List, [], ◌∷◌}
use native.Mathlib.Omega.{arith}
use edgepi_e87n.Base.Tests.{◌==◌, if◌then◌else◌}
use edgepi_e87n.Base.Lists.{take, drop}

abbrev pub Bytes : Type 0
Bytes = List ℕ

infix 50 ◌=ᵇ◌
abbrev pub ◌=ᵇ◌ : Bytes → Bytes → Bool
[] =ᵇ [] = true
(x ∷ xs) =ᵇ (y ∷ ys) = x == y && xs =ᵇ ys
_ =ᵇ _ = false

-- value in values, for lists of byte strings
abbrev pub bytes_elem : Bytes → List Bytes → Bool
bytes_elem b [] = false
bytes_elem b (c ∷ cs) = if b =ᵇ c then true else bytes_elem b cs

-- data[start:end]
abbrev pub slice : ℕ → ℕ → Bytes → Bytes
slice start end data' = take (end - start) (drop start data')

abbrev pub starts_with : Bytes → Bytes → Bool
starts_with [] b = true
starts_with (x ∷ xs) [] = false
starts_with (x ∷ xs) (y ∷ ys) = x == y && starts_with xs ys

-- data.endswith(bytes((last,)))
abbrev pub ends_with : ℕ → Bytes → Bool
ends_with last [] = false
ends_with last (x ∷ []) = x == last
ends_with last (x ∷ y ∷ ys) = ends_with last (y ∷ ys)

-- data.split(bytes((sep,))): the first piece, and those behind it
abbrev split_step : Bool → ℕ → Bytes × List Bytes → Bytes × List Bytes
split_step true c (p, ps) = ([], p ∷ ps)
split_step false c (p, ps) = (c ∷ p, ps)

abbrev split_pieces : ℕ → Bytes → Bytes × List Bytes
split_pieces sep [] = ([], [])
split_pieces sep (c ∷ cs) = split_step (c == sep) c (split_pieces sep cs)

abbrev pub split : ℕ → Bytes → List Bytes
split sep b = (split_pieces sep b).0 ∷ (split_pieces sep b).1

-- data.rstrip(b"\0")
abbrev pub rstrip_nul : Bytes → Bytes
rstrip_nul [] = []
rstrip_nul (x ∷ xs) = let rest = rstrip_nul xs in if rest =ᵇ [] && x == 0 then [] else x ∷ rest

-- the offset of the first `c` in `b`, or none: bytes.find
abbrev pub find_byte : ℕ → Bytes → Option ℕ
find_byte c [] = none
find_byte c (x ∷ xs) =
    if x == c then some 0 else elim (find_byte c xs) [ none ↦ none | some n ↦ some (suc n) ]

abbrev pub any_nonzero : Bytes → Bool
any_nonzero [] = false
any_nonzero (x ∷ xs) = if x == 0 then any_nonzero xs else true

-- big-endian and little-endian numbers, as `struct.unpack` and `int.from_bytes` read them
abbrev pub be_onto : ℕ → Bytes → ℕ
be_onto acc [] = acc
be_onto acc (x ∷ xs) = be_onto (acc * 256 + x) xs

abbrev pub be : Bytes → ℕ
be = be_onto 0

abbrev pub le : Bytes → ℕ
le [] = 0
le (x ∷ xs) = x + 256 * le xs

abbrev pub be32_at : Bytes → ℕ → ℕ
be32_at b i = be (slice i (i + 4) b)

abbrev pub le_at : ℕ → Bytes → ℕ → ℕ
le_at width b i = le (slice i (i + width) b)

-- struct.pack(">I", n)
abbrev pub be32 : ℕ → Bytes
be32 n = n / 16777216 % 256 ∷ n / 65536 % 256 ∷ n / 256 % 256 ∷ n % 256 ∷ []

pub =ᵇ-eq : (a b : Bytes) → a =ᵇ b ≡ true → a ≡ b
=ᵇ-eq [] [] h = refl
=ᵇ-eq (x ∷ a) (y ∷ b) h = ground (arith, =ᵇ-eq a b)
=ᵇ-eq [] (y ∷ b) h = cc
=ᵇ-eq (x ∷ a) [] h = cc

pub =ᵇ_refl : (a : Bytes) → a =ᵇ a ≡ true
=ᵇ_refl [] = refl
=ᵇ_refl (x ∷ a) = ground (arith, =ᵇ_refl a)

pub =ᵇ_sym : (a b : Bytes) → a =ᵇ b ≡ b =ᵇ a
=ᵇ_sym [] [] = refl
=ᵇ_sym [] (y ∷ b) = refl
=ᵇ_sym (x ∷ a) [] = refl
=ᵇ_sym (x ∷ a) (y ∷ b) = ground (arith, =ᵇ_sym a b)

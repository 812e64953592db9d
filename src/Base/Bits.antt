-- ===== src/Base/Bits.antt =====
-- `|` on numbers at variables.
use Prim.Native.Nat.{
  ℕ, zero, suc, ◌+◌, ◌*◌, ◌/◌, ◌%◌, ◌^◌, ◌≤◌, ◌<◌, max, bit_or, digits, bit_or-bitwise,
}
use mathlib.Core.Path.{◌≡◌, refl, ap, ◌∙◌}
use native.Mathlib.Omega.{arith}
use native.Mathlib.Nat.{pow-suc}

abbrev or_digits : ℕ → ℕ → ℕ → ℕ
or_digits n a b = digits (λ b. b) max n a b

-- any two fuels that cover the first number agree
enough : (b a m n : ℕ) → a ≤ m → a ≤ n → or_digits m a b ≡ or_digits n a b
enough b (suc a) (suc m) (suc n) low high =
    let halves = enough (b / 2) (suc a / 2) m n (omega (arith, low)) (omega (arith, high)) in
    omega (arith, halves)
enough b (suc a) zero n low high = absurd (omega (arith, low))
enough b (suc a) (suc m) zero low high = absurd (omega (arith, high))
enough b zero (suc m) (suc n) low high = refl
enough b zero (suc m) zero low high = refl
enough b zero zero (suc n) low high = refl
enough b zero zero zero low high = refl

zero-bit_or : (b : ℕ) → bit_or 0 b ≡ b
zero-bit_or = bit_or-bitwise 0

-- the lowest bit, and the rest
bit_or_step : (a b : ℕ) → bit_or a b ≡ bit_or (a / 2) (b / 2) * 2 + max (a % 2) (b % 2)
bit_or_step (suc a) b =
    let whole = bit_or-bitwise (suc a) b in
    let half = bit_or-bitwise (suc a / 2) (b / 2) in
    let same = enough (b / 2) (suc a / 2) a (suc a / 2) (omega arith) (omega arith) in
    omega (arith, whole, half, same)
bit_or_step zero b = omega (arith, zero-bit_or (b / 2), zero-bit_or b)

below-zero : (bound a : ℕ) → a ≤ bound → bit_or a 0 ≡ a
below-zero (suc bound) (suc a) small =
    let half = below-zero bound (suc a / 2) (omega (arith, small)) in
    let first = bit_or_step (suc a) 0 in omega (arith, first, half)
below-zero zero (suc a) small = absurd (omega (arith, small))
below-zero bound zero small = refl

pub bit_or-zero : (a : ℕ) → bit_or a 0 ≡ a
bit_or-zero a = below-zero a a (omega arith)

-- The upper parts and the lower parts of k bits are joined each for itself.
pub bit_or_split :
    (k a b c d : ℕ)
    → c < 2 ^ k
    → d < 2 ^ k
    → bit_or (a * 2 ^ k + c) (b * 2 ^ k + d) ≡ bit_or a b * 2 ^ k + bit_or c d
bit_or_split zero a b c d p q =
    let e : a * 2 ^ 0 + c ≡ a = omega arith in
    let f : b * 2 ^ 0 + d ≡ b = omega arith in
    let g : c ≡ 0 = omega arith in rw (e, f, g) (omega (arith, zero-bit_or d))
bit_or_split (suc k) a b c d p q =
    let x = a * 2 ^ suc k + c in
    let y = b * 2 ^ suc k + d in
    let twice : 2 ^ suc k ≡ 2 ^ k * 2 = pow-suc 2 k in
    let twice_of = λ (n : ℕ). ap (λ (t : ℕ). n * t) twice in
    let hx : x / 2 ≡ a * 2 ^ k + c / 2 = omega (arith, twice_of a) in
    let hy : y / 2 ≡ b * 2 ^ k + d / 2 = omega (arith, twice_of b) in
    let mx : x % 2 ≡ c % 2 = omega (arith, twice_of a) in
    let my : y % 2 ≡ d % 2 = omega (arith, twice_of b) in
    let rest = bit_or_split k a b (c / 2) (d / 2) (omega (arith, twice)) (omega (arith, twice)) in
    bit_or_step x y
    ∙ rw (hx, hy, mx, my, rest) (omega (arith, bit_or_step c d, twice_of (bit_or a b)))

-- Parts that do not touch are added.
pub bit_or_high : (k a d : ℕ) → d < 2 ^ k → bit_or (a * 2 ^ k) d ≡ a * 2 ^ k + d
bit_or_high k a d h =
    let e : a * 2 ^ k ≡ a * 2 ^ k + 0 = omega arith in
    let f : d ≡ 0 * 2 ^ k + d = omega arith in
    ap (λ t. bit_or t d) e
    ∙ ap (bit_or (a * 2 ^ k + 0)) f
    ∙ bit_or_split k a 0 0 d (omega arith) h
    ∙ omega (arith, ap (λ (t : ℕ). t * 2 ^ k) (bit_or-zero a), zero-bit_or d)

pub bit_or_low : (k c b : ℕ) → c < 2 ^ k → bit_or c (b * 2 ^ k) ≡ b * 2 ^ k + c
bit_or_low k c b h =
    let e : c ≡ 0 * 2 ^ k + c = omega arith in
    let f : b * 2 ^ k ≡ b * 2 ^ k + 0 = omega arith in
    ap (λ t. bit_or t (b * 2 ^ k)) e
    ∙ ap (bit_or (0 * 2 ^ k + c)) f
    ∙ bit_or_split k 0 b c 0 h (omega arith)
    ∙ omega (arith, ap (λ (t : ℕ). t * 2 ^ k) (zero-bit_or b), bit_or-zero c)

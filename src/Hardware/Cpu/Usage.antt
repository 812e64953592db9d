-- ===== src/Hardware/Cpu/Usage.antt =====
-- The range of `_cpu_usage`.
use edgepi_e87n.Base.{ℕ, ◌*◌, ◌≤◌, ◌<◌, ◌≡◌, List, [], ◌∷◌, Option, none, some, arith, Bytes}
use edgepi_e87n.Hardware.Cpu.{
  Fraction, deltas, sum, idle, usage_of, usage_between, read_sample, cpu_usage,
}

idle-le : (delta : List ℕ) → idle delta ≤ sum delta
unfolding sum
idle-le [] = omega arith
idle-le (a ∷ []) = omega arith
idle-le (a ∷ b ∷ []) = omega arith
idle-le (a ∷ b ∷ c ∷ []) = omega arith
idle-le (a ∷ b ∷ c ∷ d ∷ []) = ground arith
idle-le (a ∷ b ∷ c ∷ d ∷ e ∷ rest) = ground arith

-- A fraction between 0 and 100, of a whole that is not empty.
pub record IsPercentage (f : Fraction) : Type 0 where
  pub positive : 0 < f.denominator
  pub at_most : f.numerator ≤ 100 * f.denominator

usage_between-IsPercentage :
    (previous current : List ℕ) {f : Fraction}
    → usage_between previous current ≡ some f
    → IsPercentage f
unfolding usage_between
usage_between-IsPercentage previous current {f} h =
    let delta = deltas current previous in
    let same : usage_of delta ≡ f = ground arith in
    record { positive = ground (arith, same); at_most = ground (arith, same, idle-le delta) }

-- Whatever /proc/stat holds, a usage that is reported lies between 0 and 100 percent, also where a
-- counter went backwards or the number of counters changed between the two samples.
pub cpu_usage-IsPercentage :
    (previous : Option (List ℕ)) (text : Option Bytes) {f : Fraction}
    → (cpu_usage previous text).usage ≡ some f
    → IsPercentage f
unfolding cpu_usage
cpu_usage-IsPercentage previous text {f} h = go previous _ h
  where
    go : (p c : Option (List ℕ)) → (read_sample p c).usage ≡ some f → IsPercentage f
    go (some p) (some c) k = usage_between-IsPercentage p c k
    go none (some c) k = cc
    go p none k = cc

-- ===== src/Hardware/Cpu.antt =====
-- `_cpu_usage` of board-support/e87n/hardware.py. The usage is a fraction: the source divides two
-- ints into a float.
pub mod Usage
use edgepi_e87n.Base.{
  ℕ, zero, suc, ◌+◌, ◌-◌, ◌*◌, ◌^◌, Bool, true, false, not, ◌&&◌, ◌||◌, List, [], ◌∷◌, Option, none,
  some, ltb, leb, ◌==◌, if◌then◌else◌, get_or, length, take, codes, Bytes, ◌=ᵇ◌, words, first_line,
}
use edgepi_e87n.Json.{pos}
use edgepi_e87n.Hardware.Number.{integer}
use edgepi_e87n.Hardware.Fan.{natural}

pub record Fraction : Type 0 where
  pub numerator : ℕ
  pub denominator : ℕ

-- [_integer(field, 0, 2**64 - 1) for field in fields], or none if one of them is None
unfoldable pub counters : List Bytes → Option (List ℕ)
counters [] = some []
counters (field ∷ fields) =
    both (natural (integer (some field) (pos 0) (pos (2 ^ 64 - 1)))) (counters fields)
  where
    both : Option ℕ → Option (List ℕ) → Option (List ℕ)
    both (some n) (some ns) = some (n ∷ ns)
    both _ _ = none

-- The first eight counters of a line that starts with the word cpu.
unfoldable pub sample : List Bytes → Option (List ℕ)
sample [] = none
sample (name ∷ fields) =
    if name =ᵇ codes "cpu" && leb 5 (length fields + 1) && leb (length fields + 1) 11
    then elim (counters fields) [ none ↦ none | some values ↦ some (take 8 values) ]
    else none

unfoldable pub is_monotone : List ℕ → List ℕ → Bool
is_monotone (now ∷ current) (before ∷ previous) = leb before now && is_monotone current previous
is_monotone _ _ = true

unfoldable pub deltas : List ℕ → List ℕ → List ℕ
deltas (now ∷ current) (before ∷ previous) = (now - before) ∷ deltas current previous
deltas _ _ = []

unfoldable pub sum : List ℕ → ℕ
sum [] = 0
sum (n ∷ ns) = n + sum ns

abbrev pub idle : List ℕ → ℕ
idle delta = get_or delta 3 0 + (if ltb 4 (length delta) then get_or delta 4 0 else 0)

abbrev pub usage_of : List ℕ → Fraction
usage_of delta = record { numerator = (sum delta - idle delta) * 100; denominator = sum delta }

unfoldable pub usage_between : List ℕ → List ℕ → Option Fraction
usage_between previous current =
    let delta = deltas current previous in
    if not (length previous == length current)
    then none
    else if not (is_monotone current previous) || sum delta == 0
    then none
    else some (usage_of delta)

-- The answer, and the sample that stays in `_previous_cpu`.
pub record Reading : Type 0 where
  pub usage : Option Fraction
  pub previous : Option (List ℕ)

abbrev pub read_sample : Option (List ℕ) → Option (List ℕ) → Reading
read_sample previous none = record { usage = none; previous = none }
read_sample none (some current) = record { usage = none; previous = some current }
read_sample (some previous) (some current) = record {
  usage = usage_between previous current;
  previous = some current;
}

abbrev text_or_empty : Option Bytes → Bytes
text_or_empty none = []
text_or_empty (some text) = text

unfoldable pub cpu_usage : Option (List ℕ) → Option Bytes → Reading
cpu_usage previous text = read_sample previous (sample (words (first_line (text_or_empty text))))

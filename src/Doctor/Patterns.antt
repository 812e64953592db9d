-- ===== src/Doctor/Patterns.antt =====
-- The regular expressions of board-support/e87n/doctor.py, and `_number`.
use edgepi_e87n.Base.{
  ℕ, ◌+◌, ◌-◌, Bool, true, false, not, ◌&&◌, ◌||◌, List, [], ◌∷◌, Option, none, some, leb, ◌==◌,
  if◌then◌else◌, length, take, drop, all, map, Bytes, ◌=ᵇ◌, starts_with, split, codes, String,
  is_digit, read_decimal, is_space, find_byte,
}
use edgepi_e87n.Json.{ℤ, pos}
use edgepi_e87n.Hardware.Number.{negate, within}

unfoldable pub is_upper : ℕ → Bool
is_upper c = leb 65 c && leb c 90

unfoldable pub is_lower : ℕ → Bool
is_lower c = leb 97 c && leb c 122

unfoldable pub is_alnum : ℕ → Bool
is_alnum c = is_digit c || is_upper c || is_lower c

-- [class]{low,high}
unfoldable pub is_run : (ℕ → Bool) → ℕ → ℕ → Bytes → Bool
is_run class low high text = leb low (length text) && leb (length text) high && all class text

-- `prefix` in front of [0-9]{1,6}
unfoldable pub is_numbered : String → Bytes → Bool
is_numbered prefix name =
    starts_with (codes prefix) name && is_run is_digit 1 6 (drop (length (codes prefix)) name)

-- [A-Za-z0-9_.:-]{1,15}
unfoldable pub is_interface_name : Bytes → Bool
is_interface_name =
    is_run (λ c. is_alnum c || c == b'_' || c == b'.' || c == b':' || c == b'-') 1 15

unfoldable pub is_thermal_name : Bytes → Bool
is_thermal_name name = is_numbered "thermal_zone" name || is_numbered "cooling_device" name

-- the characters of the front that are in the class, and the rest
unfoldable pub span : (ℕ → Bool) → Bytes → Bytes × Bytes
span class [] = ([], [])
span class (c ∷ cs) =
    let (front, rest) = span class cs in if class c then (c ∷ front, rest) else ([], c ∷ cs)

-- -?[0-9]{1,16} as an int
unfoldable pub signed16 : Bytes → Option ℤ
signed16 [] = none
signed16 (c ∷ text) =
    if c == b'-'
    then (if is_run is_digit 1 16 text then some (negate (read_decimal text)) else none)
    else if is_run is_digit 1 16 (c ∷ text)
    then some (pos (read_decimal (c ∷ text)))
    else none

-- _number
unfoldable pub number_of : Option Bytes → ℤ → ℤ → Option ℤ
number_of none minimum maximum = none
number_of (some text) minimum maximum = within minimum maximum (signed16 text)

-- 13(?:\.[0-9]{1,3})?
unfoldable pub is_version_13 : Bytes → Bool
is_version_13 text =
    text =ᵇ codes "13" || (starts_with (codes "13.") text && is_run is_digit 1 3 (drop 3 text))

unfoldable pub is_triple : List Bytes → Bool
is_triple (a ∷ b ∷ c ∷ []) = is_run is_digit 1 3 a && is_run is_digit 1 3 b && is_run is_digit 1 3 c
is_triple _ = false

-- (?:[-+][A-Za-z0-9_.+-]{1,95})?
unfoldable pub is_suffix : Bytes → Bool
is_suffix [] = true
is_suffix (c ∷ cs) =
    (c == b'-' || c == b'+')
    && is_run (λ d. is_alnum d || d == b'_' || d == b'.' || d == b'+' || d == b'-') 1 95 cs

-- the version of a kernel release: three numbers, with a suffix behind them or none
unfoldable pub release_version : Bytes → Option Bytes
release_version text =
    let (version, suffix) = span (λ c. is_digit c || c == b'.') text in
    if is_triple (split b'.' version) && is_suffix suffix then some version else none

-- MemTotal:\s+([0-9]{1,16})\s+kB
unfoldable pub mem_total : Bytes → Option Bytes
mem_total line =
    let (space, after) = span is_space (drop 9 line) in
    let (digits, unit) = span is_digit after in
    let (gap, end) = span is_space unit in
    if starts_with (codes "MemTotal:") line
      && leb 1 (length space)
      && is_run is_digit 1 16 digits
      && leb 1 (length gap)
      && end =ᵇ codes "kB"
    then some digits
    else none

-- text.lower()
unfoldable pub lower : Bytes → Bytes
lower = map (λ c. if is_upper c then c + 32 else c)

-- (?:cpu|soc)[0-9]*(?:[^a-z]|$) at the front; the digits may be none
unfoldable pub starts_cpu : Bytes → Bool
starts_cpu text =
    (starts_with (codes "cpu") text || starts_with (codes "soc") text)
    && not (all is_lower (take 1 (drop 3 text)) && leb 4 (length text))

-- re.search(r"(?:^|[^a-z])(?:cpu|soc)[0-9]*(?:[^a-z]|$)", text); `inside` tells that a letter stands
-- in front
unfoldable pub names_cpu : Bool → Bytes → Bool
names_cpu inside [] = false
names_cpu inside (c ∷ cs) = (not inside && starts_cpu (c ∷ cs)) || names_cpu (is_lower c) cs

-- ([0-9]{1,5}),([0-9]{1,5})
unfoldable pub size_of : Bytes → Option (ℕ × ℕ)
size_of text =
    let (width, rest) = span is_digit text in
    if is_run is_digit 1 5 width
      && starts_with (codes ",") rest
      && is_run is_digit 1 5 (drop 1 rest)
    then some (read_decimal width, read_decimal (drop 1 rest))
    else none

unfoldable pub is_config_key : Bytes → Bool
is_config_key key =
    starts_with (codes "CONFIG_") key
    && is_run (λ c. is_upper c || is_digit c || c == b'_') 1 (length key) (drop 7 key)

-- text.partition(sep), where the separator is there
unfoldable pub partition_at : ℕ → Bytes → Option (Bytes × Bytes)
partition_at sep text = elim (find_byte sep text) [
  | none ↦ none
  | some i ↦ some (take i text, drop (i + 1) text)
]

-- # (CONFIG_[A-Z0-9_]+) is not set
unfoldable pub unset_line : Bytes → Option (Bytes × Bytes)
unset_line line =
    let key = take (length line - 13) (drop 2 line) in
    if starts_with (codes "# ") line
      && leb 13 (length line)
      && drop (length line - 11) line =ᵇ codes " is not set"
      && is_config_key key
    then some (key, codes "n")
    else none

-- A line of a kernel configuration: the key, and the value, which is `n` for a comment that says that
-- the key is not set.
unfoldable pub config_line : Bytes → Option (Bytes × Bytes)
config_line line = elim (partition_at b'=' line) [
  | some (name, value) ↦ if is_config_key name then some (name, value) else unset_line line
  | none ↦ unset_line line
]

-- [A-Za-z0-9_]{1,128}
unfoldable pub is_module_name : Bytes → Bool
is_module_name = is_run (λ c. is_alnum c || c == b'_') 1 128

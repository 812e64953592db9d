-- ===== src/Release/Texts.antt =====
-- The patterns of scripts/ci-publish-release.py: SAFE, SHA, the name of a display package, and the
-- status line of an HTTP answer.
use edgepi_e87n.Base.{
  ℕ, ◌-◌, String, Bool, false, not, ◌&&◌, ◌||◌, [], ◌∷◌, Option, none, some, leb, ◌==◌,
  if◌then◌else◌, length, drop, take, all, Bytes, ◌=ᵇ◌, starts_with, codes, is_digit, read_decimal,
}

unfoldable pub is_alnum : ℕ → Bool
is_alnum c = is_digit c || (leb 65 c && leb c 90) || (leb 97 c && leb c 122)

-- [A-Za-z0-9._-]
unfoldable pub is_safe_char : ℕ → Bool
is_safe_char c = is_alnum c || c == b'.' || c == b'_' || c == b'-'

-- text.endswith(end)
unfoldable pub ends_in : Bytes → Bytes → Bool
ends_in end text = leb (length end) (length text) && drop (length text - length end) text =ᵇ end

-- piece in text
unfoldable pub contains : Bytes → Bytes → Bool
contains piece [] = piece =ᵇ []
contains piece (c ∷ text) = starts_with piece (c ∷ text) || contains piece text

-- re.fullmatch(SAFE, value)
unfoldable pub matches_safe : Bytes → Bool
matches_safe [] = false
matches_safe (c ∷ cs) = is_alnum c && leb (length cs) 95 && all is_safe_char cs

unfoldable pub safe : String → Bool
safe value =
    matches_safe (codes value)
    && not (contains (codes "..") (codes value))
    && not (ends_in (codes ".") (codes value) || ends_in (codes ".lock") (codes value))

unfoldable pub is_hex : ℕ → Bool
is_hex c = is_digit c || (leb 65 c && leb c 70) || (leb 97 c && leb c 102)

-- re.fullmatch(SHA, value)
unfoldable pub is_sha : String → Bool
is_sha value = length (codes value) == 40 && all is_hex (codes value)

-- re.fullmatch(r"e87n-display_.+_all\.deb", name)
unfoldable pub is_display_package : String → Bool
is_display_package name =
    let text = codes name in
    starts_with (codes "e87n-display_") text
    && ends_in (codes "_all.deb") text
    && leb 22 (length text)
    && not (contains (10 ∷ []) (take (length text - 21) (drop 13 text)))

-- text.replace("\r\n", "\n")
unfoldable pub newlines : Bytes → Bytes
newlines [] = []
newlines (c ∷ cs) =
    let rest = newlines cs in if starts_with (13 ∷ 10 ∷ []) (c ∷ cs) then rest else c ∷ rest

-- text.partition("\n\n"): what stands before the first blank line and behind it, if there is one
unfoldable pub partition : Bytes → Option (Bytes × Bytes)
partition [] = none
partition (c ∷ cs) =
    let rest = partition cs in
    if starts_with (10 ∷ 10 ∷ []) (c ∷ cs)
    then some ([], drop 1 cs)
    else elim rest [ none ↦ none | some (head, body) ↦ some (c ∷ head, body) ]

unfoldable pub line_of : Bytes → Bytes
line_of [] = []
line_of (c ∷ cs) = let rest = line_of cs in if c == 10 then [] else c ∷ rest

-- `HTTP/d` or `HTTP/d.d`: what stands behind it
unfoldable pub after_version : Bytes → Option Bytes
after_version line =
    let text = drop 5 line in
    if not (starts_with (codes "HTTP/") line) || not (all is_digit (take 1 text)) || text =ᵇ []
    then none
    else if starts_with (codes ".") (drop 1 text)
        && all is_digit (take 1 (drop 2 text))
        && leb 3 (length text)
    then some (drop 3 text)
    else some (drop 1 text)

-- ` ([1-5]\d{2})(?: [^\n]*)?` of a line
unfoldable pub code_of : Bytes → Option ℕ
code_of rest =
    let code = read_decimal (take 3 (drop 1 rest)) in
    let digits = length (take 3 (drop 1 rest)) == 3 && all is_digit (take 3 (drop 1 rest)) in
    let tail = drop 4 rest =ᵇ [] || starts_with (codes " ") (drop 4 rest) in
    if starts_with (codes " ") rest && digits && leb 100 code && leb code 599 && tail
    then some code
    else none

-- the code of the first line of a header
unfoldable pub status_of : Bytes → Option ℕ
status_of header = elim (after_version (line_of header)) [ none ↦ none | some rest ↦ code_of rest ]

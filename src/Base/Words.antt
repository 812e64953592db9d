-- ===== src/Base/Words.antt =====
-- ASCII text as lines and words, the way `str.splitlines` and `str.split` divide it.
use Prim.Native.Nat.{ℕ}
use mathlib.Core.Bool.{Bool, not, ◌&&◌, ◌||◌}
use mathlib.Core.List.{List, [], ◌∷◌}
use edgepi_e87n.Base.Tests.{◌==◌, leb, if◌then◌else◌}
use edgepi_e87n.Base.ByteString.{Bytes, ◌=ᵇ◌, starts_with}

-- The ASCII characters at which `str.split` splits.
abbrev pub is_space : ℕ → Bool
is_space c = (leb 9 c && leb c 13) || (leb 28 c && leb c 32)

-- the first word, which a space may not have ended yet, and the words behind it
abbrev pub add_char : ℕ → List Bytes → List Bytes
add_char c [] = (c ∷ []) ∷ []
add_char c (word ∷ words) = (c ∷ word) ∷ words

abbrev pub pieces : Bytes → List Bytes
pieces [] = [] ∷ []
pieces (c ∷ cs) = if is_space c then [] ∷ pieces cs else add_char c (pieces cs)

abbrev pub nonempty : List Bytes → List Bytes
nonempty [] = []
nonempty (w ∷ ws) = if w =ᵇ [] then nonempty ws else w ∷ nonempty ws

-- str.split()
abbrev pub words : Bytes → List Bytes
words text = nonempty (pieces text)

-- The characters that end a line.
abbrev pub ends_line : ℕ → Bool
ends_line c = (leb 10 c && leb c 13) || (leb 28 c && leb c 30)

-- text.splitlines()[0], or the empty text
abbrev pub first_line : Bytes → Bytes
first_line [] = []
first_line (c ∷ cs) = if ends_line c then [] else c ∷ first_line cs

-- text.splitlines()
abbrev pub lines : Bytes → List Bytes
lines [] = []
lines (c ∷ cs) =
    let rest = lines cs in
    if c == 13 && starts_with (10 ∷ []) cs
    then rest
    else if ends_line c
    then [] ∷ rest
    else add_char c rest

-- text.splitlines(keepends=True)
abbrev pub kept_lines : Bytes → List Bytes
kept_lines [] = []
kept_lines (c ∷ cs) =
    let rest = kept_lines cs in
    if ends_line c && not (c == 13 && starts_with (10 ∷ []) cs)
    then (c ∷ []) ∷ rest
    else add_char c rest

-- text.lstrip(), text.rstrip(), text.strip()
abbrev pub lstrip : Bytes → Bytes
lstrip [] = []
lstrip (c ∷ cs) = let rest = lstrip cs in if is_space c then rest else c ∷ cs

abbrev pub rstrip : Bytes → Bytes
rstrip [] = []
rstrip (c ∷ cs) = let rest = rstrip cs in if rest =ᵇ [] && is_space c then [] else c ∷ rest

abbrev pub strip : Bytes → Bytes
strip text = rstrip (lstrip text)

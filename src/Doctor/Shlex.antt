-- ===== src/Doctor/Shlex.antt =====
-- `shlex.split` of the standard library, as board-support/e87n/doctor.py calls it: POSIX mode, split at
-- white space.
use edgepi_e87n.Base.{
  ℕ, Bool, true, false, ◌&&◌, ◌||◌, List, [], ◌∷◌, ◌++◌, Option, none, some, ◌==◌, if◌then◌else◌,
  Bytes,
}

-- Where the lexer stands; an escape remembers whether it is inside double quotes.
pub data Mode : Type 0 where
  between word single double escape escape_double : Mode

is_white : ℕ → Bool
is_white c = c == 9 || c == 10 || c == 13 || c == 32

-- `skipping` stands for the readline of a comment.
pub record Lexer : Type 0 where
  pub mode : Mode
  pub skipping : Bool
  pub quoted : Bool
  pub token : Bytes

abbrev start : Lexer
start = record { mode = between; skipping = false; quoted = false; token = [] }

abbrev in_word : Bool → Bytes → Lexer
in_word quoted token = record { mode = word; skipping = false; quoted = quoted; token = token }

abbrev to : Mode → Lexer → Lexer
to mode l = record l { mode = mode }

abbrev quote : Mode → Lexer → Lexer
quote mode l = record l { mode = mode; quoted = true }

-- a token that ends here, unless it is empty and was not quoted
abbrev ended : Bool → Bytes → Option Bytes
ended quoted [] = if quoted then some [] else none
ended quoted (c ∷ token) = some (c ∷ token)

-- One character: the state behind it, and the token that it ends.
unfoldable pub advance : Bool → Mode → Lexer → ℕ → Lexer × Option Bytes
unfolding is_white
advance comments between l c =
    if is_white c
    then (start, none)
    else if comments && c == b'#'
    then (record start { skipping = true }, none)
    else if c == 92
    then (to escape start, none)
    else if c == 39
    then (quote single start, none)
    else if c == 34
    then (quote double start, none)
    else (in_word false (c ∷ []), none)
advance comments word l c =
    if is_white c
    then (start, ended l.quoted l.token)
    else if comments && c == b'#'
    then (record start { skipping = true }, ended l.quoted l.token)
    else if c == 39
    then (quote single l, none)
    else if c == 34
    then (quote double l, none)
    else if c == 92
    then (to escape l, none)
    else (in_word l.quoted (l.token ++ (c ∷ [])), none)
advance comments single l c =
    if c == 39
    then (in_word true l.token, none)
    else (record l { token = l.token ++ (c ∷ []) }, none)
advance comments double l c =
    if c == 34
    then (in_word true l.token, none)
    else if c == 92
    then (to escape_double l, none)
    else (record l { token = l.token ++ (c ∷ []) }, none)
advance comments escape l c = (in_word l.quoted (l.token ++ (c ∷ [])), none)
advance comments escape_double l c =
    let kept : Bytes = if c == 92 || c == 34 then c ∷ [] else 92 ∷ c ∷ [] in
    (record l { mode = double; token = l.token ++ kept }, none)

abbrev consume : Bool → Lexer → ℕ → Lexer × Option Bytes
consume comments l c =
    if l.skipping
    then (record l { skipping = if c == 10 then false else true }, none)
    else advance comments l.mode l c

abbrev prepend : Option Bytes → Option (List Bytes) → Option (List Bytes)
prepend none tokens = tokens
prepend (some token) none = none
prepend (some token) (some tokens) = some (token ∷ tokens)

-- the end of the text; an open quotation or escape is a ValueError
abbrev finish : Mode → Lexer → Option (List Bytes)
finish between l = some []
finish word l = prepend (ended l.quoted l.token) (some [])
finish _ l = none

unfoldable pub run : Bool → Lexer → Bytes → Option (List Bytes)
run comments l [] = finish l.mode l
run comments l (c ∷ cs) =
    let (after, token) = consume comments l c in prepend token (run comments after cs)

-- shlex.split(text, comments=comments)
unfoldable pub shlex_split : Bool → Bytes → Option (List Bytes)
shlex_split comments text = run comments start text

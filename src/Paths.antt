-- ===== src/Paths.antt =====
-- `rooted` and `relative_path` of scripts/factory_firmware.py: paths inside an unpacked image. The
-- symbolic links of the image are a function from a path to the text of the link there.
pub mod Resolved
use edgepi_e87n.Base.{
  ℕ, zero, suc, Bool, true, false, not, ◌&&◌, ◌||◌, List, [], ◌∷◌, ◌++◌, Option, none, some, ltb,
  leb, ◌==◌, if◌then◌else◌, all, Bytes, ◌=ᵇ◌, split, starts_with, Result, ok, err,
}

pub data PathError : Type 0 where
  escapes loop : PathError

abbrev pub Links : Type 0
Links = List Bytes → Option Bytes

abbrev pub dot : Bytes
dot = b'.' ∷ []

abbrev pub dots : Bytes
dots = b'.' ∷ b'.' ∷ []

-- parts.pop()
abbrev pub pop : List Bytes → List Bytes
pop [] = []
pop (part ∷ []) = []
pop (part ∷ next ∷ parts) = part ∷ pop (next ∷ parts)

abbrev pub leave : List Bytes → Result PathError (List Bytes) → Result PathError (List Bytes)
leave [] rest = err escapes
leave (part ∷ parts) rest = rest

-- The rest of the walk behind a link: the pending parts and the parts of the result.
abbrev pub Follow : Type 0
Follow = List Bytes → List Bytes → Result PathError (List Bytes)

abbrev pub enter :
    Option Bytes
    → Follow
    → List Bytes
    → List Bytes
    → Result PathError (List Bytes)
    → Result PathError (List Bytes)
enter none follow pending parts plain = plain
enter (some link) follow pending parts plain =
    follow (split b'/' link ++ pending) (if starts_with (b'/' ∷ []) link then [] else parts)

-- The loop up to the next link.
unfoldable pub walk : Links → Follow → List Bytes → List Bytes → Result PathError (List Bytes)
walk links follow [] parts = ok parts
walk links follow (part ∷ pending) parts =
    let skipped = walk links follow pending parts in
    let left = walk links follow pending (pop parts) in
    let plain = walk links follow pending (parts ++ part ∷ []) in
    if part =ᵇ [] || part =ᵇ dot
    then skipped
    else if part =ᵇ dots
    then leave parts left
    else enter (links (parts ++ part ∷ [])) follow pending parts plain

-- The whole loop, with the links that may still be followed.
unfoldable pub resolve : ℕ → Links → List Bytes → List Bytes → Result PathError (List Bytes)
resolve zero links pending parts = walk links (λ pending' parts'. err loop) pending parts
resolve (suc hops) links pending parts =
    walk links (λ pending' parts'. resolve hops links pending' parts') pending parts

-- `hops <= 40`: the parts below the root
unfoldable pub rooted : Links → Bytes → Result PathError (List Bytes)
rooted links name = resolve 40 links (split b'/' name) []

-- c.isspace() or ord(c) < 32, of ASCII
abbrev pub is_control : ℕ → Bool
is_control c = ltb c 32 || c == 32

unfoldable pub relative_path : Bytes → Bool
relative_path name =
    not (name =ᵇ [])
    && not (starts_with (b'/' ∷ []) name)
    && all (λ (part : Bytes). not (part =ᵇ []) && not (part =ᵇ dot) && not (part =ᵇ dots))
        (split b'/' name)
    && all (λ c. not (is_control c)) name

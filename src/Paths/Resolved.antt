-- ===== src/Paths/Resolved.antt =====
-- The paths that `rooted` returns.
use mathlib.Core.List.{append_assoc, append-nil}
use edgepi_e87n.Base.{
  ◌≡◌, sym, ap, ◌∙◌, Bool, true, false, not, ◌&&◌, List, [], ◌∷◌, ◌++◌, Option, none, some,
  if◌then◌else◌, arith, all, Bytes, ◌=ᵇ◌, split, starts_with, ok,
}
use edgepi_e87n.Paths.{Links, dot, dots, Follow, enter, walk, resolve, rooted, relative_path}

unfoldable pub is_plain : Bytes → Bool
is_plain part = not (part =ᵇ []) && not (part =ᵇ dot) && not (part =ᵇ dots)

-- Below `above`, each part is a plain name, and is no symbolic link at its place.
unfoldable pub IsResolved : Links → List Bytes → List Bytes → Type 0
IsResolved links above [] = Unit
IsResolved links above (part ∷ parts) =
    (is_plain part ≡ true)
    × (links (above ++ part ∷ []) ≡ none)
    × IsResolved links (above ++ part ∷ []) parts

module _ (links : Links) where
  -- a walk that keeps the invariant where it follows a link
  abbrev Keeps : Follow → Type 0
  Keeps follow =
      (pending parts out : List Bytes)
      → IsResolved links [] parts
      → follow pending parts ≡ ok out
      → IsResolved links [] out

  start-IsResolved :
      (absolute : Bool) (parts : List Bytes)
      → IsResolved links [] parts
      → IsResolved links [] (if absolute then [] else parts)
  unfolding IsResolved
  start-IsResolved true parts r = tt
  start-IsResolved false parts r = r

  entered :
      (follow : Follow) (keeps : Keeps follow) (part : Bytes) (pending parts out : List Bytes)
      (link : Option Bytes)
      → links (parts ++ part ∷ []) ≡ link
      → IsResolved links [] parts
      → (links (parts ++ part ∷ []) ≡ none
          → walk links follow pending (parts ++ part ∷ []) ≡ ok out
          → IsResolved links [] out)
      → enter link follow pending parts (walk links follow pending (parts ++ part ∷ [])) ≡ ok out
      → IsResolved links [] out
  entered follow keeps part pending parts out none same r plain h = plain same h
  entered follow keeps part pending parts out (some link) same r plain h =
      keeps (split b'/' link ++ pending) (if starts_with (b'/' ∷ []) link then [] else parts) out
        (start-IsResolved (starts_with (b'/' ∷ []) link) parts r) h

abbrev no_links : Links
no_links path = none

walk_plain :
    (follow : Follow) (pending parts : List Bytes)
    → all is_plain pending ≡ true
    → walk no_links follow pending parts ≡ ok (parts ++ pending)
unfolding walk is_plain
walk_plain follow [] parts h = ap (λ (p : List Bytes). ok p) (sym (append-nil parts))
walk_plain follow (part ∷ pending) parts h =
    let rest = walk_plain follow pending (parts ++ part ∷ []) (ground (arith, h)) in
    let same = append_assoc parts (part ∷ []) pending in
    let plain : walk no_links follow (part ∷ pending) parts
        ≡ walk no_links follow pending (parts ++ part ∷ []) =
      ground (arith, h) in
    plain ∙ rest ∙ ap (λ (p : List Bytes). ok p) same

-- A name that `relative_path` accepts is its own resolution in an image without links.
pub rooted-relative_path :
    (name : Bytes) → relative_path name ≡ true → rooted (λ path. none) name ≡ ok (split b'/' name)
unfolding rooted resolve relative_path is_plain
rooted-relative_path name h =
    walk_plain (λ pending' parts'. resolve 39 no_links pending' parts') (split b'/' name) []
      (ground (arith, h))

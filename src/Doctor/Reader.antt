-- ===== src/Doctor/Reader.antt =====
-- `_normal` and `_Reader` of board-support/e87n/doctor.py: a walk below a pinned root that follows links
-- inside it, and the bounded reads at its end. An exception is `none`: the callers tell none apart.
pub mod Confined
pub mod Listing
use edgepi_e87n.Base.{
  ℕ, zero, suc, ◌+◌, ◌-◌, Bool, true, false, not, ◌&&◌, ◌||◌, List, [], ◌∷◌, ◌++◌, Option, none,
  some, ltb, leb, if◌then◌else◌, length, take, drop, all, Bytes, ◌=ᵇ◌, bytes_elem, starts_with,
  split, codes, strip,
}
use edgepi_e87n.Json.{ℤ}
use edgepi_e87n.Doctor.{Node, directory, regular, missing, other, link, System}
use edgepi_e87n.Doctor.Patterns.{number_of}

infixl 5 ◌>>=◌
abbrev pub ◌>>=◌ {ℓ κ} : {A : Type ℓ} {B : Type κ} → Option A → (A → Option B) → Option B
none >>= next = none
some a >>= next = next a

-- if not condition: raise ...
abbrev pub ensure : Bool → Option (Unit {0})
ensure true = some tt
ensure false = none

-- parts == others
unfoldable pub same_parts : List Bytes → List Bytes → Bool
same_parts [] [] = true
same_parts (a ∷ as') (b ∷ bs) = a =ᵇ b && same_parts as' bs
same_parts _ _ = false

-- result.pop()
unfoldable pub pop : List Bytes → List Bytes
pop [] = []
pop (a ∷ []) = []
pop (a ∷ b ∷ rest) = a ∷ pop (b ∷ rest)

-- one round of the loop of _normal
unfoldable pub push : List Bytes → Bytes → Option (List Bytes)
push result part =
    if part =ᵇ [] || part =ᵇ codes "."
    then some result
    else if part =ᵇ codes ".."
    then (if same_parts result [] then none else some (pop result))
    else some (result ++ (part ∷ []))

unfoldable pub normalize : List Bytes → List Bytes → Option (List Bytes)
normalize result [] = some result
normalize result (part ∷ parts) = push result part >>= λ next. normalize next parts

-- _normal
unfoldable pub normal : List Bytes → Option (List Bytes)
normal parts = normalize [] parts >>= λ result. ensure (leb (length result) 64) >>= λ u. some result

-- The path that _open was asked for: its text, and the components between the slashes.
pub record Request : Type 0 where
  pub path : Bytes
  pub original : List Bytes
  pub wants_directory : Bool

unfoldable pub is_release_file : Bytes → Bool
is_release_file path = path =ᵇ codes "etc/os-release" || path =ᵇ codes "usr/lib/os-release"

unfoldable pub is_release_target : List Bytes → Bool
is_release_target parts =
    same_parts parts (codes "etc" ∷ codes "os-release" ∷ [])
    || same_parts parts (codes "usr" ∷ codes "lib" ∷ codes "os-release" ∷ [])

unfoldable pub is_pseudo : List Bytes → Bool
is_pseudo parts = bytes_elem (codes "sys") parts || bytes_elem (codes "proc") parts

-- The two fences of a link: sys and proc, and the files of os-release.
unfoldable pub may_lead : Request → List Bytes → Bool
may_lead request expanded =
    (not (is_pseudo (take 1 request.original))
      || same_parts (take 1 expanded) (take 1 request.original))
    && (not (is_release_file request.path) || is_release_target expanded)

-- The components of a link's target, and the directory that they start from.
unfoldable pub target_of : System → List Bytes → Bytes → Option (List Bytes × List Bytes)
target_of system walked text =
    if starts_with (codes "/") text
    then (normal (split b'/' text) >>= λ parts.
        if not (same_parts system.root_parts [])
          && same_parts (take (length system.root_parts) parts) system.root_parts
        then some ([], drop (length system.root_parts) parts)
        else some ([], parts))
    else some (walked, split b'/' text)

unfoldable pub expand_link :
    System → Request → List Bytes → Bytes → List Bytes → Option (List Bytes)
expand_link system request walked text pending = ensure (leb (length text) 4096) >>= λ u.
    target_of system walked text >>= λ from.
    normal ((from.0) ++ ((from.1) ++ pending)) >>= λ expanded.
    ensure (may_lead request expanded) >>= λ u'. some expanded

unfoldable pub is_kind : Bool → Node → Bool
is_kind true directory = true
is_kind false regular = true
is_kind _ _ = false

unfoldable pub is_dir : Request → List Bytes → Bool
is_dir request [] = request.wants_directory
is_dir request (a ∷ rest) = true

unfoldable pub target : Node → Option Bytes
target (link text) = some text
target _ = none

-- The walk up to the next link; `again` walks on from the root.
unfoldable pub walk :
    System
    → Request
    → (List Bytes → Option (List Bytes))
    → List Bytes
    → List Bytes
    → Option (List Bytes)
walk system request again walked [] = some walked
walk system request again walked (part ∷ pending) =
    let here = walked ++ (part ∷ []) in
    let rest = walk system request again here pending in
    elim (target (system.node here)) [
      | some text ↦ expand_link system request walked text pending >>= again
      | none ↦ ensure (is_kind (is_dir request pending) (system.node here)) >>= λ u.
          ensure (is_kind (is_dir request pending) (system.opened here)) >>= λ u'. rest
    ]

-- The walk with so many links left.
unfoldable pub resolve : ℕ → System → Request → List Bytes → Option (List Bytes)
resolve zero system request parts = walk system request (λ expanded. none) [] parts
resolve (suc left) system request parts = walk system request (resolve left system request) [] parts

-- _Reader._open: the name that is open at the end
unfoldable pub open_path : System → Bool → Bytes → Option (List Bytes)
open_path system wants_directory path =
    let original = split b'/' path in
    let request : Request = record {
      path = path;
      original = original;
      wants_directory = wants_directory;
    } in
    ensure (system.has_root) >>= λ u.
    ensure (not (starts_with (codes "/") path || bytes_elem (codes "..") original || path =ᵇ []))
    >>= λ u'. normal original >>= λ parts. resolve 16 system request parts

-- the loop of _Reader.read over the chunks that os.read gives
unfoldable pub read_chunks : ℕ → Bytes → List Bytes → Option Bytes
read_chunks limit got [] = if leb (length got) limit then some got else none
read_chunks limit got (chunk ∷ chunks) =
    let rest = read_chunks limit (got ++ take (limit + 1 - length got) chunk) chunks in
    if ltb limit (length got) then none else if chunk =ᵇ [] then some got else rest

-- _Reader.read
unfoldable pub read : System → ℕ → Bytes → Option Bytes
read system limit path = open_path system false path >>= λ name.
    system.chunks name >>= λ chunks. read_chunks limit [] chunks

unfoldable pub is_ascii : Bytes → Bool
is_ascii text = all (λ c. ltb c 128) text

-- _Reader.text
unfoldable pub text : System → ℕ → Bytes → Option Bytes
text system limit path =
    read system limit path >>= λ content. if is_ascii content then some (strip content) else none

-- _SMALL and _LARGE
abbrev pub small : ℕ
small = 16384

abbrev pub large : ℕ
large = 1048576

-- _Reader.number
unfoldable pub number : System → Bytes → ℤ → ℤ → Option ℤ
number system path minimum maximum = number_of (text system small path) minimum maximum

-- sorted(names)
unfoldable pub before : Bytes → Bytes → Bool
before [] b = true
before (x ∷ xs) [] = false
before (x ∷ xs) (y ∷ ys) = ltb x y || (leb x y && before xs ys)

unfoldable pub insert : Bytes → List Bytes → List Bytes
insert name [] = name ∷ []
insert name (n ∷ names) =
    let rest = insert name names in if before name n then name ∷ n ∷ names else n ∷ rest

unfoldable pub sorted : List Bytes → List Bytes
sorted [] = []
sorted (name ∷ names) = insert name (sorted names)

-- the loop of _Reader.entries over the directory, with the names that were selected
unfoldable pub scan : (Bytes → Bool) → ℕ → List Bytes → List Bytes → List Bytes × Bool
scan pattern index names [] = (sorted names, true)
scan pattern index names (name ∷ listing) =
    let rest =
      scan pattern (index + 1) (if pattern name then names ++ (name ∷ []) else names) listing in
    if leb 256 index
    then (sorted names, false)
    else if pattern name && leb 64 (length names)
    then (sorted names, false)
    else rest

-- _Reader.entries: the selected names, and whether they are all
unfoldable pub entries : System → Bytes → (Bytes → Bool) → List Bytes × Bool
entries system path pattern = elim (open_path system true path >>= system.listing) [
  | none ↦ ([], false)
  | some listing ↦ scan pattern 0 [] listing
]

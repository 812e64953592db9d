-- ===== src/Fdt.antt =====
-- `fdt` of scripts/factory_firmware.py: the bounded reader of flattened device trees and FIT images,
-- as a step on the variables of its loop and the loop on fuel.
pub mod Step
pub mod Loop
pub mod Dictionary
use edgepi_e87n.Base.{
  ℕ, zero, suc, ◌+◌, ◌-◌, ◌*◌, ◌/◌, Bool, true, false, not, ◌&&◌, ◌||◌, List, [], ◌∷◌, ◌++◌, Option,
  none, some, ltb, leb, ◌==◌, if◌then◌else◌, length, all, drop, slice, Bytes, ◌=ᵇ◌, bytes_elem,
  find_byte, be32_at, Result, ok, err, ◌>>=◌, ◌>>◌, require, or_raise,
}

-- `ValueError` by the check that raises it; `out_of_fuel` is none of the source's.
pub data FdtError : Type 0 where
  short_fdt bad_header bad_bounds unterminated_node bad_node duplicate_node unbalanced : FdtError
  bad_property property_outside duplicate_property not_ascii unfinished unknown_token : FdtError
  missing_end out_of_fuel : FdtError

pub record Key : Type 0 where
  pub node : Bytes
  pub name : Bytes

pub record Property : Type 0 where
  pub key : Key
  pub value : Bytes

-- cursor, stack, props and nodes of the loop; the stack has the root first
pub record Reader : Type 0 where
  pub cursor : ℕ
  pub stack : List Bytes
  pub props : List Property
  pub nodes : List Bytes

abbrev pub initial : Reader
initial = record { cursor = 0; stack = []; props = []; nodes = [] }

-- data.find(b"\0", start)
abbrev pub shift : ℕ → Option ℕ → Option ℕ
shift n none = none
shift n (some m) = some (n + m)

unfoldable pub find_nul : Bytes → ℕ → Option ℕ
find_nul data' from = shift from (find_byte 0 (drop from data'))

-- n & ~3
abbrev pub align4 : ℕ → ℕ
align4 n = n / 4 * 4

abbrev pub tail : List Bytes → List Bytes
tail [] = []
tail (x ∷ xs) = xs

-- "/".join(names)
unfoldable pub join_path : List Bytes → Bytes
join_path [] = []
join_path (name ∷ []) = name
join_path (name ∷ next ∷ names) = name ++ b'/' ∷ join_path (next ∷ names)

unfoldable pub path_of : List Bytes → Bytes
path_of stack = b'/' ∷ join_path (tail stack)

abbrev pub pop : List Bytes → List Bytes
pop [] = []
pop (name ∷ []) = []
pop (name ∷ next ∷ names) = name ∷ pop (next ∷ names)

abbrev pub is_empty {ℓ} : {A : Type ℓ} → List A → Bool
is_empty [] = true
is_empty (x ∷ xs) = false

-- bytes.decode("ascii")
abbrev pub ascii : Bytes → Result FdtError Bytes
ascii text = do require (all (λ c. ltb c 128) text) not_ascii; ok text

abbrev pub same_key : Key → Key → Bool
same_key a b = a.node =ᵇ b.node && a.name =ᵇ b.name

abbrev pub has_key : Key → List Property → Bool
has_key k [] = false
has_key k (p ∷ ps) = same_key k p.key || has_key k ps

abbrev pub contains : ℕ → Bytes → Bool
contains c [] = false
contains c (x ∷ xs) = x == c || contains c xs

-- Token 1, with the cursor behind it.
unfoldable pub begin_node : Bytes → Reader → Result FdtError Reader
begin_node block r = do
  end ← or_raise (find_nul block r.cursor) unterminated_node
  name ← ascii (slice r.cursor end block)
  require (not (contains b'/' name) && (not (is_empty r.stack) || name =ᵇ [])) bad_node
  let stack = r.stack ++ name ∷ []
  let path = path_of stack
  require (not (bytes_elem path r.nodes)) duplicate_node
  ok (record r { cursor = align4 (end + 4); stack = stack; nodes = r.nodes ++ path ∷ [] })

-- Token 2.
unfoldable pub end_node : Reader → Result FdtError Reader
end_node r = do require (not (is_empty r.stack)) unbalanced; ok (record r { stack = pop r.stack })

-- Token 3: the length and the name offset, then the value.
unfoldable pub property : Bytes → Bytes → Reader → Result FdtError Reader
property block strings r = do
  require (not (is_empty r.stack) && leb (r.cursor + 8) (length block)) bad_property
  let size = be32_at block r.cursor
  let nameoff = be32_at block (r.cursor + 4)
  let cursor = r.cursor + 8
  require (ltb nameoff (length strings)) property_outside
  end ← or_raise (find_nul strings nameoff) property_outside
  require (leb (cursor + size) (length block)) property_outside
  name ← ascii (slice nameoff end strings)
  let key : Key = record { node = path_of r.stack; name = name }
  require (not (has_key key r.props)) duplicate_property
  let entry : Property = record { key = key; value = slice cursor (cursor + size) block }
  ok (record r { cursor = align4 (cursor + size + 3); props = r.props ++ entry ∷ [] })

-- Token 9.
unfoldable pub finish : Reader → Result FdtError (List Property)
finish r = do require (is_empty r.stack && bytes_elem (b'/' ∷ []) r.nodes) unfinished; ok r.props

-- A round either goes on or returns.
pub data Round : Type 0 where
  more : Reader → Round
  finished : List Property → Round

abbrev pub go_on : Result FdtError Reader → Result FdtError Round
go_on m = do r ← m; ok (more r)

abbrev pub dispatch : ℕ → Bytes → Bytes → Reader → Result FdtError Round
dispatch token block strings r =
    if token == 1
    then go_on (begin_node block r)
    else if token == 2
    then go_on (end_node r)
    else if token == 3
    then go_on (property block strings r)
    else if token == 4
    then ok (more r)
    else if token == 9
    then (do props ← finish r; ok (finished props))
    else err unknown_token

unfoldable pub step : Bytes → Bytes → Reader → Result FdtError Round
step block strings r =
    dispatch (be32_at block r.cursor) block strings (record r { cursor = r.cursor + 4 })

abbrev pub continue :
    Result FdtError Round
    → (Reader → Result FdtError (List Property))
    → Result FdtError (List Property)
continue (err e) next = err e
continue (ok (finished props)) next = ok props
continue (ok (more r)) next = next r

-- while cursor + 4 <= len(block)
unfoldable pub loop : ℕ → Bytes → Bytes → Reader → Result FdtError (List Property)
loop zero block strings r = err out_of_fuel
loop (suc fuel) block strings r =
    let rest = continue (step block strings r) (λ next. loop fuel block strings next) in
    if leb (r.cursor + 4) (length block) then rest else err missing_end

-- The header: ten big-endian words.
pub record Header : Type 0 where
  pub magic : ℕ
  pub total : ℕ
  pub off : ℕ
  pub strings_off : ℕ
  pub version : ℕ
  pub compat : ℕ
  pub strings_len : ℕ
  pub size : ℕ

abbrev pub header_of : Bytes → Header
header_of data' = record {
  magic = be32_at data' 0;
  total = be32_at data' 4;
  off = be32_at data' 8;
  strings_off = be32_at data' 12;
  version = be32_at data' 20;
  compat = be32_at data' 24;
  strings_len = be32_at data' 32;
  size = be32_at data' 36;
}

unfoldable pub check_header : Header → ℕ → Result FdtError (Unit {0})
check_header h available = do
  require
      (h.magic == 0xd00dfeed
        && leb 40 h.total
        && leb h.total available
        && h.version == 17
        && leb h.compat 17)
      bad_header
  require
      (leb 40 h.off
        && ltb h.off h.total
        && leb (h.off + h.size) h.total
        && leb 40 h.strings_off
        && ltb h.strings_off h.total
        && leb (h.strings_off + h.strings_len) h.total
        && leb (h.off + h.size) h.strings_off)
      bad_bounds

abbrev pub block_of : Header → Bytes → Bytes
block_of h data' = slice h.off (h.off + h.size) data'

abbrev pub strings_of : Header → Bytes → Bytes
strings_of h data' = slice h.strings_off (h.strings_off + h.strings_len) data'

unfoldable pub fdt : Bytes → Result FdtError (List Property)
fdt data' = do
  require (leb 40 (length data')) short_fdt
  let h = header_of data'
  check_header h (length data')
  loop (length (block_of h data') + 1) (block_of h data') (strings_of h data') initial

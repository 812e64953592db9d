-- ===== src/Initramfs/Search.antt =====
-- The search of `verify` in scripts/verify-initramfs.py for what the drivers need: a stack of names, each
-- pushed once to be entered and once, below its dependencies, to be closed.
pub mod Complete
pub mod Ends
use edgepi_e87n.Base.{
  ℕ, zero, suc, ◌+◌, Bool, true, false, not, ◌&&◌, ◌||◌, List, [], ◌∷◌, ◌++◌, Option, none, some,
  if◌then◌else◌, length, Bytes, ◌=ᵇ◌, bytes_elem, Result, ok, err, ◌>>=◌, ◌>>◌, require, or_raise,
}
use edgepi_e87n.Initramfs.{InitramfsError, cyclic, missing_module, missing_entry, out_of_fuel}

-- An entry of modules.dep.
pub record Needs : Type 0 where
  pub name : Bytes
  pub deps : List Bytes

-- graph[name], if it is there
unfoldable pub deps_of : Bytes → List Needs → Option (List Bytes)
deps_of name [] = none
deps_of name (n ∷ graph) = if name =ᵇ n.name then some n.deps else deps_of name graph

-- An entry of `pending`: a name, and whether it is finished.
pub record Item : Type 0 where
  pub name : Bytes
  pub finished : Bool

-- `pending` has its top in front; `seen` and `visiting` are sets.
pub record Search : Type 0 where
  pub pending : List Item
  pub seen : List Bytes
  pub visiting : List Bytes

-- pending.extend((n, False) for n in names): the last one comes on top
unfoldable pub extend : List Bytes → List Item → List Item
extend [] pending = pending
extend (n ∷ names) pending = extend names (record { name = n; finished = false } ∷ pending)

-- visiting.remove(name)
unfoldable pub remove : Bytes → List Bytes → List Bytes
remove name [] = []
remove name (n ∷ names) = let rest = remove name names in if name =ᵇ n then names else n ∷ rest

unfoldable pub enter :
    List Bytes → List Needs → Bytes → List Item → Search → Result InitramfsError Search
enter modules graph name rest s = do
  require (not (bytes_elem name s.visiting)) (cyclic name)
  require (bytes_elem name modules) (missing_module name)
  deps ← or_raise (deps_of name graph) (missing_entry name)
  ok record {
    pending = extend deps (record { name = name; finished = true } ∷ rest);
    seen = s.seen;
    visiting = name ∷ s.visiting;
  }

-- one round of the loop, with the top of the stack taken off
unfoldable pub step :
    List Bytes → List Needs → Item → List Item → Search → Result InitramfsError Search
step modules graph i rest s =
    if i.finished
    then ok record { pending = rest; seen = i.name ∷ s.seen; visiting = remove i.name s.visiting }
    else if bytes_elem i.name s.seen
    then ok record s { pending = rest }
    else enter modules graph i.name rest s

unfoldable pub loop : ℕ → List Bytes → List Needs → Search → Result InitramfsError (List Bytes)
loop zero modules graph s = err out_of_fuel
loop (suc fuel) modules graph s = elim (s.pending) [
  | [] ↦ ok s.seen
  | i ∷ rest ↦ do after ← step modules graph i rest s; loop fuel modules graph after
]

unfoldable pub graph_size : List Needs → ℕ
graph_size [] = 0
graph_size (n ∷ graph) = suc (length n.deps) + graph_size graph

unfoldable pub requests : List Bytes → List Item
requests [] = []
requests (n ∷ names) = record { name = n; finished = false } ∷ requests names

-- The search from the requested names; `requested` is a set, in any order.
unfoldable pub search : List Bytes → List Needs → List Bytes → Result InitramfsError (List Bytes)
search modules graph requested =
    loop (suc (length requested + graph_size graph)) modules graph
      record { pending = requests requested; seen = []; visiting = [] }

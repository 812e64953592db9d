-- ===== src/Modules.antt =====
-- `module_closure` of scripts/factory_firmware.py: the modules that a kernel module needs, with the
-- cycles refused. `graph` is modules.dep, each name with its sorted dependencies.
pub mod Order
pub mod Ends
use edgepi_e87n.Base.{
  ℕ, zero, suc, ◌+◌, String, Bool, true, false, not, ◌&&◌, List, [], ◌∷◌, Option, none, some, ◌≈◌,
  if◌then◌else◌, elem, length, Result, ok, err, ◌>>=◌, or_raise,
}

-- `cyclic` is the ValueError, `missing_key` a KeyError; `out_of_fuel` is none of the source's.
pub data ModuleError : Type 0 where
  cyclic missing_key : String → ModuleError
  out_of_fuel : ModuleError

pub record Needs : Type 0 where
  pub name : String
  pub deps : List String

unfoldable pub deps_of : String → List Needs → Option (List String)
deps_of name [] = none
deps_of name (n ∷ graph) = if name ≈ n.name then some n.deps else deps_of name graph

-- for dependency in names, with the set `visited` handed on
unfoldable pub each :
    (String → List String → Result ModuleError (List String))
    → List String
    → List String
    → Result ModuleError (List String)
each visit [] visited = ok visited
each visit (name ∷ names) visited = do visited' ← visit name visited; each visit names visited'

-- `active` holds the callers, and `visited` the modules that are done, the last one first.
unfoldable pub visit :
    ℕ → List Needs → List String → String → List String → Result ModuleError (List String)
visit zero graph active name visited = err out_of_fuel
visit (suc fuel) graph active name visited =
    let deeper = λ (dependency : String) (done : List String).
      visit fuel graph (name ∷ active) dependency done in
    let entered = (do
      deps ← or_raise (deps_of name graph) (missing_key name)
      visited' ← each deeper deps visited
      ok (name ∷ visited')) in
    if elem name active
    then err (cyclic name)
    else if elem name visited
    then ok visited
    else entered

unfoldable pub module_closure : List Needs → String → Result ModuleError (List String)
module_closure graph start = visit (length graph + 1) graph [] start []

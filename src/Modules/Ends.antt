-- ===== src/Modules/Ends.antt =====
-- The depth of the search of `module_closure`.
use edgepi_e87n.Base.{
  ℕ, zero, suc, ◌+◌, ◌≤◌, ◌<◌, String, ◌≡◌, ◌≢◌, false, List, [], ◌∷◌, Option-cases, Bool-cases,
  inl, inr, some, ≈_iff, if◌then◌else◌, elem, arith, length, Result, Result-cases, ok, err, ◌>>=◌,
  or_raise, bind-eq-err,
}
use edgepi_e87n.Modules.{
  ModuleError, missing_key, out_of_fuel, Needs, deps_of, each, visit, module_closure,
}

-- The modules of the graph that are not active.
count_idle : List String → List Needs → ℕ
count_idle active [] = 0
count_idle active (n ∷ graph) =
    let rest = count_idle active graph in if elem n.name active then rest else suc rest

count_idle-le :
    (active : List String) (name : String) (graph : List Needs)
    → count_idle (name ∷ active) graph ≤ count_idle active graph
unfolding count_idle
count_idle-le active name [] = omega arith
count_idle-le active name (n ∷ graph) = ground (arith, count_idle-le active name graph)

count_idle-lt :
    (active : List String) (name : String) (graph : List Needs) {deps : List String}
    → deps_of name graph ≡ some deps
    → elem name active ≡ false
    → count_idle (name ∷ active) graph < count_idle active graph
unfolding count_idle deps_of
count_idle-lt active name [] h idle = cc
count_idle-lt active name (n ∷ graph) {deps} h idle = ground (
  arith,
  count_idle-lt active name graph {deps = deps},
  count_idle-le active name graph,
  ≈_iff name n.name,
  ≈_iff n.name name,
)

each-ends :
    (f : String → List String → Result ModuleError (List String)) (names visited : List String)
    → ((name : String) (done : List String) → f name done ≢ err out_of_fuel)
    → each f names visited ≢ err out_of_fuel
unfolding each
each-ends f [] visited ends h = ground arith
each-ends f (name ∷ names) visited ends h = elim (bind-eq-err (f name visited) _ h) [
  | inl first ↦ ends name visited first
  | inr (mid, went, rest) ↦ each-ends f names mid ends rest
]

entered-ends :
    (graph : List Needs) (name : String)
    (f : String → List String → Result ModuleError (List String)) (visited : List String)
    → ((deps : List String)
        → deps_of name graph ≡ some deps
        → each f deps visited ≢ err out_of_fuel)
    → (or_raise (deps_of name graph) (missing_key name) >>= λ deps.
        each f deps visited >>= λ mid. ok (name ∷ mid))
      ≢ err out_of_fuel
entered-ends graph name f visited ends h = elim (Option-cases (deps_of name graph)) [
  | inl absent ↦ ground (arith, absent)
  | inr (deps, known) ↦ elim (Result-cases (each f deps visited)) [
    | inl (mid, went) ↦ ground (arith, known, went)
    | inr (e, failed) ↦ ground (arith, known, failed, ends deps known)
  ]
]

visit-ends :
    (fuel : ℕ) (graph : List Needs) (active : List String) (name : String) (visited : List String)
    → count_idle active graph < fuel
    → visit fuel graph active name visited ≢ err out_of_fuel
unfolding visit
visit-ends zero graph active name visited bound h = absurd (omega (arith, bound))
visit-ends (suc fuel) graph active name visited bound h = elim (Bool-cases (elem name active)) [
  | inl busy ↦ ground (arith, busy)
  | inr idle ↦ elim (Bool-cases (elem name visited)) [
    | inl there ↦ ground (arith, idle, there)
    | inr new ↦
        let deeper = λ (dependency : String) (done : List String).
          visit fuel graph (name ∷ active) dependency done in
        entered-ends graph name deeper visited
          (λ deps known. each-ends deeper deps visited (λ n done.
            visit-ends fuel graph (name ∷ active) n done
              (omega (arith, bound, count_idle-lt active name graph known idle))))
          (rw idle at (rw new at h))
  ]
]

count_idle-length : (graph : List Needs) → count_idle [] graph ≤ length graph
unfolding count_idle
count_idle-length [] = omega arith
count_idle-length (n ∷ graph) = omega (arith, count_idle-length graph)

-- The search for a closure ends with a closure, a cycle or a missing name, for every graph: its
-- depth stays below the number of modules.
pub module_closure-ends :
    (graph : List Needs) (start : String) → module_closure graph start ≢ err out_of_fuel
unfolding module_closure
module_closure-ends graph start =
    visit-ends (length graph + 1) graph [] start [] (omega (arith, count_idle-length graph))

-- ===== src/Modules/Order.antt =====
-- The order of the modules in a closure.
use edgepi_e87n.Base.{
  ℕ, zero, suc, ◌+◌, String, ◌≡◌, refl, subst, true, false, List, [], ◌∷◌, Option, Bool-cases, inl,
  inr, none, some, ≈_iff, ≈_refl, elem, subset, elem-subset, subset_intro, arith, length, Result,
  ok, ◌>>=◌, or_raise, bind-eq-ok,
}
use edgepi_e87n.Modules.{ModuleError, missing_key, Needs, deps_of, each, visit, module_closure}

-- Every module has its dependencies, all of them behind it, and stands in the list once.
unfoldable pub IsOrder : List Needs → List String → Type 0
IsOrder graph [] = Unit
IsOrder graph (name ∷ names) =
    (deps : List String) × (deps_of name graph ≡ some deps)
    × (subset deps names ≡ true)
    × (elem name names ≡ false)
    × IsOrder graph names

-- `later` is an order that holds all of `earlier`, and no further module of `active`.
pub record Extends (graph : List Needs) (active earlier later : List String) : Type 0 where
  pub order : IsOrder graph later
  pub keeps : subset earlier later ≡ true
  pub untouched :
      (a : String) → elem a active ≡ true → elem a earlier ≡ false → elem a later ≡ false

subset_refl : (xs : List String) → subset xs xs ≡ true
subset_refl xs = subset_intro xs xs (λ s h. h)

subset_trans :
    (xs ys zs : List String) → subset xs ys ≡ true → subset ys zs ≡ true → subset xs zs ≡ true
subset_trans xs ys zs p q =
    subset_intro xs zs (λ s h. elem-subset s ys zs q (elem-subset s xs ys p h))

subset_cons : (name : String) (xs : List String) → subset xs (name ∷ xs) ≡ true
subset_cons name xs = subset_intro xs (name ∷ xs) (λ s h. ground (arith, h))

-- a visitor that extends the order and adds its module
abbrev Visits :
    List Needs → List String → (String → List String → Result ModuleError (List String)) → Type 0
Visits graph active f =
    (name : String) (visited out : List String)
    → IsOrder graph visited
    → f name visited ≡ ok out
    → Extends graph active visited out × (elem name out ≡ true)

Extends-refl :
    (graph : List Needs) (active visited out : List String)
    → IsOrder graph visited
    → visited ≡ out
    → Extends graph active visited out
Extends-refl graph active visited out order same =
    subst (Extends graph active visited) same
      (record { order = order; keeps = subset_refl visited; untouched = λ a h k. k })

each-Extends :
    (graph : List Needs) (active : List String)
    (f : String → List String → Result ModuleError (List String)) (names visited out : List String)
    → Visits graph active f
    → IsOrder graph visited
    → each f names visited ≡ ok out
    → Extends graph active visited out × (subset names out ≡ true)
unfolding each
each-Extends graph active f [] visited out visits order h =
    (Extends-refl graph active visited out order (ground arith), refl)
each-Extends graph active f (name ∷ names) visited out visits order h =
    let (mid, first, rest) = bind-eq-ok (f name visited) _ h in
    let (step, there) = visits name visited mid order first in
    let (more, all_there) = each-Extends graph active f names mid out visits step.order rest in
    (
      record {
        order = more.order;
        keeps = subset_trans visited mid out step.keeps more.keeps;
        untouched = λ a h k. more.untouched a h (step.untouched a h k);
      },
      ground (arith, elem-subset name mid out more.keeps there, all_there),
    )

-- the module itself, behind its dependencies
added :
    (graph : List Needs) (active : List String) (name : String) (deps visited mid : List String)
    → deps_of name graph ≡ some deps
    → elem name active ≡ false
    → elem name visited ≡ false
    → Extends graph (name ∷ active) visited mid
    → subset deps mid ≡ true
    → Extends graph active visited (name ∷ mid)
unfolding IsOrder
added graph active name deps visited mid known idle new e needs = record {
  order = (deps, known, needs, e.untouched name (ground (arith, ≈_refl name)) new, e.order);
  keeps = subset_trans visited mid (name ∷ mid) e.keeps (subset_cons name mid);
  untouched = λ a h k.
      let old = e.untouched a (ground (arith, h)) k in ground (arith, h, old, idle, ≈_iff a name);
}

entered_ok :
    (graph : List Needs) (name : String)
    (f : String → List String → Result ModuleError (List String)) (visited out : List String)
    → (or_raise (deps_of name graph) (missing_key name) >>= λ deps.
        each f deps visited >>= λ mid. ok (name ∷ mid))
      ≡ ok out
    → (deps : List String) × (mid : List String) × (deps_of name graph ≡ some deps)
      × (each f deps visited ≡ ok mid)
      × (name ∷ mid ≡ out)
entered_ok graph name f visited out h =
    let (deps, known, rest) = bind-eq-ok (or_raise (deps_of name graph) (missing_key name)) _ h in
    let (mid, went, last) = bind-eq-ok (each f deps visited) _ rest in
    (deps, mid, some_of (deps_of name graph) deps known, went, ground (arith, last))
  where
    some_of :
        (o : Option (List String)) (d : List String)
        → or_raise o (missing_key name) ≡ ok d
        → o ≡ some d
    some_of (some e) d k = ground arith
    some_of none d k = cc

visit-Extends :
    (fuel : ℕ) (graph : List Needs) (active : List String)
    → Visits graph active (λ name visited. visit fuel graph active name visited)
unfolding visit
visit-Extends zero graph active name visited out order h = absurd (cc)
visit-Extends (suc fuel) graph active name visited out order h =
    elim (Bool-cases (elem name active)) [
      | inl busy ↦ absurd (ground (arith, busy))
      | inr idle ↦ elim (Bool-cases (elem name visited)) [
        | inl there ↦
            let same : visited ≡ out = ground (arith, idle, there) in
            (
              Extends-refl graph active visited out order same,
              subst (λ o. elem name o ≡ true) same there,
            )
        | inr new ↦
            let deeper = λ (dependency : String) (done : List String).
              visit fuel graph (name ∷ active) dependency done in
            let (deps, mid, known, went, same) =
              entered_ok graph name deeper visited out (rw idle at (rw new at h)) in
            let (e, needs) =
              each-Extends graph (name ∷ active) deeper deps visited mid
                (visit-Extends fuel graph (name ∷ active)) order went in
            (
              subst (Extends graph active visited) same
                  (added graph active name deps visited mid known idle new e needs),
              subst (λ o. elem name o ≡ true) same (ground (arith, ≈_refl name)),
            )
      ]
    ]

-- The closure of a module contains it and, with each of its modules, all dependencies of that one,
-- in topological order and without repetition: so nothing in it depends on itself.
pub module_closure-IsOrder :
    (graph : List Needs) (start : String) {closure : List String}
    → module_closure graph start ≡ ok closure
    → IsOrder graph closure × (elem start closure ≡ true)
unfolding module_closure
module_closure-IsOrder graph start {closure} h =
    let (e, there) =
      visit-Extends (length graph + 1) graph [] start [] closure (unfold IsOrder in tt) h in
    (e.order, there)

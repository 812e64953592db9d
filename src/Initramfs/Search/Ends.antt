-- ===== src/Initramfs/Search/Ends.antt =====
-- The search of scripts/verify-initramfs.py ends: how often its loop can run.
use edgepi_e87n.Base.{
  ℕ, zero, suc, ◌+◌, ◌≤◌, ◌<◌, Bool, true, false, ◌||◌, List, [], ◌∷◌, some, ◌≡◌, ◌≢◌, refl, ap,
  subst, arith, if◌then◌else◌, length, Bytes, ◌=ᵇ◌, =ᵇ-eq, =ᵇ_refl, bytes_elem, ok, err,
  bind-eq-err, Bool-cases, List-cases, Option-cases, inl, inr,
}
use edgepi_e87n.Initramfs.{out_of_fuel}
use edgepi_e87n.Initramfs.Search.{
  Needs, deps_of, Item, Search, extend, remove, enter, step, loop, graph_size, requests, search,
}

-- A name that was entered: it is seen or being visited.
begun : Search → Bytes → Bool
begun s n = bytes_elem n s.seen || bytes_elem n s.visiting

-- The rounds that the entries of the graph can still cause.
left : (Bytes → Bool) → List Needs → ℕ
left done [] = 0
left done (n ∷ graph) =
    let rest = left done graph in if done n.name then rest else suc (length n.deps) + rest

left-le :
    (f g : Bytes → Bool) (graph : List Needs)
    → ((n : Bytes) → f n ≡ true → g n ≡ true)
    → left g graph ≤ left f graph
unfolding left
left-le f g [] h = omega arith
left-le f g (n ∷ graph) h = ground (arith, h n.name, left-le f g graph h)

left-lt :
    (f g : Bytes → Bool) (name : Bytes) (deps : List Bytes) (graph : List Needs)
    → deps_of name graph ≡ some deps
    → f name ≡ false
    → g name ≡ true
    → ((n : Bytes) → f n ≡ true → g n ≡ true)
    → suc (length deps) + left g graph ≤ left f graph
unfolding left deps_of
left-lt f g name deps [] e no_f yes_g h = absurd (ground (arith, e))
left-lt f g name deps (n ∷ graph) e no_f yes_g h = elim (Bool-cases (name =ᵇ n.name)) [
  | inl here ↦
      let same = =ᵇ-eq name n.name here in
      let f' : f n.name ≡ false = rw same at no_f in
      let g' : g n.name ≡ true = rw same at yes_g in
      let size : length n.deps ≡ length deps = ground (arith, here, e) in
      ground (arith, f', g', size, left-le f g graph h)
  | inr apart ↦
      ground (
        arith,
        apart,
        h n.name,
        left-lt f g name deps graph (ground (arith, apart, e)) no_f yes_g h,
      )
]

length-extend :
    (names : List Bytes) (items : List Item)
    → length (extend names items) ≡ length names + length items
unfolding extend
length-extend [] items = omega arith
length-extend (n ∷ names) items =
    omega (arith, length-extend names (record { name = n; finished = false } ∷ items))

elem-remove :
    (n name : Bytes) (names : List Bytes)
    → bytes_elem n names ≡ true
    → (n =ᵇ name) ≡ false
    → bytes_elem n (remove name names) ≡ true
unfolding remove
elem-remove n name [] h apart = cc
elem-remove n name (m ∷ names) h apart = elim (Bool-cases (name =ᵇ m)) [
  | inl here ↦
      let away : (n =ᵇ m) ≡ false = rw (=ᵇ-eq name m here) at apart in ground (arith, here, away, h)
  | inr other ↦ ground (arith, other, h, elem-remove n name names)
]

measure : List Needs → Search → ℕ
measure graph s = length s.pending + left (begun s) graph

-- the states that the three kinds of a round leave
abbrev finished : Bytes → List Item → Search → Search
finished name rest s = record {
  pending = rest;
  seen = name ∷ s.seen;
  visiting = remove name s.visiting;
}

abbrev skipped : List Item → Search → Search
skipped rest s = record s { pending = rest }

abbrev opened : Bytes → List Bytes → List Item → Search → Search
opened name deps rest s = record {
  pending = extend deps (record { name = name; finished = true } ∷ rest);
  seen = s.seen;
  visiting = name ∷ s.visiting;
}

finish-begun :
    (name : Bytes) (rest : List Item) (s : Search) (n : Bytes)
    → begun s n ≡ true
    → begun (finished name rest s) n ≡ true
unfolding begun
finish-begun name rest s n h = elim (Bool-cases (n =ᵇ name)) [
  | inl same ↦ ground (arith, same)
  | inr apart ↦ ground (arith, h, apart, elem-remove n name s.visiting)
]

open-begun :
    (name : Bytes) (deps : List Bytes) (rest : List Item) (s : Search) (n : Bytes)
    → begun s n ≡ true
    → begun (opened name deps rest s) n ≡ true
unfolding begun
open-begun name deps rest s n h = ground (arith, h)

begun-opened :
    (name : Bytes) (deps : List Bytes) (rest : List Item) (s : Search)
    → begun (opened name deps rest s) name ≡ true
unfolding begun
begun-opened name deps rest s = ground (arith, =ᵇ_refl name)

opened-measure :
    (graph : List Needs) (i : Item) (deps : List Bytes) (rest : List Item) (s : Search)
    → s.pending ≡ i ∷ rest
    → deps_of i.name graph ≡ some deps
    → begun s i.name ≡ false
    → suc (measure graph (opened i.name deps rest s)) ≤ measure graph s
unfolding measure
opened-measure graph i deps rest s top e new =
    let fewer =
      left-lt (begun s) (begun (opened i.name deps rest s)) i.name deps graph e new
        (begun-opened i.name deps rest s) (open-begun i.name deps rest s) in
    let size = length-extend deps (record { name = i.name; finished = true } ∷ rest) in
    omega (arith, fewer, size, ap (λ (l : List Item). length l) top)

-- A round leaves less to do.
step-measure :
    (modules : List Bytes) (graph : List Needs) (i : Item) (rest : List Item) (s after : Search)
    → s.pending ≡ i ∷ rest
    → step modules graph i rest s ≡ ok after
    → suc (measure graph after) ≤ measure graph s
unfolding measure step enter begun
step-measure modules graph i rest s after top h = elim (Bool-cases i.finished) [
  | inl fin ↦
      let e : finished i.name rest s ≡ after = ground (arith, fin, h) in
      subst (λ (a : Search). suc (measure graph a) ≤ measure graph s) e
        (omega (
          arith,
          left-le (begun s) (begun (finished i.name rest s)) graph (finish-begun i.name rest s),
          ap (λ (l : List Item). length l) top,
        ))
  | inr new ↦ elim (Bool-cases (bytes_elem i.name s.seen)) [
    | inl old ↦
        let e : skipped rest s ≡ after = ground (arith, new, old, h) in
        subst (λ (a : Search). suc (measure graph a) ≤ measure graph s) e
          (omega (arith, ap (λ (l : List Item). length l) top))
    | inr fresh ↦ elim (Option-cases (deps_of i.name graph)) [
      | inl none' ↦ absurd (ground (arith, new, fresh, none', h))
      | inr (deps, known) ↦
          let e : opened i.name deps rest s ≡ after = ground (arith, new, fresh, known, h) in
          subst (λ (a : Search). suc (measure graph a) ≤ measure graph s) e
            (opened-measure graph i deps rest s top known (ground (arith, new, fresh, known, h)))
    ]
  ]
]

step-ends :
    (modules : List Bytes) (graph : List Needs) (i : Item) (rest : List Item) (s : Search)
    → step modules graph i rest s ≢ err out_of_fuel
unfolding step enter
step-ends modules graph i rest s h = elim (Option-cases (deps_of i.name graph)) [
  | inl e ↦ ground (arith, e, h)
  | inr (deps, e) ↦ ground (arith, e, h)
]

loop-ends :
    (fuel : ℕ) (modules : List Bytes) (graph : List Needs) (s : Search)
    → measure graph s < fuel
    → loop fuel modules graph s ≢ err out_of_fuel
unfolding loop
loop-ends zero modules graph s bound h = absurd (omega (arith, bound))
loop-ends (suc fuel) modules graph s bound h = elim (List-cases s.pending) [
  | inl empty ↦ absurd (ground (arith, rw (loop, empty) at h))
  | inr (i, rest, top) ↦ elim (bind-eq-err (step modules graph i rest s) _ (rw (loop, top) at h)) [
    | inl first ↦ step-ends modules graph i rest s first
    | inr (after, went, further) ↦
        loop-ends fuel modules graph after
          (omega (arith, bound, step-measure modules graph i rest s after top went)) further
  ]
]

length-requests : (names : List Bytes) → length (requests names) ≡ length names
unfolding requests
length-requests [] = refl
length-requests (n ∷ names) = omega (arith, length-requests names)

left_none : (f : Bytes → Bool) (graph : List Needs) → left f graph ≤ graph_size graph
unfolding left graph_size
left_none f [] = omega arith
left_none f (n ∷ graph) = ground (arith, left_none f graph)

-- The search ends for every listing, every modules.dep and all requested modules, with what it has
-- seen or with an error of the source: its rounds are at most the requested names and the names
-- and the dependencies of modules.dep.
pub search-ends :
    (modules : List Bytes) (graph : List Needs) (requested : List Bytes)
    → search modules graph requested ≢ err out_of_fuel
unfolding search measure
search-ends modules graph requested =
    let begin : Search = record { pending = requests requested; seen = []; visiting = [] } in
    loop-ends _ modules graph begin
      (omega (arith, length-requests requested, left_none (begun begin) graph))

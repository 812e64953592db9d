-- ===== src/Initramfs/Search/Complete.antt =====
-- What a successful search of scripts/verify-initramfs.py has seen.
use edgepi_e87n.Base.{
  ℕ, zero, suc, Bool, true, false, ◌&&◌, ◌||◌, List, [], ◌∷◌, none, some, ◌≡◌, ◌≢◌, refl, sym, ◌∙◌,
  subst, arith, all, Bytes, ◌=ᵇ◌, =ᵇ-eq, =ᵇ_refl, bytes_elem, ok, bind-eq-ok, Bool-cases,
  Option-cases, List-cases, ◌⊎◌, inl, inr,
}
use edgepi_e87n.Initramfs.Search.{
  Needs, deps_of, Item, Search, extend, enter, step, loop, requests, search,
}

-- A name is seen, or waits on the stack.
has : Bytes → List Item → Bool
has n [] = false
has n (i ∷ items) = n =ᵇ i.name || has n items

has_finished : Bytes → List Item → Bool
has_finished n [] = false
has_finished n (i ∷ items) = (i.finished && n =ᵇ i.name) || has_finished n items

known : Search → Bytes → Bool
known s n = has n s.pending || bytes_elem n s.seen

entered : Search → Bytes → Bool
entered s n = has_finished n s.pending || bytes_elem n s.seen

-- The listing has the module, modules.dep has its entry, and what that names satisfies `test`.
pub is_provided : List Bytes → List Needs → (Bytes → Bool) → Bytes → Bool
is_provided modules graph test n =
    bytes_elem n modules && (elim (deps_of n graph) [ none ↦ false | some deps ↦ all test deps ])

has-extend :
    (n : Bytes) (names : List Bytes) (items : List Item)
    → has n (extend names items) ≡ (bytes_elem n names || has n items)
unfolding has extend
has-extend n [] items = refl
has-extend n (m ∷ names) items =
    has-extend n names (record { name = m; finished = false } ∷ items) ∙ ground arith

has_finished-extend :
    (n : Bytes) (names : List Bytes) (items : List Item)
    → has_finished n (extend names items) ≡ has_finished n items
unfolding has_finished extend
has_finished-extend n [] items = refl
has_finished-extend n (m ∷ names) items =
    has_finished-extend n names (record { name = m; finished = false } ∷ items)

all_intro :
    (f : Bytes → Bool) (xs : List Bytes)
    → ((x : Bytes) → bytes_elem x xs ≡ true → f x ≡ true)
    → all f xs ≡ true
all_intro f [] h = refl
all_intro f (x ∷ xs) h =
    ground (arith, h x, =ᵇ_refl x, all_intro f xs (λ y m. h y (ground (arith, m))))

all_map :
    (f g : Bytes → Bool) (xs : List Bytes)
    → ((x : Bytes) → f x ≡ true → g x ≡ true)
    → all f xs ≡ true
    → all g xs ≡ true
all_map f g [] h p = refl
all_map f g (x ∷ xs) h p = ground (arith, h x, p, all_map f g xs h)

module _ (modules : List Bytes) (graph : List Needs) where
  is_provided_map :
      (f g : Bytes → Bool) (n : Bytes)
      → ((x : Bytes) → f x ≡ true → g x ≡ true)
      → is_provided modules graph f n ≡ true
      → is_provided modules graph g n ≡ true
  unfolding is_provided
  is_provided_map f g n h p = elim (Option-cases (deps_of n graph)) [
    | inl e ↦ absurd (ground (arith, e, p))
    | inr (deps, e) ↦ ground (arith, e, p, all_map f g deps h (ground (arith, e, p)))
  ]

  -- What the search keeps: every name that was entered is provided for.
  IsSound : Search → Type 0
  IsSound s = (n : Bytes) → entered s n ≡ true → is_provided modules graph (known s) n ≡ true

  -- The three kinds of a round.
  abbrev Finishes : Item → List Item → Search → Search → Type 0
  Finishes i rest s after =
      (i.finished ≡ true) × (after.pending ≡ rest) × (after.seen ≡ i.name ∷ s.seen)

  abbrev Skips : Item → List Item → Search → Search → Type 0
  Skips i rest s after =
      (i.finished ≡ false)
      × (bytes_elem i.name s.seen ≡ true)
      × (after.pending ≡ rest)
      × (after.seen ≡ s.seen)

  abbrev Enters : Item → List Item → Search → Search → Type 0
  Enters i rest s after =
      (i.finished ≡ false)
      × (bytes_elem i.name modules ≡ true)
      × ((deps : List Bytes) × (deps_of i.name graph ≡ some deps)
          × (after.pending ≡ extend deps (record { name = i.name; finished = true } ∷ rest))
          × (after.seen ≡ s.seen))

  step-cases :
      (i : Item) (rest : List Item) (s after : Search)
      → step modules graph i rest s ≡ ok after
      → Finishes i rest s after ⊎ (Skips i rest s after ⊎ Enters i rest s after)
  unfolding step enter
  step-cases i rest s after h = elim (Bool-cases i.finished) [
    | inl fin ↦ inl (fin, ground (arith, fin, h), ground (arith, fin, h))
    | inr new ↦ elim (Bool-cases (bytes_elem i.name s.seen)) [
      | inl old ↦ inr (inl (new, old, ground (arith, new, old, h), ground (arith, new, old, h)))
      | inr fresh ↦ elim (Option-cases (deps_of i.name graph)) [
        | inl e ↦ absurd (ground (arith, new, fresh, e, h))
        | inr (deps, e) ↦ inr (
            inr (
              new,
              ground (arith, new, fresh, e, h),
              (deps, e, ground (arith, new, fresh, e, h), ground (arith, new, fresh, e, h)),
            ))
      ]
    ]
  ]

  -- A round forgets no name.
  step-known :
      (i : Item) (rest : List Item) (s after : Search) (n : Bytes)
      → s.pending ≡ i ∷ rest
      → step modules graph i rest s ≡ ok after
      → known s n ≡ true
      → known after n ≡ true
  unfolding known has
  step-known i rest s after n top h k =
      let k' : (has n (i ∷ rest) || bytes_elem n s.seen) ≡ true = rw top at k in
      elim (step-cases i rest s after h) [
        | inl (fin, pending, seen) ↦ rw (pending, seen) (ground (arith, k'))
        | inr (inl (new, old, pending, seen)) ↦
            rw (pending, seen)
              (elim (Bool-cases (n =ᵇ i.name)) [
                | inl same ↦ ground (arith, rw (sym (=ᵇ-eq n i.name same)) at old)
                | inr apart ↦ ground (arith, k', apart)
              ])
        | inr (inr (new, there, (deps, e, pending, seen))) ↦
            rw (pending, seen, has-extend n deps (record { name = i.name; finished = true } ∷ rest))
              (ground (arith, k'))
      ]

  enter-provided :
      (f : Bytes → Bool) (name : Bytes) (deps : List Bytes)
      → bytes_elem name modules ≡ true
      → deps_of name graph ≡ some deps
      → all f deps ≡ true
      → is_provided modules graph f name ≡ true
  unfolding is_provided
  enter-provided f name deps there e h = ground (arith, there, e, h)

  enter-known :
      (deps : List Bytes) (items : List Item) (after : Search)
      → after.pending ≡ extend deps items
      → all (known after) deps ≡ true
  unfolding known
  enter-known deps items after pending =
      all_intro (known after) deps
        (λ d m. rw (pending, has-extend d deps items) (ground (arith, m)))

  step-IsSound :
      (i : Item) (rest : List Item) (s after : Search)
      → s.pending ≡ i ∷ rest
      → step modules graph i rest s ≡ ok after
      → IsSound s
      → IsSound after
  unfolding IsSound entered has_finished
  step-IsSound i rest s after top h sound n inside =
      let carry = λ (was : entered s n ≡ true).
        is_provided_map (known s) (known after) n (λ x k. step-known i rest s after x top h k)
          (sound n was) in
      elim (step-cases i rest s after h) [
        | inl (fin, pending, seen) ↦
            carry (rw top (ground (arith, fin, rw (pending, seen) at inside)))
        | inr (inl (new, old, pending, seen)) ↦
            carry (rw top (ground (arith, rw (pending, seen) at inside)))
        | inr (inr (new, there, (deps, e, pending, seen))) ↦
            let inside' =
              rw
                (
                  pending,
                  seen,
                  has_finished-extend n deps (record { name = i.name; finished = true } ∷ rest),
                )
                at inside in
            elim (Bool-cases (n =ᵇ i.name)) [
              | inl same ↦
                  subst (λ (m : Bytes). is_provided modules graph (known after) m ≡ true)
                    (sym (=ᵇ-eq n i.name same))
                    (enter-provided (known after) i.name deps there e (
                      enter-known deps (record { name = i.name; finished = true } ∷ rest) after
                        pending))
              | inr apart ↦ carry (rw top (ground (arith, apart, new, inside')))
            ]
      ]

  -- When the loop ends, the names it was given are seen, and all seen names are provided for.
  loop-IsSound :
      (fuel : ℕ) (s : Search) (seen : List Bytes)
      → loop fuel modules graph s ≡ ok seen
      → IsSound s
      → (end : Search) × (end.pending ≡ [])
        × (end.seen ≡ seen)
        × IsSound end
        × ((n : Bytes) → known s n ≡ true → known end n ≡ true)
  unfolding loop
  loop-IsSound zero s seen h sound = absurd (ground (arith, h))
  loop-IsSound (suc fuel) s seen h sound = elim (List-cases s.pending) [
    | inl empty ↦ (s, empty, ground (arith, empty, h), sound, λ n k. k)
    | inr (i, rest, top) ↦
        let (after, went, further) =
          bind-eq-ok (step modules graph i rest s) _ (rw (loop, top) at h) in
        let (end, empty, same, held, kept) =
          loop-IsSound fuel after seen further (step-IsSound i rest s after top went sound) in
        (end, empty, same, held, λ n k. kept n (step-known i rest s after n top went k))
  ]

has-requests : (n : Bytes) (names : List Bytes) → has n (requests names) ≡ bytes_elem n names
unfolding has requests
has-requests n [] = refl
has-requests n (m ∷ names) = ground (arith, has-requests n names)

has_finished-requests : (n : Bytes) (names : List Bytes) → has_finished n (requests names) ≡ false
unfolding has_finished requests
has_finished-requests n [] = refl
has_finished-requests n (m ∷ names) = ground (arith, has_finished-requests n names)

begun-known :
    (n : Bytes) (names : List Bytes)
    → bytes_elem n names ≡ true
    → known (record { pending = requests names; seen = []; visiting = [] }) n ≡ true
unfolding known
begun-known n names m = ground (arith, m, has-requests n names)

no_entry :
    (n : Bytes) (names : List Bytes)
    → entered (record { pending = requests names; seen = []; visiting = [] }) n ≢ true
unfolding entered
no_entry n names e = ground (arith, e, has_finished-requests n names)

-- A search that succeeds has seen all modules that were requested, and with every module that it has
-- seen, what the module needs: the listing of the initramfs has each of them, modules.dep has its
-- entry, and the names of that entry are seen too.
pub search-is_provided :
    (modules : List Bytes) (graph : List Needs) (requested seen : List Bytes)
    → search modules graph requested ≡ ok seen
    → (all (λ n. bytes_elem n seen) requested ≡ true)
      × (all (is_provided modules graph (λ n. bytes_elem n seen)) seen ≡ true)
unfolding search IsSound known entered has has_finished
search-is_provided modules graph requested seen h =
    let begun : Search = record { pending = requests requested; seen = []; visiting = [] } in
    let fresh = λ (n : Bytes) (e : entered begun n ≡ true). absurd (no_entry n requested e) in
    let (last, empty, same, sound, kept) = loop-IsSound modules graph _ begun seen h fresh in
    let is_seen = λ (n : Bytes) (k : known last n ≡ true). rw (known, empty, same) at k in
    (
      all_intro (λ n. bytes_elem n seen) requested
          (λ n m. is_seen n (kept n (begun-known n requested m))),
      all_intro (is_provided modules graph (λ n. bytes_elem n seen)) seen (λ n m.
          is_provided_map modules graph (known last) (λ x. bytes_elem x seen) n is_seen
            (sound n (rw (empty, same) (ground (arith, m))))),
    )

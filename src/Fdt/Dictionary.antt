-- ===== src/Fdt/Dictionary.antt =====
-- The dictionary that the loop of `fdt` builds.
use edgepi_e87n.Base.{
  ℕ, zero, suc, ◌+◌, Bool, true, false, not, ◌&&◌, ◌||◌, ◌≡◌, ◌≢◌, refl, sym, ◌∙◌, subst, =ᵇ_sym,
  ◌∷◌, List, [], ◌++◌, Bool-cases, inl, inr, arith, leb, ◌==◌, length, Bytes, be32_at, ◌>>=◌,
  Result, Result-cases, ok, err,
}
use edgepi_e87n.Fdt.{
  FdtError, Key, Property, Reader, initial, has_key, same_key, begin_node, end_node, property,
  finish, more, finished, go_on, dispatch, step, loop, header_of, check_header, block_of,
  strings_of, fdt,
}
use edgepi_e87n.Fdt.Loop.{if-ne}
use edgepi_e87n.Fdt.Step.{step-Moves, Moves, stays, adds, IsInside}

-- The dictionary that `fdt` builds: one value for a key, each inside the structure block.
unfoldable pub distinct_keys : List Property → Bool
distinct_keys [] = true
distinct_keys (p ∷ ps) = not (has_key p.key ps) && distinct_keys ps

unfoldable pub AllInside : Bytes → List Property → Type 0
AllInside block [] = Unit
AllInside block (p ∷ ps) = IsInside block p.value × AllInside block ps

same_key_sym : (a b : Key) → same_key a b ≡ same_key b a
same_key_sym a b = ground (arith, =ᵇ_sym a.node b.node, =ᵇ_sym a.name b.name)

has_key-append :
    (k : Key) (ps : List Property) (p : Property)
    → has_key k (ps ++ p ∷ []) ≡ (has_key k ps || same_key k p.key)
has_key-append k [] p = ground arith
has_key-append k (q ∷ ps) p = ground (arith, has_key-append k ps p)

distinct_keys-append :
    (ps : List Property) (p : Property)
    → has_key p.key ps ≡ false
    → distinct_keys ps ≡ true
    → distinct_keys (ps ++ p ∷ []) ≡ true
unfolding distinct_keys
distinct_keys-append [] p new rest = refl
distinct_keys-append (q ∷ ps) p new rest =
    let ih = distinct_keys-append ps p in
    let q_new = has_key-append q.key ps p in
    let sym = same_key_sym q.key p.key in ground (arith, new, rest, q_new, sym, ih)

AllInside-append :
    (block : Bytes) (ps : List Property) (p : Property)
    → AllInside block ps
    → IsInside block p.value
    → AllInside block (ps ++ p ∷ [])
unfolding AllInside
AllInside-append block [] p all inside = (inside, tt)
AllInside-append block (q ∷ ps) p (first, all) inside =
    (first, AllInside-append block ps p all inside)

-- One value for a key, and each a part of the structure block.
unfoldable pub IsDictionary : Bytes → List Property → Type 0
IsDictionary block props = (distinct_keys props ≡ true) × AllInside block props

module _ (block strings : Bytes) where
  moved :
      (r : Reader) {s : Reader}
      → Moves block r s
      → IsDictionary block r.props
      → IsDictionary block s.props
  unfolding IsDictionary
  moved r (stays same) holds = subst (IsDictionary block) (sym same) holds
  moved r (adds a) (distinct, inside) = subst (IsDictionary block) (sym a.props) (
    distinct_keys-append r.props a.entry a.new_key distinct,
    AllInside-append block r.props a.entry inside a.inside,
  )

  finish-props : (r : Reader) {props : List Property} → finish r ≡ ok props → props ≡ r.props
  unfolding finish
  finish-props r h = ground arith

  go_on-more : {props : List Property} (m : Result FdtError Reader) → go_on m ≢ ok (finished props)
  go_on-more (ok r) h = ground arith
  go_on-more (err e) h = ground arith

  returned :
      (r : Reader) {props : List Property} (m : Result FdtError (List Property))
      → (m >>= λ found. ok (finished found)) ≡ ok (finished props)
      → m ≡ ok props
  returned r (ok found) h = ground arith
  returned r (err e) h = cc

  dispatch-props :
      (token : ℕ) (r : Reader) {props : List Property}
      → dispatch token block strings r ≡ ok (finished props)
      → props ≡ r.props
  dispatch-props token r {props} h = elim (Bool-cases (token == 9)) [
    | inl nine ↦ finish-props r (returned r (finish r) (ground (arith, nine)))
    | inr other ↦ absurd (
        if-ne (token == 1) (go_on-more (begin_node block r))
          (if-ne (token == 2) (go_on-more (end_node r)) (
            if-ne (token == 3) (go_on-more (property block strings r))
              (if-ne (token == 4) (λ e. ground arith) (λ e. ground (arith, other, e)))))
          h)
  ]

  step-props :
      (r : Reader) {props : List Property}
      → step block strings r ≡ ok (finished props)
      → props ≡ r.props
  unfolding step
  step-props r = dispatch-props (be32_at block r.cursor) (record r { cursor = r.cursor + 4 })

  loop-IsDictionary :
      (fuel : ℕ) (r : Reader) {props : List Property}
      → loop fuel block strings r ≡ ok props
      → IsDictionary block r.props
      → IsDictionary block props
  unfolding loop
  loop-IsDictionary zero r h holds = ground arith
  loop-IsDictionary (suc fuel) r {props} h holds =
      elim (Bool-cases (leb (r.cursor + 4) (length block))) [
        | inr at_end ↦ ground (arith, at_end)
        | inl goes ↦ elim (Result-cases (step block strings r)) [
          | inr (e, failed) ↦ ground (arith, goes, failed)
          | inl (finished found, done) ↦
              subst (IsDictionary block) (sym (step-props r (done ∙ ground (arith, goes, done))))
                holds
          | inl (more s, went) ↦
              loop-IsDictionary fuel s (ground (arith, goes, went))
                (moved r (step-Moves block strings r went).1 holds)
        ]
      ]

-- What `fdt` returns has one value for a key, and every value is a part of the structure block.
pub fdt-IsDictionary :
    (data' : Bytes) {props : List Property}
    → fdt data' ≡ ok props
    → IsDictionary (block_of (header_of data') data') props
unfolding fdt check_header IsDictionary distinct_keys AllInside
fdt-IsDictionary data' h =
    let block = block_of (header_of data') data' in
    loop-IsDictionary block (strings_of (header_of data') data') (length block + 1) initial
      (ground arith) (refl, tt)

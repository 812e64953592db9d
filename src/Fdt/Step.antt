-- ===== src/Fdt/Step.antt =====
-- One token of `fdt`: the cursor and the dictionary.
use edgepi_e87n.Base.{
  ℕ, ◌+◌, ◌≤◌, false, ◌≡◌, refl, ◌∷◌, [], ◌++◌, some, Option-cases, Bool-cases, inl, inr, arith,
  ◌==◌, length, Bytes, slice, find_byte, drop, be32_at, Result, ok, err,
}
use edgepi_e87n.Base.{Result-cases}
use edgepi_e87n.Fdt.{
  FdtError, Key, Property, Reader, find_nul, has_key, go_on, path_of, begin_node, end_node,
  property, finish, more, dispatch, step,
}

find_nul_later : (b : Bytes) (from : ℕ) {n : ℕ} → find_nul b from ≡ some n → from ≤ n
unfolding find_nul
find_nul_later b from {n} h = elim (Option-cases (find_byte 0 (drop from b))) [
  | inl absent ↦ ground (arith, absent)
  | inr (m, found) ↦ ground (arith, found)
]

begin_node-cursor :
    (block : Bytes) (r : Reader) {s : Reader} → begin_node block r ≡ ok s → r.cursor ≤ s.cursor
unfolding begin_node
begin_node-cursor block r {s} h = elim (Option-cases (find_nul block r.cursor)) [
  | inl absent ↦ ground (arith, absent)
  | inr (end, found) ↦ ground (arith, found, find_nul_later block r.cursor found)
]

end_node-cursor : (r : Reader) {s : Reader} → end_node r ≡ ok s → r.cursor ≤ s.cursor
unfolding end_node
end_node-cursor r {s} h = ground (arith)

-- A value lies inside the structure block.
unfoldable pub IsInside : Bytes → Bytes → Type 0
IsInside block value =
    (start size : ℕ) × (start + size ≤ length block) × (value ≡ slice start (start + size) block)

-- Token 3 adds one property of a new name, whose value lies inside the block, and nothing else.
pub record Adds (block : Bytes) (r s : Reader) : Type 0 where
  pub entry : Property
  pub later : r.cursor ≤ s.cursor
  pub props : s.props ≡ r.props ++ entry ∷ []
  pub new_key : has_key entry.key r.props ≡ false
  pub inside : IsInside block entry.value

module _ (block strings : Bytes) (r : Reader) {s : Reader} where
  property-Adds-found :
      (end : ℕ)
      → find_nul strings (be32_at block (r.cursor + 4)) ≡ some end
      → property block strings r ≡ ok s
      → Adds block r s
  unfolding property IsInside
  property-Adds-found end found h =
      let nameoff = be32_at block (r.cursor + 4) in
      let size = be32_at block r.cursor in
      let start = r.cursor + 8 in
      let key : Key = record { node = path_of r.stack; name = slice nameoff end strings } in
      record {
        entry = record { key = key; value = slice start (start + size) block };
        later = ground (arith, found);
        props = ground (arith, found);
        new_key = ground (arith, found);
        inside = (start, size, ground (arith, found), refl);
      }

  property-Adds : property block strings r ≡ ok s → Adds block r s
  unfolding property
  property-Adds h = elim (Option-cases (find_nul strings (be32_at block (r.cursor + 4)))) [
    | inl absent ↦ ground (arith, absent)
    | inr (end, found) ↦ property-Adds-found end found h
  ]

-- What a round does to the reader: the dictionary stays, or gets one property.
pub data Moves (block : Bytes) (r s : Reader) : Type 0 where
  stays : s.props ≡ r.props → Moves block r s
  adds : Adds block r s → Moves block r s

module _ (block strings : Bytes) (r : Reader) {s : Reader} where
  begin_node-props : begin_node block r ≡ ok s → s.props ≡ r.props
  unfolding begin_node
  begin_node-props h = elim (Option-cases (find_nul block r.cursor)) [
    | inl absent ↦ ground (arith, absent)
    | inr (end, found) ↦ ground (arith, found)
  ]

  end_node-props : end_node r ≡ ok s → s.props ≡ r.props
  unfolding end_node
  end_node-props h = ground arith

  more-eq : (m : Result FdtError Reader) → go_on m ≡ ok (more s) → m ≡ ok s
  more-eq (ok t) h = ground arith
  more-eq (err e) h = cc

  ends_otherwise :
      (token : ℕ)
      → token == 1 ≡ false
      → token == 2 ≡ false
      → token == 3 ≡ false
      → token == 4 ≡ false
      → dispatch token block strings r ≡ ok (more s)
      → ⊥
  ends_otherwise token a b c d h = elim (Result-cases (finish r)) [
    | inl (props, done) ↦ ground (arith, done)
    | inr (e, failed) ↦ ground (arith, failed)
  ]

  -- Every token moves the cursor on, and keeps the dictionary or adds one property.
  dispatch-Moves :
      (token : ℕ)
      → dispatch token block strings r ≡ ok (more s)
      → (r.cursor ≤ s.cursor) × Moves block r s
  dispatch-Moves token h = elim (Bool-cases (token == 1)) [
    | inl begins ↦
        let met = more-eq (begin_node block r) (ground (arith, begins)) in
        (begin_node-cursor block r met, stays (begin_node-props met))
    | inr a ↦ elim (Bool-cases (token == 2)) [
      | inl ends ↦
          let met = more-eq (end_node r) (ground (arith, a, ends)) in
          (end_node-cursor r met, stays (end_node-props met))
      | inr b ↦ elim (Bool-cases (token == 3)) [
        | inl third ↦
            let added =
              property-Adds block strings r
                (more-eq (property block strings r) (ground (arith, a, b, third))) in
            (added.later, adds added)
        | inr c ↦ elim (Bool-cases (token == 4)) [
          | inl skips ↦ (ground (arith, a, b, c, skips), stays (ground (arith, a, b, c, skips)))
          | inr d ↦ absurd (ends_otherwise token a b c d h)
        ]
      ]
    ]
  ]

behind_token :
    (block : Bytes) (r : Reader) {s : Reader}
    → Moves block (record r { cursor = r.cursor + 4 }) s
    → Moves block r s
behind_token block r (stays same) = stays same
behind_token block r (adds added) = adds (record {
  entry = added.entry;
  later = omega (arith, added.later);
  props = added.props;
  new_key = added.new_key;
  inside = added.inside;
})

-- A round that goes on has read four bytes or more.
pub step-Moves :
    (block strings : Bytes) (r : Reader) {s : Reader}
    → step block strings r ≡ ok (more s)
    → (r.cursor + 4 ≤ s.cursor) × Moves block r s
unfolding step
step-Moves block strings r {s} h =
    let (later, moves) =
      dispatch-Moves block strings (record r { cursor = r.cursor + 4 }) (be32_at block r.cursor)
        h in
    (later, behind_token block r moves)

-- ===== src/Fdt/Loop.antt =====
-- The loop of `fdt` and its fuel.
use edgepi_e87n.Base.{
  ℕ, zero, suc, ◌+◌, ◌<◌, Bool, true, false, ◌≢◌, Option-cases, Bool-cases, inl, inr, arith, leb,
  ◌==◌, length, Bytes, be32_at, if◌then◌else◌, ◌>>=◌, Result, Result-cases, ok, err,
}
use edgepi_e87n.Fdt.{
  FdtError, out_of_fuel, Reader, initial, find_nul, begin_node, end_node, property, finish, more,
  finished, go_on, dispatch, step, loop, header_of, check_header, block_of, strings_of, fdt,
}
use edgepi_e87n.Fdt.Step.{step-Moves}

pub if-ne : {A : Type 0} {a b c : A} (test : Bool) → a ≢ c → b ≢ c → (if test then a else b) ≢ c
if-ne true left right = left
if-ne false left right = right

module _ (block strings : Bytes) where
  begin_node-ne-fuel : (r : Reader) → begin_node block r ≢ err out_of_fuel
  unfolding begin_node
  begin_node-ne-fuel r h = elim (Option-cases (find_nul block r.cursor)) [
    | inl absent ↦ ground (arith, absent)
    | inr (end, found) ↦ ground (arith, found)
  ]

  property-ne-fuel : (r : Reader) → property block strings r ≢ err out_of_fuel
  unfolding property
  property-ne-fuel r h = elim (Option-cases (find_nul strings (be32_at block (r.cursor + 4)))) [
    | inl absent ↦ ground (arith, absent)
    | inr (end, found) ↦ ground (arith, found)
  ]

  end_node-ne-fuel : (r : Reader) → end_node r ≢ err out_of_fuel
  unfolding end_node
  end_node-ne-fuel r h = ground arith

  finish-ne-fuel : (r : Reader) → finish r ≢ err out_of_fuel
  unfolding finish
  finish-ne-fuel r h = ground arith

  go_on-ne-fuel : (m : Result FdtError Reader) → m ≢ err out_of_fuel → go_on m ≢ err out_of_fuel
  go_on-ne-fuel (ok r) ne h = cc
  go_on-ne-fuel (err e) ne h = ne (cc)

  returned-ne-fuel : (r : Reader) → (finish r >>= λ props. ok (finished props)) ≢ err out_of_fuel
  returned-ne-fuel r h = elim (Result-cases (finish r)) [
    | inl (props, done) ↦ ground (arith, done)
    | inr (e, failed) ↦ ground (arith, failed, finish-ne-fuel r)
  ]

  dispatch-ne-fuel : (token : ℕ) (r : Reader) → dispatch token block strings r ≢ err out_of_fuel
  dispatch-ne-fuel token r =
      if-ne (token == 1) (go_on-ne-fuel (begin_node block r) (begin_node-ne-fuel r)) (
        if-ne (token == 2) (go_on-ne-fuel (end_node r) (end_node-ne-fuel r)) (
          if-ne (token == 3) (go_on-ne-fuel (property block strings r) (property-ne-fuel r)) (
            if-ne (token == 4) (λ h. ground arith)
              (if-ne (token == 9) (returned-ne-fuel r) (λ h. ground arith)))))

  step-ne-fuel : (r : Reader) → step block strings r ≢ err out_of_fuel
  unfolding step
  step-ne-fuel r = dispatch-ne-fuel (be32_at block r.cursor) (record r { cursor = r.cursor + 4 })

  -- Fuel beyond the bytes left is enough.
  loop-ends :
      (fuel : ℕ) (r : Reader)
      → 0 < fuel
      → length block < r.cursor + fuel
      → loop fuel block strings r ≢ err out_of_fuel
  unfolding loop
  loop-ends zero r some_fuel bound h = omega arith
  loop-ends (suc fuel) r some_fuel bound h = elim (Bool-cases (leb (r.cursor + 4) (length block))) [
    | inr at_end ↦ ground (arith, at_end)
    | inl goes ↦ elim (Result-cases (step block strings r)) [
      | inr (e, failed) ↦ ground (arith, goes, failed, step-ne-fuel r)
      | inl (finished props, done) ↦ ground (arith, goes, done)
      | inl (more s, moved) ↦
          let later = (step-Moves block strings r moved).0 in
          loop-ends fuel s (ground (arith, goes)) (ground (arith, later))
            (ground (arith, goes, moved))
    ]
  ]

-- `fdt` returns a dictionary or raises one of the source's errors, for every input.
pub fdt-ends : (data' : Bytes) → fdt data' ≢ err out_of_fuel
unfolding fdt check_header
fdt-ends data' h =
    let block = block_of (header_of data') data' in
    let ends = loop-ends block (strings_of (header_of data') data') (length block + 1) initial in
    ground (arith, ends)

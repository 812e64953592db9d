-- ===== src/Hardware/Config/Unique.antt =====
-- The pairs that `_unique_object` accepts and returns.
use edgepi_e87n.Base.{
  String, ◌≡◌, refl, ◌∙◌, ap, Bool, true, false, not, ◌&&◌, ≈_iff, elem, distinct, ok, arith,
  Bool-cases, inl, inr, ◌↔◌,
}
use edgepi_e87n.Json.{Value, Fields, end, field, keys, put}
use edgepi_e87n.Json.Dict.{elem-keys-put}
use edgepi_e87n.Hardware.Config.{unique_onto, unique_object}

append : Fields → Fields → Fields
append end gs = gs
append (field k v fs) gs = field k v (append fs gs)

append-end : (fs : Fields) → append fs end ≡ fs
unfolding append
append-end end = refl
append-end (field k v fs) = rw (append-end fs)

-- a new key goes to the end
append-put :
    (k : String) (v : Value) (fs gs : Fields)
    → elem k (keys fs) ≡ false
    → append (put k v fs) gs ≡ append fs (field k v gs)
unfolding append put keys
append-put k v end gs h = refl
append-put k v (field j w fs) gs h = ground (arith, append-put k v fs gs)

unique_onto-eq-append :
    (pairs result : Fields) {out : Fields}
    → unique_onto result pairs ≡ ok out
    → out ≡ append result pairs
unfolding unique_onto
unique_onto-eq-append end result h = ground (arith, append-end result)
unique_onto-eq-append (field k v pairs) result h = elim (Bool-cases (elem k (keys result))) [
  | inl dup ↦ absurd (ground arith)
  | inr new ↦
      unique_onto-eq-append pairs (put k v result) (ground arith) ∙ append-put k v result pairs new
]

-- no key of `fs` is one of the keys of `result`
abbrev fresh : Fields → Fields → Bool
fresh end result = true
fresh (field k v fs) result = not (elem k (keys result)) && fresh fs result

fresh-put :
    (k : String) (v : Value) (fs result : Fields)
    → fresh fs (put k v result) ≡ (fresh fs result && not (elem k (keys fs)))
unfolding keys
fresh-put k v end result = refl
fresh-put k v (field j w fs) result =
    ground (arith, fresh-put k v fs result, elem-keys-put k j v result, ≈_iff k j, ≈_iff j k)

succeeds-unique_onto :
    (pairs result : Fields)
    → (distinct (keys pairs) && fresh pairs result) ≡ true
    → unique_onto result pairs ≡ ok (append result pairs)
unfolding unique_onto keys
succeeds-unique_onto end result h = rw append-end
succeeds-unique_onto (field k v pairs) result h =
    let new : elem k (keys result) ≡ false = ground arith in
    rw new (
      succeeds-unique_onto pairs (put k v result) (ground (arith, fresh-put k v pairs result))
      ∙ ap ok (append-put k v result pairs new))

distinct_of_unique_onto :
    (pairs result : Fields) {out : Fields}
    → unique_onto result pairs ≡ ok out
    → (distinct (keys pairs) && fresh pairs result) ≡ true
unfolding unique_onto keys
distinct_of_unique_onto end result h = refl
distinct_of_unique_onto (field k v pairs) result {out} h =
    elim (Bool-cases (elem k (keys result))) [
      | inl dup ↦ absurd (ground arith)
      | inr new ↦
          let rest = distinct_of_unique_onto pairs (put k v result) {out = out} (ground arith) in
          ground (arith, fresh-put k v pairs result)
    ]

fresh-end : (pairs : Fields) → fresh pairs end ≡ true
unfolding keys
fresh-end end = refl
fresh-end (field k v pairs) = fresh-end pairs

-- The hook accepts an object exactly when no key is repeated, and then hands the pairs on as
-- they stand.
pub unique_object_iff :
    (pairs : Fields) → (unique_object pairs ≡ ok pairs) ↔ (distinct (keys pairs) ≡ true)
unfolding unique_object append
unique_object_iff pairs = (
  λ h. ground (arith, distinct_of_unique_onto pairs end h),
  λ d. succeeds-unique_onto pairs end (ground (arith, fresh-end pairs)),
)

-- Nothing is dropped, merged or reordered: an accepted object comes back as it was written.
pub unique_object_keeps :
    (pairs out : Fields)
    → unique_object pairs ≡ ok out
    → (out ≡ pairs) × (distinct (keys out) ≡ true)
unfolding unique_object append
unique_object_keeps pairs out h =
    let same : out ≡ pairs = unique_onto-eq-append pairs end h in
    (same, rw same (ground (arith, distinct_of_unique_onto pairs end h)))

-- ===== src/Boot/Layout.antt =====
-- `check_parts` of the factory boot helpers, partition by partition.
use edgepi_e87n.Base.{
  ℕ, ◌≤◌, ◌≡◌, ◌⊎◌, inl, inr, refl, ap, sym, subst, ◌∙◌, Bool, true, ◌&&◌, not, List, [], ◌∷◌,
  Option, none, some, ◌==◌, length, all, Bytes, bytes_elem, arith, ok, or_raise, bind-eq-ok,
  Bool-cases,
}
use edgepi_e87n.Boot.{
  missing_key, Entry, layout, Part, Slot, part_at, has_entry, is_present, same_numbers, has_label,
  is_device, check_part, check_parts, unique,
}

-- A partition is the one of the layout: label, first sector, sectors, parent and number.
pub record IsPart (e : Entry) (p : Part) : Type 0 where
  pub label : has_label p.name e.label ≡ true
  pub start : p.start ≡ e.start
  pub size : p.size ≡ e.size
  pub parent : p.parent_ok ≡ true
  pub number : p.number ≡ e.number
  pub device : is_device p.dev ≡ true

-- Every entry has its partition, and `devices` are the identities in order.
unfoldable pub AllParts : List Entry → List Slot → List Bytes → Type 0
AllParts [] slots devices = devices ≡ []
AllParts (e ∷ es) slots devices =
    (p : Part) × (rest : List Bytes) × (part_at e.number slots ≡ some p)
    × IsPart e p
    × (devices ≡ p.dev ∷ rest)
    × AllParts es slots rest

check_part-IsPart : (e : Entry) (p : Part) → check_part e p ≡ ok tt → IsPart e p
unfolding check_part
check_part-IsPart e p h = record {
  label = ground arith;
  start = ground arith;
  size = ground arith;
  parent = ground arith;
  number = ground arith;
  device = ground arith;
}

found_some : (o : Option Part) (p : Part) → or_raise o missing_key ≡ ok p → o ≡ some p
found_some (some q) p h = ground arith
found_some none p h = cc

pub check_parts-AllParts :
    (entries : List Entry) (slots : List Slot) {devices : List Bytes}
    → check_parts entries slots ≡ ok devices
    → AllParts entries slots devices
unfolding check_parts AllParts
check_parts-AllParts [] slots {devices} h = ground arith
check_parts-AllParts (e ∷ entries) slots {devices} h =
    let (p, found, checked) = bind-eq-ok (or_raise (part_at e.number slots) missing_key) _ h in
    let (_, fits, others) = bind-eq-ok (check_part e p) _ checked in
    let (rest, went, done) = bind-eq-ok (check_parts entries slots) _ others in
    (
      p,
      rest,
      found_some (part_at e.number slots) p found,
      check_part-IsPart e p fits,
      ground (arith, done),
      check_parts-AllParts entries slots went,
    )

pub length-AllParts :
    (entries : List Entry) (slots : List Slot) (devices : List Bytes)
    → AllParts entries slots devices
    → length devices ≡ length entries
unfolding AllParts
length-AllParts [] slots devices h = ap length h
length-AllParts (e ∷ es) slots devices (p, rest, found, fits, same, more) =
    omega (arith, ap (length {A = Bytes}) same, length-AllParts es slots rest more)

-- the identities are pairwise different
unfoldable pub all_different : List Bytes → Bool
all_different [] = true
all_different (d ∷ ds) = not (bytes_elem d ds) && all_different ds

length-unique-le : (ds : List Bytes) → length (unique ds) ≤ length ds
unfolding unique
length-unique-le [] = omega arith
length-unique-le (d ∷ ds) = ground (arith, length-unique-le ds)

pub unique-all_different :
    (ds : List Bytes) → length (unique ds) ≡ length ds → all_different ds ≡ true
unfolding unique all_different
unique-all_different [] h = refl
unique-all_different (d ∷ ds) h = ground (arith, length-unique-le ds, unique-all_different ds)

-- The partition with number `n` is the one that some entry describes.
unfoldable pub Listed : List Entry → ℕ → Part → Type 0
Listed [] n p = ⊥
Listed (e ∷ es) n p = ((n ≡ e.number) × IsPart e p) ⊎ Listed es n p

is_present-part_at :
    (n : ℕ) (slots : List Slot) {p : Part} → part_at n slots ≡ some p → is_present n slots ≡ true
unfolding part_at is_present
is_present-part_at n [] h = cc
is_present-part_at n (s ∷ slots) {p} h = ground (arith, is_present-part_at n slots {p = p})

all-has_entry :
    (n : ℕ) (slots : List Slot) (entries : List Entry)
    → all (λ (s : Slot). has_entry s.key entries) slots ≡ true
    → is_present n slots ≡ true
    → has_entry n entries ≡ true
unfolding is_present
all-has_entry n [] entries h there = cc
all-has_entry n (s ∷ slots) entries h there = elim (Bool-cases (s.key == n)) [
  | inl here ↦
      let same : s.key ≡ n = ground (arith, here) in
      ap (λ k. has_entry k entries) (sym same) ∙ ground arith
  | inr later ↦ all-has_entry n slots entries (ground arith) (ground (arith, later))
]

same_part : (o : Option Part) (p q : Part) → o ≡ some p → o ≡ some q → p ≡ q
same_part o p q a b = cc

AllParts-Listed :
    (entries : List Entry) (slots : List Slot) (devices : List Bytes) (n : ℕ) (p : Part)
    → AllParts entries slots devices
    → has_entry n entries ≡ true
    → part_at n slots ≡ some p
    → Listed entries n p
unfolding AllParts Listed has_entry
AllParts-Listed [] slots devices n p all listed found = cc
AllParts-Listed (e ∷ es) slots devices n p (q, rest, there, fits, same, more) listed found =
    elim (Bool-cases (e.number == n)) [
      | inl here ↦
          let number : e.number ≡ n = ground (arith, here) in
          let equal =
            same_part (part_at n slots) q p (subst (λ k. part_at k slots ≡ some q) number there)
              found in
          inl (sym number, subst (IsPart e) equal fits)
      | inr other ↦ inr (AllParts-Listed es slots rest n p more (ground (arith, other)) found)
    ]

pub part-Listed :
    (n : ℕ) (p : Part) (slots : List Slot) (devices : List Bytes)
    → same_numbers slots layout ≡ true
    → AllParts layout slots devices
    → part_at n slots ≡ some p
    → Listed layout n p
unfolding same_numbers
part-Listed n p slots devices h all found =
    AllParts-Listed layout slots devices n p all
      (all-has_entry n slots layout (ground arith) (is_present-part_at n slots found)) found

-- ===== src/Framebuffer/Lanes.antt =====
-- The colour fields that `validate_framebuffer` accepts.
use edgepi_e87n.Base.{
  ℕ, zero, suc, ◌+◌, ◌≤◌, ◌<◌, ◌≡◌, ◌↔◌, refl, sym, ap, subst, ◌∙◌, Bool, true, false, not, ◌&&◌,
  ◌||◌, ◌==◌, Result, ok, err, arith, succeeds, bind-eq-ok,
}
use edgepi_e87n.Framebuffer.{
  Bitfield, DisplayError, add_field, check_fields, FixInfo, VarInfo, Layout, validate_framebuffer,
}
use edgepi_e87n.Framebuffer.Bounds.{validate_framebuffer-layout_of}

-- The six orders in which fields of 5, 6 and 5 bits fill 16 bits.
unfoldable pub is_packing : ℕ → ℕ → ℕ → Bool
is_packing red green blue =
    (red == 11 && green == 5 && blue == 0)
    || (blue == 11 && green == 5 && red == 0)
    || (green == 10 && blue == 5 && red == 0)
    || (green == 10 && red == 5 && blue == 0)
    || (blue == 11 && red == 6 && green == 0)
    || (red == 11 && blue == 6 && green == 0)

abbrev at_offset : ℕ → ℕ → Bitfield
at_offset length offset = record { offset = offset; length = length; msb_right = 0 }

abbrev accepts : ℕ → ℕ → ℕ → Bool
accepts red green blue =
    succeeds (check_fields (at_offset 5 red) (at_offset 6 green) (at_offset 5 blue))

-- a test that every number under the limit passes
everywhere : ℕ → (ℕ → Bool) → Bool
everywhere (suc limit) test = everywhere limit test && test limit
everywhere zero test = true

everywhere-at :
    (limit : ℕ) (test : ℕ → Bool) (at : ℕ)
    → everywhere limit test ≡ true
    → at < limit
    → test at ≡ true
unfolding everywhere
everywhere-at (suc limit) test at passed small = ground (arith, everywhere-at limit test at)
everywhere-at zero test at passed small = absurd (omega (arith, small))

abbrev same : Bool → Bool → Bool
same true b = b
same false b = not b

agrees : ℕ → ℕ → ℕ → Bool
agrees red green blue = same (accepts red green blue) (is_packing red green blue)

-- every offset that the single checks let through, by evaluation
packing_table :
    everywhere 12 (λ red. everywhere 11 (λ green. everywhere 12 (λ blue. agrees red green blue)))
    ≡ true
unfolding everywhere agrees is_packing check_fields
packing_table = refl

accepts-packing :
    (red green blue : ℕ)
    → red < 12
    → green < 11
    → blue < 12
    → accepts red green blue ≡ is_packing red green blue
unfolding agrees
accepts-packing red green blue r g b =
    let row =
      everywhere-at 12 (λ x. everywhere 11 (λ y. everywhere 12 (λ z. agrees x y z))) red
        packing_table r in
    let cell = everywhere-at 11 (λ y. everywhere 12 (λ z. agrees red y z)) green row g in
    let each = everywhere-at 12 (λ z. agrees red green z) blue cell b in ground (arith, each)

field_shape :
    (mask length : ℕ) (f : Bitfield) (next : ℕ)
    → length ≤ 16
    → add_field mask f length ≡ ok next
    → (f ≡ at_offset length f.offset) × (f.offset + length ≤ 16)
unfolding add_field
field_shape mask length f next small h = (ground arith, ground arith)

module _ (red green blue : Bitfield) (r : red ≡ at_offset 5 red.offset)
    (g : green ≡ at_offset 6 green.offset) (u : blue ≡ at_offset 5 blue.offset) where
  shaped :
      (P : Bitfield → Bitfield → Bitfield → Type 0)
      → P red green blue
      → P (at_offset 5 red.offset) (at_offset 6 green.offset) (at_offset 5 blue.offset)
  shaped P p =
      subst (λ z. P (at_offset 5 red.offset) (at_offset 6 green.offset) z) u
        (subst (λ y. P (at_offset 5 red.offset) y blue) g (subst (λ x. P x green blue) r p))

  unshaped :
      (P : Bitfield → Bitfield → Bitfield → Type 0)
      → P (at_offset 5 red.offset) (at_offset 6 green.offset) (at_offset 5 blue.offset)
      → P red green blue
  unshaped P p =
      subst (λ x. P x green blue) (sym r)
        (subst (λ y. P (at_offset 5 red.offset) y blue) (sym g)
          (subst (λ z. P (at_offset 5 red.offset) (at_offset 6 green.offset) z) (sym u) p))

fields_shape :
    (red green blue : Bitfield)
    → check_fields red green blue ≡ ok tt
    → (red ≡ at_offset 5 red.offset)
      × (green ≡ at_offset 6 green.offset)
      × (blue ≡ at_offset 5 blue.offset)
      × (red.offset < 12)
      × (green.offset < 11)
      × (blue.offset < 12)
unfolding check_fields
fields_shape red green blue h =
    let (m, a, rest) = bind-eq-ok (add_field 0 red 5) _ h in
    let (n, b, rest') = bind-eq-ok (add_field m green 6) _ rest in
    let (o, c, _) = bind-eq-ok (add_field n blue 5) _ rest' in
    let r = field_shape 0 5 red m (omega arith) a in
    let g = field_shape m 6 green n (omega arith) b in
    let u = field_shape n 5 blue o (omega arith) c in
    (r.0, g.0, u.0, omega arith, omega arith, omega arith)

succeeds-ok : (r : Result DisplayError (Unit {0})) → succeeds r ≡ true → r ≡ ok tt
succeeds-ok (ok _) h = refl
succeeds-ok (err e) h = cc

packing_bounds :
    (red green blue : ℕ)
    → is_packing red green blue ≡ true
    → (red < 12) × (green < 11) × (blue < 12)
unfolding is_packing
packing_bounds red green blue h = (ground arith, ground arith, ground arith)

-- Exactly the six packings pass: the fields have 5, 6 and 5 bits, do not overlap, and fill the
-- sixteen bits of a pixel.
check_fields_iff :
    (red green blue : Bitfield)
    → (check_fields red green blue ≡ ok tt) ↔ (
        (red ≡ at_offset 5 red.offset)
        × (green ≡ at_offset 6 green.offset)
        × (blue ≡ at_offset 5 blue.offset)
        × (is_packing red.offset green.offset blue.offset ≡ true))
check_fields_iff red green blue = (
  λ h.
      let (r, g, u, rb, gb, ub) = fields_shape red green blue h in
      let accepted : accepts red.offset green.offset blue.offset ≡ true =
        shaped red green blue r g u (λ r g b. succeeds (check_fields r g b) ≡ true)
          (ap succeeds h) in
      (r, g, u, sym (accepts-packing _ _ _ rb gb ub) ∙ accepted),
  λ (r, g, u, packing).
      let (rb, gb, ub) = packing_bounds red.offset green.offset blue.offset packing in
      let accepted = accepts-packing red.offset green.offset blue.offset rb gb ub ∙ packing in
      succeeds-ok (check_fields red green blue)
        (unshaped red green blue r g u (λ r g b. succeeds (check_fields r g b) ≡ true) accepted),
)

-- The layout of an accepted device has one of the six orders in which fields of 5, 6 and 5 bits
-- fill the 16 bits of a pixel.
pub validate_framebuffer_packing :
    (fix : FixInfo) (var : VarInfo) (l : Layout)
    → validate_framebuffer fix var ≡ ok l
    → is_packing l.red_offset l.green_offset l.blue_offset ≡ true
validate_framebuffer_packing fix var l h =
    let (same_layout, _, fields, _) = validate_framebuffer-layout_of fix var l h in
    rw same_layout ((check_fields_iff var.red var.green var.blue).0 fields).3

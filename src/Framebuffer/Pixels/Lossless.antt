-- ===== src/Framebuffer/Pixels/Lossless.antt =====
-- The bits of a packed pixel.
use Prim.Native.Nat.{bit_or}
use edgepi_e87n.Base.{
  ℕ, ◌+◌, ◌*◌, ◌/◌, ◌%◌, ◌^◌, ◌<◌, ◌≡◌, ◌⊎◌, inl, inr, refl, ap, ◌∙◌, true, List, [], ◌∷◌, arith,
  length,
}
use edgepi_e87n.Base.Bits.{bit_or_high, bit_or_low, bit_or_split, bit_or-zero}
use edgepi_e87n.Framebuffer.{Layout}
use edgepi_e87n.Framebuffer.Lanes.{is_packing}
use edgepi_e87n.Framebuffer.Pixels.{
  Rgb, ByteOrder, pack_pixel, item_bytes, pixel_bytes, pack_pixels,
}

abbrev joined : ℕ → ℕ → ℕ → ℕ → ℕ → ℕ → ℕ
joined ro go bo r g b = bit_or (bit_or (r * 2 ^ ro) (g * 2 ^ go)) (b * 2 ^ bo)

abbrev Sums : ℕ → ℕ → ℕ → Type 0
Sums ro go bo =
    (r g b : ℕ)
    → r < 32
    → g < 64
    → b < 32
    → joined ro go bo r g b ≡ r * 2 ^ ro + g * 2 ^ go + b * 2 ^ bo

-- two fields, then one below them
below : (x n b : ℕ) (k : ℕ) → b < 2 ^ k → x ≡ n * 2 ^ k → bit_or x (b * 2 ^ 0) ≡ x + b
below x n b k h e =
    ap (bit_or x) one ∙ ap (λ t. bit_or t b) e ∙ bit_or_high k n b h ∙ omega (arith, e)
  where
    one : b * 2 ^ 0 ≡ b
    one = omega arith

-- two fields that fill k bits, then one above them
above : (x b k : ℕ) → x < 2 ^ k → bit_or x (b * 2 ^ k) ≡ x + b * 2 ^ k
above x b k h = bit_or_low k x b h ∙ omega arith

rgb : Sums 11 5 0
rgb r g b p q s =
    ap (λ t. bit_or t (b * 2 ^ 0)) (bit_or_high 11 r (g * 2 ^ 5) (omega arith))
    ∙ below (r * 2 ^ 11 + g * 2 ^ 5) (r * 64 + g) b 5 (omega arith) (omega arith)
    ∙ omega arith

bgr : Sums 0 5 11
bgr r g b p q s =
    ap (λ t. bit_or t (b * 2 ^ 11)) (bit_or_low 5 (r * 2 ^ 0) g (omega arith))
    ∙ above (g * 2 ^ 5 + r * 2 ^ 0) b 11 (omega arith)
    ∙ omega arith

-- a field of j bits above 2^k between a low part and a high part
between :
    (k j n low b : ℕ)
    → low < 2 ^ k
    → b < 2 ^ j
    → bit_or ((n * 2 ^ j) * 2 ^ k + low) (b * 2 ^ k) ≡ (n * 2 ^ j + b) * 2 ^ k + low
between k j n low b h q =
    ap (bit_or ((n * 2 ^ j) * 2 ^ k + low)) flat
    ∙ bit_or_split k (n * 2 ^ j) b low 0 h (omega (arith, h))
    ∙ omega (arith, ap (λ (t : ℕ). t * 2 ^ k) (bit_or_high j n b q), bit_or-zero low)
  where
    flat : b * 2 ^ k ≡ b * 2 ^ k + 0
    flat = omega arith

gbr : Sums 0 10 5
gbr r g b p q s =
    ap (λ t. bit_or t (b * 2 ^ 5)) (bit_or_low 10 (r * 2 ^ 0) g (omega arith) ∙ regroup)
    ∙ between 5 5 g r b p s
    ∙ omega arith
  where
    regroup : g * 2 ^ 10 + r * 2 ^ 0 ≡ (g * 2 ^ 5) * 2 ^ 5 + r
    regroup = omega arith

grb : Sums 5 10 0
grb r g b p q s =
    ap (λ t. bit_or t (b * 2 ^ 0)) (bit_or_low 10 (r * 2 ^ 5) g (omega arith))
    ∙ below (g * 2 ^ 10 + r * 2 ^ 5) (g * 32 + r) b 5 s (omega arith)
    ∙ omega arith

brg : Sums 6 0 11
brg r g b p q s =
    ap (λ t. bit_or t (b * 2 ^ 11)) (bit_or_high 6 r (g * 2 ^ 0) (omega arith))
    ∙ above (r * 2 ^ 6 + g * 2 ^ 0) b 11 (omega arith)
    ∙ omega arith

rbg : Sums 11 0 6
rbg r g b p q s =
    ap (λ t. bit_or t (b * 2 ^ 6)) (bit_or_high 11 r (g * 2 ^ 0) (omega arith) ∙ regroup)
    ∙ between 6 5 r g b q s
    ∙ omega arith
  where
    regroup : r * 2 ^ 11 + g * 2 ^ 0 ≡ (r * 2 ^ 5) * 2 ^ 6 + g
    regroup = omega arith

packing-cases :
    (r g b : ℕ)
    → is_packing r g b ≡ true
    → ((r ≡ 11) × (g ≡ 5) × (b ≡ 0))
      ⊎ (((r ≡ 0) × (g ≡ 5) × (b ≡ 11))
          ⊎ (((r ≡ 0) × (g ≡ 10) × (b ≡ 5))
              ⊎ (((r ≡ 5) × (g ≡ 10) × (b ≡ 0))
                  ⊎ (((r ≡ 6) × (g ≡ 0) × (b ≡ 11)) ⊎ ((r ≡ 11) × (g ≡ 0) × (b ≡ 6))))))
unfolding is_packing
packing-cases r g b h = ground arith

-- The pixel is below 2^16, and each field reads back: field = pixel >> offset & mask.
abbrev Reads : ℕ → ℕ → ℕ → Type 0
Reads ro go bo =
    (r g b : ℕ)
    → r < 32
    → g < 64
    → b < 32
    → (joined ro go bo r g b < 65536)
      × (joined ro go bo r g b / 2 ^ ro % 32 ≡ r)
      × (joined ro go bo r g b / 2 ^ go % 64 ≡ g)
      × (joined ro go bo r g b / 2 ^ bo % 32 ≡ b)

packing-Reads : (ro go bo : ℕ) → is_packing ro go bo ≡ true → Reads ro go bo
packing-Reads ro go bo h = elim (packing-cases ro go bo h) [
  | inl (a, b, c) ↦ rw (a, b, c) (λ r g u p q s. omega (arith, rgb r g u p q s))
  | inr (inl (a, b, c)) ↦ rw (a, b, c) (λ r g u p q s. omega (arith, bgr r g u p q s))
  | inr (inr (inl (a, b, c))) ↦ rw (a, b, c) (λ r g u p q s. omega (arith, gbr r g u p q s))
  | inr (inr (inr (inl (a, b, c)))) ↦ rw (a, b, c) (λ r g u p q s. omega (arith, grb r g u p q s))
  | inr (inr (inr (inr (inl (a, b, c))))) ↦
      rw (a, b, c) (λ r g u p q s. omega (arith, brg r g u p q s))
  | inr (inr (inr (inr (inr (a, b, c))))) ↦
      rw (a, b, c) (λ r g u p q s. omega (arith, rbg r g u p q s))
]

pub record IsRgb (p : Rgb) : Type 0 where
  pub r : p.r < 256
  pub g : p.g < 256
  pub b : p.b < 256

-- With one of the six packings and channels below 256, a packed pixel is a 16-bit value from
-- which each channel reads back with its low bits cut off: five bits of red and blue, six of
-- green.
pub pack_pixel_lossless :
    (l : Layout) (p : Rgb)
    → is_packing l.red_offset l.green_offset l.blue_offset ≡ true
    → IsRgb p
    → (pack_pixel l p < 65536)
      × (pack_pixel l p / 2 ^ l.red_offset % 32 ≡ p.r / 8)
      × (pack_pixel l p / 2 ^ l.green_offset % 64 ≡ p.g / 4)
      × (pack_pixel l p / 2 ^ l.blue_offset % 32 ≡ p.b / 8)
unfolding pack_pixel
pack_pixel_lossless l p h c =
    packing-Reads l.red_offset l.green_offset l.blue_offset h (p.r / 8) (p.g / 4) (p.b / 8)
      (omega (arith, c.r)) (omega (arith, c.g)) (omega (arith, c.b))

-- The byte order of the host does not matter: two bytes a pixel, in the order asked for.
pixel_bytes_order :
    (native byteorder : ByteOrder) (n : ℕ) → pixel_bytes native byteorder n ≡ item_bytes byteorder n
unfolding pixel_bytes
pixel_bytes_order native byteorder n = ground arith

pub length-pack_pixels :
    (l : Layout) (native byteorder : ByteOrder) (ps : List Rgb)
    → length (pack_pixels l native byteorder ps) ≡ 2 * length ps
unfolding pack_pixels
length-pack_pixels l native byteorder [] = refl
length-pack_pixels l native byteorder (p ∷ ps) = ground (
  arith,
  pixel_bytes_order native byteorder (pack_pixel l p),
  length-pack_pixels l native byteorder ps,
)

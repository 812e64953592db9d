-- ===== src/Framebuffer/Pixels.antt =====
-- `pack_rgb565` of board-support/e87n/display.py. An image is its size and its RGB triples, in the
-- order of `image.convert("RGB").tobytes()`.
pub mod Lossless
use Prim.Native.Nat.{bit_or}
use edgepi_e87n.Base.{
  ℕ, ◌*◌, ◌/◌, ◌%◌, ◌^◌, Bool, true, false, not, ◌&&◌, List, [], ◌∷◌, ◌++◌, ◌==◌, if◌then◌else◌,
  Bytes, Result, ok, err, ◌>>=◌, ◌>>◌, require,
}
use edgepi_e87n.Framebuffer.{width, height, Layout, DisplayError, bad_image}

pub record Rgb : Type 0 where
  pub r : ℕ
  pub g : ℕ
  pub b : ℕ

pub record Image : Type 0 where
  pub columns : ℕ
  pub rows : ℕ
  pub pixels : List Rgb

pub data ByteOrder : Type 0 where
  little big : ByteOrder

abbrev same_order : ByteOrder → ByteOrder → Bool
same_order little little = true
same_order big big = true
same_order _ _ = false

-- ((r >> 3) << red_offset) | ((g >> 2) << green_offset) | ((b >> 3) << blue_offset)
unfoldable pub pack_pixel : Layout → Rgb → ℕ
pack_pixel l p =
    bit_or (bit_or (p.r / 8 * 2 ^ l.red_offset) (p.g / 4 * 2 ^ l.green_offset))
      (p.b / 8 * 2 ^ l.blue_offset)

-- An item of `array("H")` in memory, and `byteswap`.
abbrev pub item_bytes : ByteOrder → ℕ → Bytes
item_bytes little n = n % 256 ∷ n / 256 ∷ []
item_bytes big n = n / 256 ∷ n % 256 ∷ []

abbrev byteswap : Bytes → Bytes
byteswap (x ∷ y ∷ rest) = y ∷ x ∷ rest
byteswap other = other

-- `native` is sys.byteorder
unfoldable pub pixel_bytes : ByteOrder → ByteOrder → ℕ → Bytes
pixel_bytes native byteorder n =
    if not (same_order byteorder native)
    then byteswap (item_bytes native n)
    else item_bytes native n

unfoldable pub pack_pixels : Layout → ByteOrder → ByteOrder → List Rgb → Bytes
unfolding pack_pixel pixel_bytes
pack_pixels l native byteorder [] = []
pack_pixels l native byteorder (p ∷ ps) =
    pixel_bytes native byteorder (pack_pixel l p) ++ pack_pixels l native byteorder ps

unfoldable pub pack_rgb565 : Image → Layout → ByteOrder → ByteOrder → Result DisplayError Bytes
pack_rgb565 image l native byteorder = do
  require (image.columns == width && image.rows == height) bad_image
  ok (pack_pixels l native byteorder image.pixels)

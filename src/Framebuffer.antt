-- ===== src/Framebuffer.antt =====
-- `validate_framebuffer` and `FramebufferLayout` of board-support/e87n/display.py. The fields of the
-- two ioctl structures are Python ints, so no product wraps.
pub mod Bounds
pub mod Lanes
pub mod Pixels
pub mod Draw
use Prim.Native.Nat.{bit_and, bit_or}
use edgepi_e87n.Base.{
  ℕ, ◌+◌, ◌-◌, ◌*◌, ◌%◌, ◌^◌, Bool, true, false, not, ◌&&◌, ◌||◌, List, [], ◌∷◌, ltb, leb, ◌==◌,
  if◌then◌else◌, Bytes, ◌=ᵇ◌, codes, Result, ok, err, ◌>>=◌, ◌>>◌, require,
}

abbrev pub width : ℕ
width = 428

abbrev pub height : ℕ
height = 142

abbrev pub max_fb_bytes : ℕ
max_fb_bytes = 16 * 1024 * 1024

pub record Bitfield : Type 0 where
  pub offset : ℕ
  pub length : ℕ
  pub msb_right : ℕ

-- The fields of `FbFixScreeninfo` that are read; `id` is its text, up to the first NUL.
pub record FixInfo : Type 0 where
  pub id : Bytes
  pub kind : ℕ
  pub type_aux : ℕ
  pub visual : ℕ
  pub line_length : ℕ
  pub smem_len : ℕ

pub record VarInfo : Type 0 where
  pub xres : ℕ
  pub yres : ℕ
  pub xres_virtual : ℕ
  pub yres_virtual : ℕ
  pub xoffset : ℕ
  pub yoffset : ℕ
  pub bits_per_pixel : ℕ
  pub grayscale : ℕ
  pub red : Bitfield
  pub green : Bitfield
  pub blue : Bitfield
  pub transp : Bitfield
  pub nonstd : ℕ
  pub vmode : ℕ

pub record Layout : Type 0 where
  pub stride : ℕ
  pub xoffset : ℕ
  pub yoffset : ℕ
  pub virtual_width : ℕ
  pub virtual_height : ℕ
  pub memory_bytes : ℕ
  pub red_offset : ℕ
  pub green_offset : ℕ
  pub blue_offset : ℕ

unfoldable pub start : Layout → ℕ
start l = l.yoffset * l.stride + l.xoffset * 2

-- `DisplayError` by the check that raises it.
pub data DisplayError : Type 0 where
  bad_id bad_geometry not_truecolor not_rgb16 alpha_field bad_field overlapping_fields :
      DisplayError
  incomplete_fields small_virtual bad_offsets bad_stride bad_memory virtual_overrun : DisplayError
  visible_overrun closed mode_changed bad_progress bad_image io_error : DisplayError

-- ((1 << length) - 1) << offset
abbrev pub field_mask : Bitfield → ℕ → ℕ
field_mask f length = (2 ^ length - 1) * 2 ^ f.offset

-- One round of the loop over the colour fields: the mask of the fields so far.
unfoldable pub add_field : ℕ → Bitfield → ℕ → Result DisplayError ℕ
add_field mask f length = do
  require (not (not (f.length == length) || not (f.msb_right == 0) || ltb (16 - length) f.offset))
      bad_field
  require (bit_and mask (field_mask f length) == 0) overlapping_fields
  ok (bit_or mask (field_mask f length))

-- The loop over red, green and blue, and the test of the whole mask behind it.
unfoldable pub check_fields : Bitfield → Bitfield → Bitfield → Result DisplayError (Unit {0})
unfolding add_field
check_fields red green blue = do
  mask ← add_field 0 red 5
  mask ← add_field mask green 6
  mask ← add_field mask blue 5
  require (mask == 0xffff) incomplete_fields

unfoldable pub check_format : FixInfo → VarInfo → Result DisplayError (Unit {0})
check_format fix var = do
  require (fix.id =ᵇ codes "fb_nv3007") bad_id
  require (var.xres == width && var.yres == height) bad_geometry
  require (fix.kind == 0 && fix.type_aux == 0 && fix.visual == 2) not_truecolor
  require (var.bits_per_pixel == 16 && var.grayscale == 0 && leb var.nonstd 1 && var.vmode == 0)
      not_rgb16
  require (var.transp.length == 0 && var.transp.msb_right == 0 && leb var.transp.offset 16)
      alpha_field

-- The offset behind the last visible byte.
abbrev pub visible_end : FixInfo → VarInfo → ℕ
visible_end fix var = (var.yoffset + height - 1) * fix.line_length + (var.xoffset + width) * 2

unfoldable pub check_memory : FixInfo → VarInfo → Result DisplayError (Unit {0})
check_memory fix var = do
  require (leb width var.xres_virtual && leb height var.yres_virtual) small_virtual
  require
      (leb (var.xoffset + width) var.xres_virtual && leb (var.yoffset + height) var.yres_virtual)
      bad_offsets
  require (fix.line_length % 2 == 0 && leb (var.xres_virtual * 2) fix.line_length) bad_stride
  require (ltb 0 fix.smem_len && leb fix.smem_len max_fb_bytes) bad_memory
  require (leb (fix.line_length * var.yres_virtual) fix.smem_len) virtual_overrun
  require (leb (visible_end fix var) fix.smem_len) visible_overrun

abbrev pub layout_of : FixInfo → VarInfo → Layout
layout_of fix var = record {
  stride = fix.line_length;
  xoffset = var.xoffset;
  yoffset = var.yoffset;
  virtual_width = var.xres_virtual;
  virtual_height = var.yres_virtual;
  memory_bytes = fix.smem_len;
  red_offset = var.red.offset;
  green_offset = var.green.offset;
  blue_offset = var.blue.offset;
}

unfoldable pub validate_framebuffer : FixInfo → VarInfo → Result DisplayError Layout
validate_framebuffer fix var = do
  check_format fix var
  check_fields var.red var.green var.blue
  check_memory fix var
  ok (layout_of fix var)

-- ===== src/Framebuffer/Bounds.antt =====
-- The sizes and offsets that `validate_framebuffer` checks.
use edgepi_e87n.Base.{ℕ, ◌+◌, ◌*◌, ◌≤◌, ◌<◌, ◌%◌, ◌≡◌, ok, arith, bind-eq-ok, row_end-le}
use edgepi_e87n.Framebuffer.{
  width, height, FixInfo, VarInfo, Layout, check_format, check_fields, check_memory, layout_of,
  validate_framebuffer,
}

-- What the checks of sizes and offsets establish.
pub record IsBounded (l : Layout) : Type 0 where
  pub inside_width : l.xoffset + width ≤ l.virtual_width
  pub inside_height : l.yoffset + height ≤ l.virtual_height
  pub row_fits : l.virtual_width * 2 ≤ l.stride
  pub memory_fits : l.stride * l.virtual_height ≤ l.memory_bytes
  pub memory_limit : l.memory_bytes ≤ 16 * 1024 * 1024
  pub aligned : l.stride % 2 ≡ 0

check_memory-IsBounded :
    (fix : FixInfo) (var : VarInfo) → check_memory fix var ≡ ok tt → IsBounded (layout_of fix var)
unfolding check_memory
check_memory-IsBounded fix var h = ground arith

pub validate_framebuffer-layout_of :
    (fix : FixInfo) (var : VarInfo) (l : Layout)
    → validate_framebuffer fix var ≡ ok l
    → (l ≡ layout_of fix var)
      × (check_format fix var ≡ ok tt)
      × (check_fields var.red var.green var.blue ≡ ok tt)
      × (check_memory fix var ≡ ok tt)
unfolding validate_framebuffer
validate_framebuffer-layout_of fix var l h =
    let (_, a, rest) = bind-eq-ok (check_format fix var) _ h in
    let (_, b, rest') = bind-eq-ok (check_fields var.red var.green var.blue) _ rest in
    let (_, c, last) = bind-eq-ok (check_memory fix var) _ rest' in (ground (arith, last), a, b, c)

-- An accepted device has room for the visible screen inside the virtual screen, for a virtual row
-- inside an even stride, and for the virtual screen inside its memory of at most 16 MiB.
pub validate_framebuffer-IsBounded :
    (fix : FixInfo) (var : VarInfo) (l : Layout) → validate_framebuffer fix var ≡ ok l → IsBounded l
validate_framebuffer-IsBounded fix var l h =
    let (same, _, _, memory) = validate_framebuffer-layout_of fix var l h in
    rw same (check_memory-IsBounded fix var memory)

pub row_in_memory :
    (l : Layout) (row : ℕ)
    → IsBounded l
    → row < height
    → (l.yoffset + row) * l.stride + l.stride ≤ l.memory_bytes
row_in_memory l row b h = omega (
  arith,
  row_end-le (l.yoffset + row) l.stride l.virtual_height (omega (arith, b.inside_height)),
  b.memory_fits,
)

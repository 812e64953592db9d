-- ===== src/Framebuffer/Draw/Visible.antt =====
-- The addresses that `draw` writes to.
use edgepi_e87n.Base.{
  ℕ, zero, suc, ◌+◌, ◌-◌, ◌*◌, ◌/◌, ◌%◌, ◌≤◌, ◌<◌, ◌≡◌, ◌⊎◌, inl, inr, refl, ap, ◌&&◌, List, [],
  ◌∷◌, ◌++◌, ◌==◌, length, arith, Bool-cases, drop, slice, length-take, length-append, Bytes,
  Result, ok, err,
}
use edgepi_e87n.Framebuffer.{width, height, Layout, start, DisplayError}
use edgepi_e87n.Framebuffer.Bounds.{IsBounded, row_in_memory}
use edgepi_e87n.Framebuffer.Pixels.{Image, ByteOrder, pack_pixels, pack_rgb565}
use edgepi_e87n.Framebuffer.Pixels.Lossless.{length-pack_pixels}
use edgepi_e87n.Framebuffer.Draw.{
  Answer, End, done, waiting, raised, Chunk, Writing, write_all, continue_at, same_layout,
  row_bytes, draw_rows, draw_packed, draw_image, draw_checked, Framebuffer, draw,
}
use edgepi_e87n.Framebuffer.Draw.Progress.{contents, IsContiguous, write_all-Writes}

-- The byte at address `a` was written.
abbrev pub Touched : List Chunk → ℕ → Type 0
Touched [] a = ⊥
Touched (c ∷ cs) a = ((c.offset ≤ a) × (a < c.offset + length c.bytes)) ⊎ Touched cs a

contiguous_range :
    (offset : ℕ) (trace : List Chunk) (a : ℕ)
    → IsContiguous offset trace
    → Touched trace a
    → (offset ≤ a) × (a < offset + length (contents trace))
unfolding contents
contiguous_range offset [] a h t = absurd t
contiguous_range offset (c ∷ cs) a h (inl t) = omega (arith, length-append c.bytes (contents cs))
contiguous_range offset (c ∷ cs) a h (inr t) = omega (
  arith,
  contiguous_range (offset + length c.bytes) cs a h.1 t,
  length-append c.bytes (contents cs),
)

write_all_range :
    (data' : Bytes) (offset : ℕ) (answers : List Answer) (a : ℕ)
    → Touched (write_all data' offset answers).trace a
    → (offset ≤ a) × (a < offset + length data')
write_all_range data' offset answers a t =
    let w = write_all-Writes data' offset answers in
    omega (
      arith,
      contiguous_range offset (write_all data' offset answers).trace a w.contiguous t,
      ap (length {A = ℕ}) w.splits,
      length-append (contents (write_all data' offset answers).trace) w.unwritten,
    )

Touched-append : (s t : List Chunk) (a : ℕ) → Touched (s ++ t) a → Touched s a ⊎ Touched t a
Touched-append [] t a h = inr h
Touched-append (c ∷ s) t a (inl h) = inl (inl h)
Touched-append (c ∷ s) t a (inr h) = elim (Touched-append s t a h) [
  | inl x ↦ inl (inr x)
  | inr y ↦ inr y
]

Touched-continue :
    (w : Writing) (next : List Answer → Writing) (e : End) (a : ℕ)
    → Touched (continue_at e w next).trace a
    → Touched w.trace a ⊎ Touched (next w.rest).trace a
Touched-continue w next done a h = Touched-append w.trace (next w.rest).trace a h
Touched-continue w next waiting a h = inl h
Touched-continue w next (raised e) a h = inl h

-- Address `a` is byte `k` of visible row `r`.
pub record IsVisible (l : Layout) (first rows a : ℕ) : Type 0 where
  pub r : ℕ
  pub k : ℕ
  pub from_first : first ≤ r
  pub row : r < first + rows
  pub column : k < row_bytes
  pub address : a ≡ start l + r * l.stride + k

draw_rows-IsVisible :
    (left row : ℕ) (l : Layout) (pixels : Bytes) (answers : List Answer) (a : ℕ)
    → Touched (draw_rows left row l pixels answers).trace a
    → IsVisible l row left a
unfolding draw_rows
draw_rows-IsVisible zero row l pixels answers a h = absurd h
draw_rows-IsVisible (suc left) row l pixels answers a h =
    elim (Touched-continue here (λ rest. draw_rows left (row + 1) l pixels rest) here.outcome a h) [
      | inl t ↦
          let range = write_all_range piece (start l + row * l.stride) answers a t in
          record {
            r = row;
            k = a - (start l + row * l.stride);
            from_first = omega arith;
            row = omega arith;
            column = omega (
              arith,
              length-take ((row + 1) * row_bytes - row * row_bytes) (drop (row * row_bytes) pixels),
            );
            address = omega (arith, range);
          }
      | inr t ↦
          let v = draw_rows-IsVisible left (row + 1) l pixels here.rest a t in
          record {
            r = v.r;
            k = v.k;
            from_first = omega (arith, v.from_first);
            row = omega (arith, v.row);
            column = v.column;
            address = v.address;
          }
    ]
  where
    piece : Bytes
    piece = slice (row * row_bytes) ((row + 1) * row_bytes) pixels

    here : Writing
    here = write_all piece (start l + row * l.stride) answers

draw_packed-IsVisible :
    (l : Layout) (pixels : Bytes) (answers : List Answer) (a : ℕ)
    → length pixels ≡ height * row_bytes
    → Touched (draw_packed l pixels answers).trace a
    → IsVisible l 0 height a
unfolding draw_packed
draw_packed-IsVisible l pixels answers a size h = elim (Bool-cases (l.stride == row_bytes)) [
  | inl packed ↦
      let range = write_all_range pixels (start l) answers a (rw packed at h) in
      let stride : l.stride ≡ 856 = ground arith in
      record {
        r = (a - start l) / 856;
        k = (a - start l) % 856;
        from_first = omega arith;
        row = omega (arith, range);
        column = omega arith;
        address = omega (arith, range, ap (λ (s : ℕ). (a - start l) / 856 * s) stride);
      }
  | inr strided ↦ draw_rows-IsVisible height 0 l pixels answers a (rw strided at h)
]

pub length-pack_rgb565 :
    (image : Image) (l : Layout) (native byteorder : ByteOrder) (pixels : Bytes)
    → length image.pixels ≡ image.columns * image.rows
    → pack_rgb565 image l native byteorder ≡ ok pixels
    → length pixels ≡ height * row_bytes
unfolding pack_rgb565
length-pack_rgb565 image l native byteorder pixels size h =
    elim (Bool-cases (image.columns == width && image.rows == height)) [
      | inl right ↦
          let same : pixels ≡ pack_pixels l native byteorder image.pixels = ground (arith, right) in
          let w : image.columns ≡ 428 = ground arith in
          let t : image.rows ≡ 142 = ground arith in
          omega (
            arith,
            ap (length {A = ℕ}) same,
            length-pack_pixels l native byteorder image.pixels,
            size,
            ap (λ (c : ℕ). c * image.rows) w,
          )
      | inr wrong ↦ absurd (ground (arith, wrong))
    ]

draw_image-IsVisible :
    (l : Layout) (packed : Result DisplayError Bytes) (answers : List Answer) (a : ℕ)
    → ((pixels : Bytes) → packed ≡ ok pixels → length pixels ≡ height * row_bytes)
    → Touched (draw_image l packed answers).trace a
    → IsVisible l 0 height a
draw_image-IsVisible l (err e) answers a size t = absurd t
draw_image-IsVisible l (ok pixels) answers a size t =
    draw_packed-IsVisible l pixels answers a (size pixels refl) t

draw_checked-IsVisible :
    (f : Framebuffer) (now : Result DisplayError Layout) (packed : Result DisplayError Bytes)
    (answers : List Answer) (a : ℕ)
    → ((pixels : Bytes) → packed ≡ ok pixels → length pixels ≡ height * row_bytes)
    → Touched (draw_checked f now packed answers).trace a
    → IsVisible f.layout 0 height a
draw_checked-IsVisible f (err e) packed answers a size t = absurd t
draw_checked-IsVisible f (ok l) packed answers a size t =
    elim (Bool-cases (same_layout l f.layout)) [
      | inl same ↦ draw_image-IsVisible f.layout packed answers a size (rw same at t)
      | inr changed ↦ absurd (rw changed at t)
    ]

inside : (l : Layout) (a : ℕ) → IsBounded l → IsVisible l 0 height a → a < l.memory_bytes
unfolding start
inside l a b v =
    let split : (l.yoffset + v.r) * l.stride ≡ l.yoffset * l.stride + v.r * l.stride =
      grind arith in
    omega
      (arith, row_in_memory l v.r b v.row, v.address, v.column, split, b.row_fits, b.inside_width)

-- With a layout whose sizes are those of an accepted device, and an image of as many pixels as
-- its size says, whatever the device and the kernel answer: a byte that `draw` writes belongs to
-- one of the 142 visible rows of 856 bytes, and lies inside the memory of the device.
pub draw-IsVisible :
    (f : Framebuffer) (now : Result DisplayError Layout) (image : Image) (native : ByteOrder)
    (answers : List Answer) (a : ℕ)
    → IsBounded f.layout
    → length image.pixels ≡ image.columns * image.rows
    → Touched (draw f now image native answers).trace a
    → IsVisible f.layout 0 height a × (a < f.layout.memory_bytes)
unfolding draw
draw-IsVisible f now image native answers a b size t = elim (Bool-cases f.is_open) [
  | inl is_open ↦
      let v =
        draw_checked-IsVisible f now (pack_rgb565 image f.layout native native) answers a
          (λ pixels e. length-pack_rgb565 image f.layout native native pixels size e)
          (simp is_open at t) in
      (v, inside f.layout a b v)
  | inr shut ↦ absurd (simp shut at t)
]

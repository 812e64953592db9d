-- ===== src/Framebuffer/Draw/Complete.antt =====
-- The bytes that a `draw` which returns has written.
use mathlib.Core.List.{append-nil}
use mathlib.Core.List.{append_assoc}
use edgepi_e87n.Base.{
  ℕ, zero, suc, ◌+◌, ◌-◌, ◌*◌, ◌≡◌, ◌≢◌, inl, inr, refl, sym, ap, ◌∙◌, List, [], ◌∷◌, ◌++◌, ◌==◌,
  length, arith, Bool-cases, take, drop, slice, take-add, drop-drop, take_all, Bytes, Result, ok,
  err,
}
use edgepi_e87n.Framebuffer.{height, Layout, start, DisplayError, closed, mode_changed}
use edgepi_e87n.Framebuffer.Pixels.{Image, ByteOrder, pack_rgb565}
use edgepi_e87n.Framebuffer.Draw.{
  Answer, End, done, waiting, raised, Chunk, Writing, stop, write_all, continue_at, same_layout,
  row_bytes, draw_rows, draw_packed, draw_image, draw_checked, Framebuffer, draw,
}
use edgepi_e87n.Framebuffer.Draw.Progress.{contents, write_all-Writes}
use edgepi_e87n.Framebuffer.Draw.Visible.{length-pack_rgb565}

contents-append : (s t : List Chunk) → contents (s ++ t) ≡ contents s ++ contents t
unfolding contents
contents-append [] t = refl
contents-append (c ∷ s) t =
    ap (λ (r : Bytes). c.bytes ++ r) (contents-append s t)
    ∙ sym (append_assoc c.bytes (contents s) (contents t))

write_all-contents :
    (data' : Bytes) (offset : ℕ) (answers : List Answer)
    → (write_all data' offset answers).outcome ≡ done
    → contents (write_all data' offset answers).trace ≡ data'
write_all-contents data' offset answers h =
    let w = write_all-Writes data' offset answers in
    elim w.whole [
      | inl none_left ↦ sym (
          w.splits
          ∙ ap (λ (r : Bytes). contents (write_all data' offset answers).trace ++ r) none_left
          ∙ append-nil (contents (write_all data' offset answers).trace))
      | inr unfinished ↦ absurd (unfinished h)
    ]

continue_at-done :
    (e : End) (w : Writing) (next : List Answer → Writing)
    → w.outcome ≡ e
    → (continue_at e w next).outcome ≡ done
    → (w.outcome ≡ done)
      × ((next w.rest).outcome ≡ done)
      × ((continue_at e w next).trace ≡ w.trace ++ (next w.rest).trace)
continue_at-done done w next same h = (same, h, refl)
continue_at-done waiting w next same h = absurd (ground (arith, h, same))
continue_at-done (raised x) w next same h = absurd (ground (arith, h, same))

rows_joined :
    (left row : ℕ) (pixels : Bytes)
    → slice (row * row_bytes) ((row + 1) * row_bytes) pixels
        ++ take (left * row_bytes) (drop ((row + 1) * row_bytes) pixels)
      ≡ take (suc left * row_bytes) (drop (row * row_bytes) pixels)
rows_joined left row pixels =
    let rest = drop (row * row_bytes) pixels in
    let size : (row + 1) * row_bytes - row * row_bytes ≡ row_bytes = omega arith in
    let later : drop ((row + 1) * row_bytes) pixels ≡ drop row_bytes rest =
      ap (λ (n : ℕ). drop n pixels) (omega arith)
      ∙ sym (drop-drop (row * row_bytes) row_bytes pixels) in
    ap (λ (n : ℕ). take n rest ++ take (left * row_bytes) (drop ((row + 1) * row_bytes) pixels))
      size
    ∙ ap (λ (r : Bytes). take row_bytes rest ++ take (left * row_bytes) r) later
    ∙ sym (take-add row_bytes (left * row_bytes) rest)
    ∙ ap (λ (n : ℕ). take n rest) (omega arith)

draw_rows-contents :
    (left row : ℕ) (l : Layout) (pixels : Bytes) (answers : List Answer)
    → (draw_rows left row l pixels answers).outcome ≡ done
    → contents (draw_rows left row l pixels answers).trace
      ≡ take (left * row_bytes) (drop (row * row_bytes) pixels)
unfolding draw_rows contents
draw_rows-contents zero row l pixels answers h = refl
draw_rows-contents (suc left) row l pixels answers h =
    let piece = slice (row * row_bytes) ((row + 1) * row_bytes) pixels in
    let here = write_all piece (start l + row * l.stride) answers in
    let (first, rest, trace) =
      continue_at-done here.outcome here (λ r. draw_rows left (row + 1) l pixels r) refl h in
    ap contents trace
    ∙ contents-append here.trace (draw_rows left (row + 1) l pixels here.rest).trace
    ∙ ap (λ (b : Bytes). b ++ contents (draw_rows left (row + 1) l pixels here.rest).trace)
        (write_all-contents piece (start l + row * l.stride) answers first)
    ∙ ap (λ (b : Bytes). piece ++ b) (draw_rows-contents left (row + 1) l pixels here.rest rest)
    ∙ rows_joined left row pixels

draw_packed-contents :
    (l : Layout) (pixels : Bytes) (answers : List Answer)
    → length pixels ≡ height * row_bytes
    → (draw_packed l pixels answers).outcome ≡ done
    → contents (draw_packed l pixels answers).trace ≡ pixels
unfolding draw_packed
draw_packed-contents l pixels answers size h = elim (Bool-cases (l.stride == row_bytes)) [
  | inl packed ↦ rw packed (write_all-contents pixels (start l) answers (rw packed at h))
  | inr strided ↦ rw strided (
      draw_rows-contents height 0 l pixels answers (rw strided at h)
      ∙ take_all (height * row_bytes) pixels (omega (arith, size)))
]

draw_image-contents :
    (l : Layout) (packed : Result DisplayError Bytes) (answers : List Answer)
    → ((pixels : Bytes) → packed ≡ ok pixels → length pixels ≡ height * row_bytes)
    → (draw_image l packed answers).outcome ≡ done
    → (pixels : Bytes) × (packed ≡ ok pixels)
      × (contents (draw_image l packed answers).trace ≡ pixels)
draw_image-contents l (err e) answers size h = cc
draw_image-contents l (ok pixels) answers size h =
    (pixels, refl, draw_packed-contents l pixels answers (size pixels refl) h)

draw_checked-contents :
    (f : Framebuffer) (now : Result DisplayError Layout) (packed : Result DisplayError Bytes)
    (answers : List Answer)
    → ((pixels : Bytes) → packed ≡ ok pixels → length pixels ≡ height * row_bytes)
    → (draw_checked f now packed answers).outcome ≡ done
    → (pixels : Bytes) × (packed ≡ ok pixels)
      × (contents (draw_checked f now packed answers).trace ≡ pixels)
draw_checked-contents f (err e) packed answers size h = cc
draw_checked-contents f (ok l) packed answers size h = elim (Bool-cases (same_layout l f.layout)) [
  | inl same ↦ rw same (draw_image-contents f.layout packed answers size (rw same at h))
  | inr changed ↦ absurd (ended (rw changed at h))
]
  where
    ended : (stop answers (raised mode_changed)).outcome ≢ done
    ended k = cc

-- A `draw` that returns, of an image of as many pixels as its size says, has handed the device
-- the packed image: all of its bytes, in order, once, whether the rows follow each other in
-- memory or not, and however the kernel splits the writes.
pub draw-contents :
    (f : Framebuffer) (now : Result DisplayError Layout) (image : Image) (native : ByteOrder)
    (answers : List Answer)
    → length image.pixels ≡ image.columns * image.rows
    → (draw f now image native answers).outcome ≡ done
    → (pixels : Bytes) × (pack_rgb565 image f.layout native native ≡ ok pixels)
      × (contents (draw f now image native answers).trace ≡ pixels)
unfolding draw
draw-contents f now image native answers size h = elim (Bool-cases f.is_open) [
  | inl is_open ↦ simp is_open (
      draw_checked-contents f now (pack_rgb565 image f.layout native native) answers
        (λ pixels e. length-pack_rgb565 image f.layout native native pixels size e)
        (simp is_open at h))
  | inr shut ↦ absurd (ended (simp shut at h))
]
  where
    ended : (stop answers (raised closed)).outcome ≢ done
    ended k = cc

-- ===== src/Framebuffer/Draw.antt =====
-- `_write_all` and `draw` of the class `Framebuffer` in board-support/e87n/display.py. The answers of
-- the kernel to the `pwrite` calls are a list; `waiting` means that the list ended within a call.
pub mod Progress
pub mod Visible
pub mod Complete
use edgepi_e87n.Base.{
  ℕ, zero, suc, ◌+◌, ◌*◌, Bool, true, false, not, ◌&&◌, List, [], ◌∷◌, ◌++◌, leb, ◌==◌,
  if◌then◌else◌, length, take, drop, slice, Bytes, Result, ok, err,
}
use edgepi_e87n.Framebuffer.{
  width, height, Layout, start, DisplayError, closed, mode_changed, bad_progress, io_error,
}
use edgepi_e87n.Framebuffer.Pixels.{Image, ByteOrder, pack_rgb565}

-- InterruptedError, the number of bytes taken, or any other OSError.
pub data Answer : Type 0 where
  interrupted : Answer
  written : ℕ → Answer
  failed : Answer

pub data End : Type 0 where
  done waiting : End
  raised : DisplayError → End

-- Bytes that the device took, and where.
pub record Chunk : Type 0 where
  pub offset : ℕ
  pub bytes : Bytes

pub record Writing : Type 0 where
  pub trace : List Chunk
  pub rest : List Answer
  pub outcome : End

abbrev pub stop : List Answer → End → Writing
stop rest outcome = record { trace = []; rest = rest; outcome = outcome }

abbrev pub taken : ℕ → Bytes → Writing → Writing
taken offset bytes w = record w { trace = record { offset = offset; bytes = bytes } ∷ w.trace }

unfoldable pub write_all : Bytes → ℕ → List Answer → Writing
write_all [] offset answers = stop answers done
write_all (b ∷ bs) offset [] = stop [] waiting
write_all (b ∷ bs) offset (interrupted ∷ answers) = write_all (b ∷ bs) offset answers
write_all (b ∷ bs) offset (failed ∷ answers) = stop answers (raised io_error)
write_all (b ∷ bs) offset (written n ∷ answers) =
    let more = write_all (drop n (b ∷ bs)) (offset + n) answers in
    if leb 1 n && leb n (length (b ∷ bs))
    then taken offset (take n (b ∷ bs)) more
    else stop answers (raised bad_progress)

-- What follows a call that returned.
abbrev pub joined : Writing → Writing → Writing
joined w next = record { trace = w.trace ++ next.trace; rest = next.rest; outcome = next.outcome }

abbrev pub continue_at : End → Writing → (List Answer → Writing) → Writing
continue_at done w next = joined w (next w.rest)
continue_at waiting w next = w
continue_at (raised e) w next = w

abbrev pub continue : Writing → (List Answer → Writing) → Writing
continue w next = continue_at w.outcome w next

abbrev pub row_bytes : ℕ
row_bytes = width * 2

-- for row in range(HEIGHT), with the rows left and the row
unfoldable pub draw_rows : ℕ → ℕ → Layout → Bytes → List Answer → Writing
draw_rows zero row l pixels answers = stop answers done
draw_rows (suc left) row l pixels answers =
    continue
      (write_all (slice (row * row_bytes) ((row + 1) * row_bytes) pixels) (start l + row * l.stride)
        answers)
      (λ rest. draw_rows left (row + 1) l pixels rest)

abbrev pub same_layout : Layout → Layout → Bool
same_layout a b =
    a.stride == b.stride
    && a.xoffset == b.xoffset
    && a.yoffset == b.yoffset
    && a.virtual_width == b.virtual_width
    && a.virtual_height == b.virtual_height
    && a.memory_bytes == b.memory_bytes
    && a.red_offset == b.red_offset
    && a.green_offset == b.green_offset
    && a.blue_offset == b.blue_offset

pub record Framebuffer : Type 0 where
  pub is_open : Bool
  pub layout : Layout

unfoldable pub draw_packed : Layout → Bytes → List Answer → Writing
draw_packed l pixels answers =
    if l.stride == row_bytes
    then write_all pixels (start l) answers
    else draw_rows height 0 l pixels answers

abbrev pub draw_image : Layout → Result DisplayError Bytes → List Answer → Writing
draw_image l (err e) answers = stop answers (raised e)
draw_image l (ok pixels) answers = draw_packed l pixels answers

abbrev pub draw_checked :
    Framebuffer → Result DisplayError Layout → Result DisplayError Bytes → List Answer → Writing
draw_checked f (err e) packed answers = stop answers (raised e)
draw_checked f (ok now) packed answers =
    if not (same_layout now f.layout)
    then stop answers (raised mode_changed)
    else draw_image f.layout packed answers

-- `now` is what `_read_layout` ends with.
unfoldable pub draw :
    Framebuffer → Result DisplayError Layout → Image → ByteOrder → List Answer → Writing
draw f now image native answers =
    if not f.is_open
    then stop answers (raised closed)
    else draw_checked f now (pack_rgb565 image f.layout native native) answers

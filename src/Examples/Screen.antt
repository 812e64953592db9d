-- ===== src/Examples/Screen.antt =====
-- The panel of the board: 428 by 142 pixels in RGB565, rows of 856 bytes, and a short rotation.
use edgepi_e87n.Base.{
  ℕ, zero, suc, ◌+◌, ◌*◌, ◌/◌, ◌^◌, ◌%◌, ◌≤◌, ◌<◌, ◌≡◌, ◌≢◌, ◌⊎◌, inl, refl, Bool, true, false,
  ◌&&◌, leb, le→leb, if◌then◌else◌, String, List, [], ◌∷◌, some, Bytes, codes, length, distinct, ok,
  arith,
}
use edgepi_e87n.Framebuffer.{
  Bitfield, FixInfo, VarInfo, Layout, bad_progress, start, height, add_field, check_fields,
  check_format, check_memory, validate_framebuffer,
}
use edgepi_e87n.Framebuffer.Bounds.{IsBounded, validate_framebuffer-IsBounded}
use edgepi_e87n.Framebuffer.Lanes.{is_packing}
use edgepi_e87n.Framebuffer.Pixels.{
  Rgb, Image, little, pack_pixel, pack_pixels, pixel_bytes, pack_rgb565,
}
use edgepi_e87n.Framebuffer.Pixels.Lossless.{IsRgb, pack_pixel_lossless}
use edgepi_e87n.Framebuffer.Draw.{
  Answer, interrupted, written, failed, Writing, raised, stop, taken, write_all, Framebuffer, draw,
  draw_packed,
}
use edgepi_e87n.Framebuffer.Draw.Complete.{draw-contents}
use edgepi_e87n.Framebuffer.Draw.{done}
use edgepi_e87n.Base.{drop, length-drop}
use edgepi_e87n.Framebuffer.Pixels.Lossless.{length-pack_pixels}
use edgepi_e87n.Framebuffer.Draw.Progress.{contents, Writes, write_all-Writes, count_written}
use edgepi_e87n.Framebuffer.Draw.Visible.{Touched, IsVisible, draw-IsVisible}
use edgepi_e87n.Daemon.{
  Settings, Presence, Daemon, is_available, keep_available, available_pages, daemon_pages,
  identity_of, turn,
}
use edgepi_e87n.Daemon.Pages.{Offered, daemon_pages-Offered}
use edgepi_e87n.Daemon.Step.{Shows, Due, turn-Shows}
use edgepi_e87n.Daemon.Rotation.{At, turns, turns_cycle}

abbrev bits : ℕ → ℕ → Bitfield
bits length offset = record { offset = offset; length = length; msb_right = 0 }

abbrev fix : FixInfo
fix = record {
  id = codes "fb_nv3007";
  kind = 0;
  type_aux = 0;
  visual = 2;
  line_length = 856;
  smem_len = 121552;
}

abbrev var : VarInfo
var = record {
  xres = 428;
  yres = 142;
  xres_virtual = 428;
  yres_virtual = 142;
  xoffset = 0;
  yoffset = 0;
  bits_per_pixel = 16;
  grayscale = 0;
  red = bits 5 11;
  green = bits 6 5;
  blue = bits 5 0;
  transp = bits 0 0;
  nonstd = 0;
  vmode = 0;
}

abbrev layout : Layout
layout = record {
  stride = 856;
  xoffset = 0;
  yoffset = 0;
  virtual_width = 428;
  virtual_height = 142;
  memory_bytes = 121552;
  red_offset = 11;
  green_offset = 5;
  blue_offset = 0;
}

accepted : validate_framebuffer fix var ≡ ok layout
unfolding validate_framebuffer check_format check_fields check_memory add_field
accepted = refl

validate_framebuffer-IsBounded_example : IsBounded layout
validate_framebuffer-IsBounded_example = validate_framebuffer-IsBounded fix var layout accepted

bounded : IsBounded layout
bounded = validate_framebuffer-IsBounded fix var layout accepted

packing : is_packing 11 5 0 ≡ true
unfolding is_packing
packing = refl

abbrev orange : Rgb
orange = record { r = 255; g = 128; b = 8 }

orange-IsRgb : IsRgb orange
orange-IsRgb = record { r = omega arith; g = omega arith; b = omega arith }

pack_pixel_lossless_example :
    (pack_pixel layout orange < 65536)
    × (pack_pixel layout orange / 2 ^ 11 % 32 ≡ 255 / 8)
    × (pack_pixel layout orange / 2 ^ 5 % 64 ≡ 128 / 4)
    × (pack_pixel layout orange / 2 ^ 0 % 32 ≡ 8 / 8)
pack_pixel_lossless_example = pack_pixel_lossless layout orange packing orange-IsRgb

abbrev sent : Bytes
sent = 10 ∷ 20 ∷ 30 ∷ []

abbrev answers : List Answer
answers = written 2 ∷ interrupted ∷ written 1 ∷ written 1 ∷ []

write_all-Writes_example : Writes sent 4 (write_all sent 4 answers)
write_all-Writes_example = write_all-Writes sent 4 answers

enough : 3 ≤ count_written answers
unfolding count_written
enough = omega arith

-- a screen of one colour
copies : ℕ → Rgb → List Rgb
copies zero p = []
copies (suc n) p = p ∷ copies n p

length-copies : (n : ℕ) (p : Rgb) → length (copies n p) ≡ n
unfolding copies
length-copies zero p = refl
length-copies (suc n) p = omega (arith, length-copies n p)

abbrev plain : Image
plain = record { columns = 428; rows = 142; pixels = orange ∷ copies 60775 orange }

plain_size : length plain.pixels ≡ 428 * 142
plain_size = omega (arith, length-copies 60775 orange)

abbrev panel : Framebuffer
panel = record { is_open = true; layout = layout }

abbrev drawn : Writing
drawn = draw panel (ok layout) plain little (written 2 ∷ failed ∷ [])

chosen :
    (test : Bool) (then_w else_w : Writing)
    → test ≡ true
    → Touched then_w.trace 0
    → Touched (if test then then_w else else_w).trace 0
chosen true a b h t = t
chosen false a b h t = absurd cc

two-le : (n : ℕ) → leb 2 (suc (suc n)) ≡ true
two-le n = le→leb 2 (suc (suc n)) (omega arith)

first_byte : Touched drawn.trace 0
unfolding draw draw_packed pack_rgb565 pack_pixels pack_pixel pixel_bytes write_all start
first_byte =
    let later = pack_pixels layout little little (copies 60775 orange) in
    chosen (leb 2 (suc (suc (length later))))
      (taken 0 (1 ∷ 252 ∷ []) (write_all later 2 (failed ∷ [])))
      (stop (failed ∷ []) (raised bad_progress)) (two-le (length later))
      (inl (omega arith, omega arith))

draw-IsVisible_example : IsVisible layout 0 height 0 × (0 < 121552)
draw-IsVisible_example =
    draw-IsVisible panel (ok layout) plain little (written 2 ∷ failed ∷ []) 0 bounded plain_size
      first_byte

empty_of : (bs : Bytes) → length bs ≡ 0 → bs ≡ []
empty_of [] h = refl
empty_of (b ∷ bs) h = absurd (omega (arith, h))

-- one answer takes everything
written_whole :
    (data' : Bytes) (offset n : ℕ)
    → length data' ≡ n
    → 1 ≤ n
    → (write_all data' offset (written n ∷ [])).outcome ≡ done
unfolding write_all
written_whole [] offset n size some_bytes = refl
written_whole (b ∷ bs) offset n size some_bytes =
    let good : (leb 1 n && leb n (length (b ∷ bs))) ≡ true = ground (arith, size, some_bytes) in
    let nothing : drop n (b ∷ bs) ≡ [] = empty_of _ (omega (arith, length-drop n (b ∷ bs), size)) in
    rw (good, nothing) refl

abbrev once : List Answer
once = written 121552 ∷ []

drawn_whole : (draw panel (ok layout) plain little once).outcome ≡ done
unfolding draw draw_packed pack_rgb565
drawn_whole =
    written_whole (pack_pixels layout little little plain.pixels) (start layout) 121552
      (omega (arith, length-pack_pixels layout little little plain.pixels, plain_size))
      (omega arith)

draw-contents_example :
    (pixels : Bytes) × (pack_rgb565 plain layout little little ≡ ok pixels)
    × (contents (draw panel (ok layout) plain little once).trace ≡ pixels)
draw-contents_example = draw-contents panel (ok layout) plain little once plain_size drawn_whole

abbrev settings : Settings
settings = record {
  enabled = true;
  screen = "cpu";
  refresh_seconds = 2;
  theme = "dark";
  rotation_enabled = true;
  rotation_seconds = 3;
  rotation_screens = "cpu" ∷ "fan" ∷ "storage" ∷ [];
}

abbrev presence : Presence
presence = record {
  cpu = true;
  memory = true;
  thermal = true;
  fan = false;
  network = true;
  traffic = true;
  storage = true;
}

-- page "cpu" is on since 1000 ms
abbrev running : Daemon
running = record { active = some "cpu"; identity = some (identity_of settings); deadline = 4000 }

screens_listed : settings.rotation_screens ≢ []
screens_listed h = ground arith

turn-Shows_example :
    (new : Daemon) × (page : String) × (turn settings (some presence) 4500 running ≡ ok new)
    × Shows (daemon_pages settings (some presence)) page new
    × ((settings.rotation_enabled ≡ false) ⊎ Due settings 4500 running new)
turn-Shows_example = turn-Shows settings (some presence) 4500 running screens_listed

pages_distinct : distinct (daemon_pages settings (some presence)) ≡ true
unfolding daemon_pages available_pages keep_available is_available
pages_distinct = refl

At-cpu : At settings (daemon_pages settings (some presence)) 0 running
unfolding daemon_pages available_pages keep_available is_available
At-cpu = record { identity = refl; page = "cpu"; found = refl; active = refl }

some_page : 0 < length (daemon_pages settings (some presence))
unfolding daemon_pages available_pages keep_available is_available
some_page = omega arith

turns_cycle_example :
    (new : Daemon) × (turns settings (some presence) (4500 ∷ 7600 ∷ []) running ≡ ok new)
    × At settings
        (daemon_pages settings (some presence))
        ((0 + 2) % length (daemon_pages settings (some presence)))
        new
turns_cycle_example =
    turns_cycle settings (some presence) refl pages_distinct (4500 ∷ 7600 ∷ []) 0 running At-cpu
      some_page (omega arith, (omega arith, tt))

daemon_pages-Offered_example :
    Offered settings (some presence) (daemon_pages settings (some presence))
daemon_pages-Offered_example = daemon_pages-Offered settings (some presence)

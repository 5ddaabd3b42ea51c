-- ===== src/Bootvid.antt =====
-- boot/bootvid/bootvid.c: the graphics of the boot loader in mode 13h, 320 x 200 pixels of one byte
-- each, and the palette. The BIOS calls that read and set the mode are a parameter; a write of an index
-- and of three components to the ports of the palette sets that entry. Coordinates and sizes are whole
-- numbers: the sums of them that the loops form have to fit into an int.
pub mod Rect
pub mod Fade
mod Tests
use system_operative_edit.Base.{
  ℕ, zero, suc, ◌+◌, ◌-◌, ◌*◌, ◌/◌, ◌%◌, ◌^◌, ◌≤◌, ◌<◌, min, max, bit_and, bit_or, bit_xor, ◌≡◌,
  refl, sym, ap, ◌∙◌, fun_ext, ◌≢◌, ◌↔◌, ◌⊎◌, inl, inr, Bool, true, false, not, ◌&&◌, ◌||◌, Option,
  none, some, List, [], ◌∷◌, ◌++◌, map, arith, ltb, leb, ◌==◌, if◌then◌else◌, Bool-cases,
  Option-cases, ltb→lt, lt→ltb, leb→le, ==_iff, add32, sub32, update, length, get_elem?, get_or,
  last_from, length-append, last_from-append, has, Distinct, has-append, Distinct-append,
}
use system_operative_edit.Base.Int.{ℤ, pos, negsuc, ◌+ℤ◌, ◌-ℤ◌}

abbrev pub vga_width : ℕ
vga_width = 320

abbrev pub vga_height : ℕ
vga_height = 200

abbrev pub vga_mode_13h : ℕ
vga_mode_13h = 0x13

-- An entry of the palette.
pub record Rgb : Type 0 where
  pub r : ℕ
  pub g : ℕ
  pub b : ℕ

-- `graphics_mode_active` and `saved_mode`, the bytes from 0xA0000 on, and the palette.
pub record Display : Type 0 where
  pub active : Bool
  pub saved_mode : ℕ
  pub memory : ℕ → ℕ
  pub palette : ℕ → Rgb

-- The two calls of the BIOS, on its own state.
pub record VideoBios (W : Type 0) : Type 0 where
  pub set_mode : ℕ → W → W
  pub get_mode : W → ℕ

unfoldable pub initialize : {W : Type 0} → VideoBios W → Display × W → Bool × (Display × W)
initialize bios (d, w) =
    let saved = record d { saved_mode = bios.get_mode w } in
    let v = bios.set_mode vga_mode_13h w in
    if bios.get_mode v == vga_mode_13h
    then (true, (record saved { active = true }, v))
    else (false, (saved, v))

unfoldable pub reset_display : {W : Type 0} → VideoBios W → Display × W → Display × W
reset_display bios (d, w) =
    if d.active then (record d { active = false }, bios.set_mode d.saved_mode w) else (d, w)

-- The loop of `BootVidClearScreen`.
unfoldable pub clear_pixels : (r i color : ℕ) → (ℕ → ℕ) → ℕ → ℕ
clear_pixels zero i color m = m
clear_pixels (suc r) i color m = clear_pixels r (i + 1) color (update m i color)

unfoldable pub clear_display : (color : ℕ) → Display → Display
clear_display color d =
    if d.active
    then record d { memory = clear_pixels (vga_width * vga_height) 0 color d.memory }
    else d

unfoldable pub set_pixel : (x y : ℤ) → (color : ℕ) → Display → Display
set_pixel (negsuc x) y color d = d
set_pixel (pos x) (negsuc y) color d = d
set_pixel (pos x) (pos y) color d =
    if d.active
    then (if leb vga_width x || leb vga_height y
        then d
        else record d { memory = update d.memory (y * vga_width + x) color })
    else d

-- The loops over the columns from `dx` on, and over the rows from `dy` on.
unfoldable pub rect_cols : (r dx : ℕ) → (x yy : ℤ) → (color : ℕ) → Display → Display
rect_cols zero dx x yy color d = d
rect_cols (suc r) dx x yy color d =
    rect_cols r (dx + 1) x yy color (set_pixel (x +ℤ pos dx) yy color d)

unfoldable pub rect_rows : (r dy width : ℕ) → (x y : ℤ) → (color : ℕ) → Display → Display
rect_rows zero dy width x y color d = d
rect_rows (suc r) dy width x y color d =
    rect_rows r (dy + 1) width x y color (rect_cols width 0 x (y +ℤ pos dy) color d)

-- A width or height that is not positive gives no rounds.
abbrev pub rounds : ℤ → ℕ
rounds (pos n) = n
rounds (negsuc n) = 0

unfoldable pub draw_rect : (x y width height : ℤ) → (color : ℕ) → Display → Display
draw_rect x y width height color d =
    if d.active then rect_rows (rounds height) 0 (rounds width) x y color d else d

-- The loops of the outline: `r` columns of the upper and lower line from `dx` on, then `r` rows of the
-- left and right line from `dy` on.
unfoldable pub outline_cols : (r dx : ℕ) → (x y height : ℤ) → (color : ℕ) → Display → Display
outline_cols zero dx x y height color d = d
outline_cols (suc r) dx x y height color d =
    outline_cols r (dx + 1) x y height color
      (set_pixel (x +ℤ pos dx) (y +ℤ height -ℤ pos 1) color (set_pixel (x +ℤ pos dx) y color d))

unfoldable pub outline_rows : (r dy : ℕ) → (x y width : ℤ) → (color : ℕ) → Display → Display
outline_rows zero dy x y width color d = d
outline_rows (suc r) dy x y width color d =
    outline_rows r (dy + 1) x y width color
      (set_pixel (x +ℤ width -ℤ pos 1) (y +ℤ pos dy) color (set_pixel x (y +ℤ pos dy) color d))

unfoldable pub draw_rect_outline : (x y width height : ℤ) → (color : ℕ) → Display → Display
draw_rect_outline x y width height color d =
    if d.active
    then outline_rows (rounds height) 0 x y width color
        (outline_cols (rounds width) 0 x y height color d)
    else d

unfoldable pub set_palette_color : (index : ℕ) → Rgb → Display → Display
set_palette_color index c d =
    if d.active then record d { palette = update d.palette (index % 256) c } else d

abbrev pub rgb : (r g b : ℕ) → Rgb
rgb r g b = record { r = r; g = g; b = b }

unfoldable pub initialize_palette : Display → Display
initialize_palette d =
    let d0 = set_palette_color 0 (rgb 0 0 0) d in
    let d1 = set_palette_color 1 (rgb 0 0 42) d0 in
    let d2 = set_palette_color 2 (rgb 0 25 63) d1 in
    let d3 = set_palette_color 3 (rgb 63 63 0) d2 in
    let d4 = set_palette_color 4 (rgb 63 63 42) d3 in
    let d15 = set_palette_color 15 (rgb 63 63 63) d4 in
    let d7 = set_palette_color 7 (rgb 42 42 42) d15 in
    let d8 = set_palette_color 8 (rgb 21 21 21) d7 in set_palette_color 10 (rgb 0 63 0) d8

-- A colour in step `step` of `steps`, on the way in or out.
abbrev pub faded : (fade_in : Bool) → (step steps : ℕ) → Rgb → Rgb
faded fade_in step steps c =
    let k = if fade_in then step else steps - step in
    rgb (c.r * k / steps) (c.g * k / steps) (c.b * k / steps)

-- The loop over the entries from `i` on that sets each to what `f` makes of the saved one.
unfoldable pub set_colors : (r i : ℕ) → (f : Rgb → Rgb) → (saved : ℕ → Rgb) → Display → Display
set_colors zero i f saved d = d
set_colors (suc r) i f saved d = set_colors r (i + 1) f saved (set_palette_color i (f (saved i)) d)

-- The steps from `step` on. The delay is left out.
unfoldable pub fade_steps :
    (r step steps : ℕ) → (fade_in : Bool) → (saved : ℕ → Rgb) → Display → Display
fade_steps zero step steps fade_in saved d = d
fade_steps (suc r) step steps fade_in saved d =
    fade_steps r (step + 1) steps fade_in saved
      (set_colors 256 0 (faded fade_in step steps) saved d)

unfoldable pub fade_screen : (fade_in : Bool) → (steps : ℕ) → Display → Display
fade_screen fade_in steps d =
    let w = fade_steps steps 0 steps fade_in d.palette d in
    if d.active then (if fade_in then set_colors 256 0 (λ c. c) d.palette w else w) else d

-- ===== src/Vga.antt =====
-- drivers/video/vga/vga_screen.c: the 640 x 480 screen of the VGA driver in its graphics mode, with
-- the four planes of the video memory and the copy of the picture in `g_shadow`. A coordinate is an
-- integer, as an INT without overflow; a byte of a plane is found by its offset from `FrameBuffer`, a
-- 32-bit word. The debugging output is left out.
pub mod Pixel
pub mod Runs
pub mod Show
pub mod Fill
pub mod Box
pub mod Text
pub mod Cursor
pub mod Line
mod Tests
use system_operative_edit.Base.{
  ℕ, zero, suc, ◌+◌, ◌-◌, ◌*◌, ◌/◌, ◌%◌, ◌^◌, ◌≤◌, ◌<◌, min, max, bit_and, bit_or, bit_xor, ◌≡◌,
  refl, sym, ap, ◌∙◌, fun_ext, ◌≢◌, ◌↔◌, ◌⊎◌, inl, inr, Bool, true, false, not, ◌&&◌, ◌||◌, Option,
  none, some, List, [], ◌∷◌, ◌++◌, map, arith, ltb, leb, ◌==◌, if◌then◌else◌, Bool-cases,
  Option-cases, ltb→lt, lt→ltb, leb→le, ==_iff, add32, sub32, update, length, get_elem?, get_or,
  last_from, length-append, last_from-append, has, Distinct, has-append, Distinct-append,
}
use system_operative_edit.Base.Bits.{bit_at}
use system_operative_edit.Base.Int.{pos_part, ℤ, pos, negsuc, ◌+ℤ◌, ◌-ℤ◌, ltb_ℤ}

abbrev pub shadow_w : ℕ
shadow_w = 640

abbrev pub shadow_h : ℕ
shadow_h = 480

-- `ready`: the device is there, with its extension, and in graphics mode. `map_mask` is register 2 of
-- the sequencer, which selects the planes that a write to the video memory changes.
pub record Vga : Type 0 where
  pub ready : Bool
  pub screen_width : ℕ
  pub screen_height : ℕ
  pub map_mask : ℕ
  pub planes : ℕ → ℕ → ℕ
  pub shadow : ℕ → ℕ

-- `VgaWriteSequencer(2, value)`
unfoldable pub write_mask : ℕ → Vga → Vga
write_mask value s = record s { map_mask = value }

-- `FrameBuffer[off] = value`
unfoldable pub write_byte : (off value : ℕ) → Vga → Vga
write_byte off value s = record s {
  planes = λ p i. if i == off && bit_at s.map_mask p == 1 then value else s.planes p i;
}

unfoldable pub get_pixel : (x y : ℤ) → Vga → ℕ
get_pixel (negsuc x) y s = 0
get_pixel (pos x) (negsuc y) s = 0
get_pixel (pos x) (pos y) s =
    if leb shadow_w x || leb shadow_h y then 0 else s.shadow (y * shadow_w + x)

-- `col & (1 << p)` as a test.
abbrev pub has_bit : (col p : ℕ) → Bool
has_bit col p = not (bit_and col (2 ^ p) == 0)

-- The loop that rebuilds the byte of plane `p` from `g_shadow`: `r` pixels from `b` on.
unfoldable pub rebuild : (r b base_x y p : ℕ) → (ℕ → ℕ) → (plane_value : ℕ) → ℕ
rebuild zero b base_x y p shadow plane_value = plane_value
rebuild (suc r) b base_x y p shadow plane_value =
    let px = base_x + b in
    rebuild r (b + 1) base_x y p shadow (
      if leb shadow_w px
      then plane_value
      else if has_bit (shadow (y * shadow_w + px)) p
      then bit_or plane_value (0x80 / 2 ^ b)
      else plane_value)

-- The loop over the planes in `VgaPutPixel`.
unfoldable pub plot_planes : (r p x y off : ℕ) → Vga → Vga
plot_planes zero p x y off s = s
plot_planes (suc r) p x y off s =
    plot_planes r (p + 1) x y off
      (write_byte off (rebuild 8 0 (x / 8 * 8) y p s.shadow 0) (write_mask (2 ^ p) s))

-- `VgaPutPixel` after its guards.
unfoldable pub plot : (x y color : ℕ) → Vga → Vga
plot x y color s =
    let painted = record s { shadow = update s.shadow (y * shadow_w + x) color } in
    write_mask 0x0F (plot_planes 4 0 x y (y * (s.screen_width / 8) + x / 8) painted)

unfoldable pub put_pixel : (x y : ℤ) → (color : ℕ) → Vga → Vga
put_pixel (negsuc x) y color s = s
put_pixel (pos x) (negsuc y) color s = s
put_pixel (pos x) (pos y) color s =
    if s.ready && (ltb x s.screen_width && ltb y s.screen_height) then plot x y color s else s

-- The byte of plane `p` with the bit of a colour in every pixel.
abbrev pub fill_value : (color p : ℕ) → ℕ
fill_value color p = if has_bit color p then 0xFF else 0

-- The writes of `value` to `r` bytes from `off` on.
unfoldable pub write_run : (r off value : ℕ) → Vga → Vga
write_run zero off value s = s
write_run (suc r) off value s = write_run r ((off + 1) % 2 ^ 32) value (write_byte off value s)

-- The loop over the planes that writes `n` bytes from `off` on in each.
unfoldable pub run_planes : (r p n off color : ℕ) → Vga → Vga
run_planes zero p n off color s = s
run_planes (suc r) p n off color s =
    run_planes r (p + 1) n off color (write_run n off (fill_value color p) (write_mask (2 ^ p) s))

-- The loop that sets `r` items of `g_shadow` from `i` on.
unfoldable pub fill_shadow : (r i color : ℕ) → (ℕ → ℕ) → ℕ → ℕ
fill_shadow zero i color shadow = shadow
fill_shadow (suc r) i color shadow = fill_shadow r (i + 1) color (update shadow i color)

unfoldable pub vga_clear_screen : (color : ℕ) → Vga → Vga
vga_clear_screen color s =
    if s.ready
    then (let size = s.screen_height * (s.screen_width / 8) in
        let w = write_mask 0x0F (run_planes 4 0 size 0 color s) in
        record w { shadow = fill_shadow (shadow_w * shadow_h) 0 color w.shadow })
    else s

-- One item of `g_shadow` in `VgaFillRect`, if it is on the screen.
unfoldable pub paint : (x y : ℤ) → (color : ℕ) → (ℕ → ℕ) → ℕ → ℕ
paint (negsuc x) y color shadow = shadow
paint (pos x) (negsuc y) color shadow = shadow
paint (pos x) (pos y) color shadow =
    if leb shadow_w x || leb shadow_h y then shadow else update shadow (y * shadow_w + x) color

-- The loops over the columns from `col` on, and over the rows from `row` on.
unfoldable pub paint_cols : (r col : ℕ) → (x yy : ℤ) → (color : ℕ) → (ℕ → ℕ) → ℕ → ℕ
paint_cols zero col x yy color shadow = shadow
paint_cols (suc r) col x yy color shadow =
    paint_cols r (col + 1) x yy color (paint (x +ℤ pos col) yy color shadow)

unfoldable pub paint_rows : (r row width : ℕ) → (x y : ℤ) → (color : ℕ) → (ℕ → ℕ) → ℕ → ℕ
paint_rows zero row width x y color shadow = shadow
paint_rows (suc r) row width x y color shadow =
    paint_rows r (row + 1) width x y color (paint_cols width 0 x (y +ℤ pos row) color shadow)

-- `start & 7`
abbrev pub low_bits : ℤ → ℕ
low_bits (pos n) = n % 8
low_bits (negsuc n) = 7 - n % 8

-- The offset of the byte of pixel `start` in row `yy`; `start` is a multiple of 8.
unfoldable pub byte_offset : (start : ℤ) → (yy bytes_per_row : ℕ) → ℕ
byte_offset (pos n) yy bytes_per_row = (yy * bytes_per_row + n / 8) % 2 ^ 32
byte_offset (negsuc n) yy bytes_per_row = sub32 (yy * bytes_per_row) (suc n / 8)

-- The pixels before the first whole byte: `start`, and the screen. The loop makes at most as many
-- rounds as the rectangle is wide.
unfoldable pub fill_head : (r : ℕ) → (start end : ℤ) → (yy color : ℕ) → Vga → ℤ × Vga
fill_head zero start end yy color s = (start, s)
fill_head (suc r) start end yy color s =
    let rest = fill_head r (start +ℤ pos 1) end yy color (put_pixel start (pos yy) color s) in
    if ltb_ℤ start end && not (low_bits start == 0) then rest else (start, s)

-- The whole bytes.
unfoldable pub fill_blocks : (start end : ℤ) → (yy color : ℕ) → Vga → ℤ × Vga
fill_blocks start end yy color s =
    let full_bytes = pos_part (end -ℤ start) / 8 in
    if ltb_ℤ end (start +ℤ pos 8) then (start, s) else (
      start +ℤ pos (full_bytes * 8),
      write_mask 0x0F
          (run_planes 4 0 full_bytes (byte_offset start yy (s.screen_width / 8)) color s),
    )

-- The pixels after the last whole byte.
unfoldable pub fill_tail : (r : ℕ) → (start end : ℤ) → (yy color : ℕ) → Vga → Vga
fill_tail zero start end yy color s = s
fill_tail (suc r) start end yy color s =
    let rest = fill_tail r (start +ℤ pos 1) end yy color (put_pixel start (pos yy) color s) in
    if ltb_ℤ start end then rest else s

-- One row of the rectangle.
unfoldable pub fill_row : (x : ℤ) → (width yy color : ℕ) → Vga → Vga
fill_row x width yy color s =
    let end = x +ℤ pos width in
    let (a, s1) = fill_head width x end yy color s in
    let (b, s2) = fill_blocks a end yy color s1 in fill_tail width b end yy color s2

-- A row that is not on the screen is skipped.
unfoldable pub fill_row_at : (x yy : ℤ) → (width color : ℕ) → Vga → Vga
fill_row_at x (negsuc yy) width color s = s
fill_row_at x (pos yy) width color s =
    if leb s.screen_height yy then s else fill_row x width yy color s

unfoldable pub fill_rows : (r row : ℕ) → (x y : ℤ) → (width color : ℕ) → Vga → Vga
fill_rows zero row x y width color s = s
fill_rows (suc r) row x y width color s =
    fill_rows r (row + 1) x y width color (fill_row_at x (y +ℤ pos row) width color s)

unfoldable pub fill_rect : (x y width height : ℤ) → (color : ℕ) → Vga → Vga
fill_rect x y (negsuc width) height color s = s
fill_rect x y (pos width) (negsuc height) color s = s
fill_rect x y (pos width) (pos height) color s =
    if width == 0 || height == 0
    then s
    else (let w = record s { shadow = paint_rows height 0 width x y color s.shadow } in
        if w.ready then fill_rows height 0 x y width color w else w)

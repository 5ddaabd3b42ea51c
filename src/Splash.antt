-- ===== src/Splash.antt =====
-- kernel/boot_splash.c: what the kernel draws while it starts, in mode 13h: 320 x 200 pixels of one byte
-- each. The framebuffer is a function of the offset from 0xA0000. The registers of the VGA and the
-- delays are left out; a coordinate is an integer, as an int without overflow.
pub mod Root
pub mod Logo
pub mod Bar
pub mod Frame
pub mod Palette
pub mod Font
pub mod Rect
pub mod Bounds
mod Tests
use system_operative_edit.Base.{
  ℕ, zero, suc, ◌+◌, ◌-◌, ◌*◌, ◌/◌, ◌%◌, ◌^◌, ◌≤◌, ◌<◌, min, max, bit_and, bit_or, bit_xor, ◌≡◌,
  refl, sym, ap, ◌∙◌, fun_ext, ◌≢◌, ◌↔◌, ◌⊎◌, inl, inr, Bool, true, false, not, ◌&&◌, ◌||◌, Option,
  none, some, List, [], ◌∷◌, ◌++◌, map, arith, ltb, leb, ◌==◌, if◌then◌else◌, Bool-cases, update,
  length, get_or,
}
use system_operative_edit.Base.Int.{ℤ, pos, negsuc, sub_ℕ, ◌+ℤ◌, ◌-ℤ◌}
use system_operative_edit.Vga.{has_bit}
use system_operative_edit.Vga.Text.{font8x8}

infixl 5 ◌>>=◌
abbrev pub ◌>>=◌ {ℓ} : {A B : Type ℓ} → Option A → (A → Option B) → Option B
none >>= f = none
some a >>= f = f a

abbrev pub vga13_w : ℕ
vga13_w = 320

abbrev pub vga13_h : ℕ
vga13_h = 200

-- The comparisons are unsigned, so a negative coordinate is out of range.
unfoldable pub px : (x y : ℤ) → (c : ℕ) → (ℕ → ℕ) → ℕ → ℕ
px (pos x) (pos y) c m = if ltb x vga13_w && ltb y vga13_h then update m (y * vga13_w + x) c else m
px (pos x) (negsuc y) c m = m
px (negsuc x) y c m = m

-- A count that is not positive gives no rounds.
abbrev pub rounds : ℤ → ℕ
rounds (pos n) = n
rounds (negsuc n) = 0

-- The loops over the columns from `dx` on, and over the rows from `dy` on.
unfoldable pub fill_cols : (r dx : ℕ) → (x yy : ℤ) → (c : ℕ) → (ℕ → ℕ) → ℕ → ℕ
fill_cols zero dx x yy c m = m
fill_cols (suc r) dx x yy c m = fill_cols r (dx + 1) x yy c (px (x +ℤ pos dx) yy c m)

unfoldable pub fill_rows : (r dy : ℕ) → (x y w : ℤ) → (c : ℕ) → (ℕ → ℕ) → ℕ → ℕ
fill_rows zero dy x y w c m = m
fill_rows (suc r) dy x y w c m =
    fill_rows r (dy + 1) x y w c (fill_cols (rounds w) 0 x (y +ℤ pos dy) c m)

unfoldable pub fill_rect : (x y w h : ℤ) → (c : ℕ) → (ℕ → ℕ) → ℕ → ℕ
fill_rect x y w h c m = fill_rows (rounds h) 0 x y w c m

-- The loop of `fb_clear`.
unfoldable pub clear_from : (r i c : ℕ) → (ℕ → ℕ) → ℕ → ℕ
clear_from zero i c m = m
clear_from (suc r) i c m = clear_from r (i + 1) c (update m i c)

unfoldable pub fb_clear : (c : ℕ) → (ℕ → ℕ) → ℕ → ℕ
fb_clear c m = clear_from (vga13_w * vga13_h) 0 c m

-- The two loops of `rect_outline`, from `i` on.
unfoldable pub outline_cols : (r i : ℕ) → (x y h : ℤ) → (c : ℕ) → (ℕ → ℕ) → ℕ → ℕ
outline_cols zero i x y h c m = m
outline_cols (suc r) i x y h c m =
    outline_cols r (i + 1) x y h c (px (x +ℤ pos i) (y +ℤ h -ℤ pos 1) c (px (x +ℤ pos i) y c m))

unfoldable pub outline_rows : (r i : ℕ) → (x y w : ℤ) → (c : ℕ) → (ℕ → ℕ) → ℕ → ℕ
outline_rows zero i x y w c m = m
outline_rows (suc r) i x y w c m =
    outline_rows r (i + 1) x y w c (px (x +ℤ w -ℤ pos 1) (y +ℤ pos i) c (px x (y +ℤ pos i) c m))

unfoldable pub rect_outline : (x y w h : ℤ) → (c : ℕ) → (ℕ → ℕ) → ℕ → ℕ
rect_outline x y w h c m = outline_rows (rounds h) 0 x y w c (outline_cols (rounds w) 0 x y h c m)

-- The row `row` of the glyph of a character from 32 to 122. But for that of # the glyphs are the same as
-- in vga_font.c.
unfoldable pub glyph_row : (c row : ℕ) → ℕ
glyph_row c row =
    get_or
      (if c == 35
        then 0x36 ∷ 0x7F ∷ 0x36 ∷ 0x36 ∷ 0x7F ∷ 0x36 ∷ 0x36 ∷ 0x00 ∷ []
        else get_or font8x8 (c - 32) [])
      row 0

-- The loops of `draw_char` inside a cell: `r` columns of the glyph from `col` on; a pixel of the glyph is a
-- square.
unfoldable pub char_cols : (r col bits : ℕ) → (sx yy : ℤ) → (color scale : ℕ) → (ℕ → ℕ) → ℕ → ℕ
char_cols zero col bits sx yy color scale m = m
char_cols (suc r) col bits sx yy color scale m = char_cols r (col + 1) bits sx yy color scale (
    if has_bit bits col
    then fill_rect (sx +ℤ pos (col * scale)) yy (pos scale) (pos scale) color m
    else m)

unfoldable pub char_rows : (r row c : ℕ) → (sx sy : ℤ) → (color scale : ℕ) → (ℕ → ℕ) → ℕ → ℕ
char_rows zero row c sx sy color scale m = m
char_rows (suc r) row c sx sy color scale m =
    char_rows r (row + 1) c sx sy color scale
      (char_cols 8 0 (glyph_row c row) sx (sy +ℤ pos (row * scale)) color scale m)

-- The byte of a character from 128 on is a negative char.
unfoldable pub draw_char : (sx sy : ℤ) → (c color scale : ℕ) → (ℕ → ℕ) → ℕ → ℕ
draw_char sx sy c color scale m =
    char_rows 8 0 (if ltb c 32 || ltb 122 c then 63 else c) sx sy color scale m

unfoldable pub draw_str : (x y : ℤ) → List ℕ → (color scale : ℕ) → (ℕ → ℕ) → ℕ → ℕ
draw_str x y [] color scale m = m
draw_str x y (c ∷ cs) color scale m =
    draw_str (x +ℤ pos (8 * scale)) y cs color scale (draw_char x y c color scale m)

-- Division by 2, towards 0.
abbrev pub half : ℤ → ℤ
half (pos n) = pos (n / 2)
half (negsuc n) = sub_ℕ 0 (suc n / 2)

unfoldable pub draw_str_c : (y : ℤ) → List ℕ → (color scale : ℕ) → (ℕ → ℕ) → ℕ → ℕ
draw_str_c y s color scale m =
    draw_str (half (pos vga13_w -ℤ pos (length s * 8 * scale))) y s color scale m

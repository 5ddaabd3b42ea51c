-- ===== src/Splash/Frame.antt =====
-- What every drawing operation of boot_splash.c keeps, from what a pixel keeps.
pub mod Show
use system_operative_edit.Base.{
  ℕ, zero, suc, ◌+◌, ◌-◌, ◌*◌, ◌/◌, ◌≡◌, refl, inl, inr, Bool, true, false, Bool-cases, ltb, ◌||◌,
  List, [], ◌∷◌, if◌then◌else◌, length,
}
use system_operative_edit.Base.Int.{ℤ, pos, negsuc, sub_ℕ, ◌+ℤ◌, ◌-ℤ◌}
use system_operative_edit.Vga.{has_bit}
use system_operative_edit.Splash.{
  px, rounds, fill_cols, fill_rows, fill_rect, outline_cols, outline_rows, rect_outline, glyph_row,
  char_cols, char_rows, draw_char, draw_str, draw_str_c, half, vga13_w,
}

-- A property of the framebuffer that a pixel of an allowed colour keeps.
pub record Kept : Type 1 where
  pub Holds : (ℕ → ℕ) → Type 0
  pub Allowed : ℕ → Type 0
  pub px_keeps : (x y : ℤ) (c : ℕ) (m : ℕ → ℕ) → Allowed c → Holds m → Holds (px x y c m)

module _ (K : Kept) where
  pub fill_cols_keeps :
      (r dx : ℕ) (x yy : ℤ) (c : ℕ) (m : ℕ → ℕ)
      → K.Allowed c
      → K.Holds m
      → K.Holds (fill_cols r dx x yy c m)
  unfolding fill_cols
  fill_cols_keeps zero dx x yy c m ok h = h
  fill_cols_keeps (suc r) dx x yy c m ok h =
      fill_cols_keeps r (dx + 1) x yy c _ ok (K.px_keeps (x +ℤ pos dx) yy c m ok h)

  fill_rows_keeps :
      (r dy : ℕ) (x y w : ℤ) (c : ℕ) (m : ℕ → ℕ)
      → K.Allowed c
      → K.Holds m
      → K.Holds (fill_rows r dy x y w c m)
  unfolding fill_rows
  fill_rows_keeps zero dy x y w c m ok h = h
  fill_rows_keeps (suc r) dy x y w c m ok h =
      fill_rows_keeps r (dy + 1) x y w c _ ok
        (fill_cols_keeps (rounds w) 0 x (y +ℤ pos dy) c m ok h)

  pub fill_rect_keeps :
      (x y w h : ℤ) (c : ℕ) (m : ℕ → ℕ) → K.Allowed c → K.Holds m → K.Holds (fill_rect x y w h c m)
  unfolding fill_rect
  fill_rect_keeps x y w h c m ok holds = fill_rows_keeps (rounds h) 0 x y w c m ok holds

  outline_cols_keeps :
      (r i : ℕ) (x y h : ℤ) (c : ℕ) (m : ℕ → ℕ)
      → K.Allowed c
      → K.Holds m
      → K.Holds (outline_cols r i x y h c m)
  unfolding outline_cols
  outline_cols_keeps zero i x y h c m ok holds = holds
  outline_cols_keeps (suc r) i x y h c m ok holds =
      outline_cols_keeps r (i + 1) x y h c _ ok
        (K.px_keeps (x +ℤ pos i) (y +ℤ h -ℤ pos 1) c _ ok (K.px_keeps (x +ℤ pos i) y c m ok holds))

  outline_rows_keeps :
      (r i : ℕ) (x y w : ℤ) (c : ℕ) (m : ℕ → ℕ)
      → K.Allowed c
      → K.Holds m
      → K.Holds (outline_rows r i x y w c m)
  unfolding outline_rows
  outline_rows_keeps zero i x y w c m ok holds = holds
  outline_rows_keeps (suc r) i x y w c m ok holds =
      outline_rows_keeps r (i + 1) x y w c _ ok
        (K.px_keeps (x +ℤ w -ℤ pos 1) (y +ℤ pos i) c _ ok (K.px_keeps x (y +ℤ pos i) c m ok holds))

  pub rect_outline_keeps :
      (x y w h : ℤ) (c : ℕ) (m : ℕ → ℕ)
      → K.Allowed c
      → K.Holds m
      → K.Holds (rect_outline x y w h c m)
  unfolding rect_outline
  rect_outline_keeps x y w h c m ok holds =
      outline_rows_keeps (rounds h) 0 x y w c _ ok
        (outline_cols_keeps (rounds w) 0 x y h c m ok holds)

  pub if_keeps : (b : Bool) (m n : ℕ → ℕ) → K.Holds m → K.Holds n → K.Holds (if b then m else n)
  if_keeps true m n hm hn = hm
  if_keeps false m n hm hn = hn

  char_cols_keeps :
      (r col bits : ℕ) (sx yy : ℤ) (color scale : ℕ) (m : ℕ → ℕ)
      → K.Allowed color
      → K.Holds m
      → K.Holds (char_cols r col bits sx yy color scale m)
  unfolding char_cols
  char_cols_keeps zero col bits sx yy color scale m ok h = h
  char_cols_keeps (suc r) col bits sx yy color scale m ok h =
      char_cols_keeps r (col + 1) bits sx yy color scale _ ok (
        if_keeps (has_bit bits col) _ m
          (fill_rect_keeps (sx +ℤ pos (col * scale)) yy (pos scale) (pos scale) color m ok h) h)

  char_rows_keeps :
      (r row c : ℕ) (sx sy : ℤ) (color scale : ℕ) (m : ℕ → ℕ)
      → K.Allowed color
      → K.Holds m
      → K.Holds (char_rows r row c sx sy color scale m)
  unfolding char_rows
  char_rows_keeps zero row c sx sy color scale m ok h = h
  char_rows_keeps (suc r) row c sx sy color scale m ok h =
      char_rows_keeps r (row + 1) c sx sy color scale _ ok
        (char_cols_keeps 8 0 (glyph_row c row) sx (sy +ℤ pos (row * scale)) color scale m ok h)

  pub draw_char_keeps :
      (sx sy : ℤ) (c color scale : ℕ) (m : ℕ → ℕ)
      → K.Allowed color
      → K.Holds m
      → K.Holds (draw_char sx sy c color scale m)
  unfolding draw_char
  draw_char_keeps sx sy c color scale m ok h =
      char_rows_keeps 8 0 (if ltb c 32 || ltb 122 c then 63 else c) sx sy color scale m ok h

  pub draw_str_keeps :
      (x y : ℤ) (s : List ℕ) (color scale : ℕ) (m : ℕ → ℕ)
      → K.Allowed color
      → K.Holds m
      → K.Holds (draw_str x y s color scale m)
  unfolding draw_str
  draw_str_keeps x y [] color scale m ok h = h
  draw_str_keeps x y (c ∷ cs) color scale m ok h =
      draw_str_keeps (x +ℤ pos (8 * scale)) y cs color scale _ ok
        (draw_char_keeps x y c color scale m ok h)

  pub draw_str_c_keeps :
      (y : ℤ) (s : List ℕ) (color scale : ℕ) (m : ℕ → ℕ)
      → K.Allowed color
      → K.Holds m
      → K.Holds (draw_str_c y s color scale m)
  unfolding draw_str_c
  draw_str_c_keeps y s color scale m ok h =
      draw_str_keeps (half (pos vga13_w -ℤ pos (length s * 8 * scale))) y s color scale m ok h

-- ===== src/Splash/Logo.antt =====
-- The logo that boot_splash.c draws: two ellipses, two letters and two lines of text.
use system_operative_edit.Base.{
  ℕ, zero, suc, ◌+◌, ◌-◌, ◌*◌, ◌/◌, Option, some, List, [], ◌∷◌, ltb, if◌then◌else◌,
}
use system_operative_edit.Base.Int.{ℤ, pos, negsuc, sub_ℕ, ◌+ℤ◌, ◌-ℤ◌}
use system_operative_edit.Splash.{
  ◌>>=◌, vga13_w, vga13_h, px, fill_cols, fill_rect, draw_char, draw_str_c,
}
use system_operative_edit.Splash.Root.{isqrt}

abbrev pub square : ℤ → ℕ
square (pos n) = n * n
square (negsuc n) = suc n * suc n

-- The half width of an ellipse in the row `r` from its centre; the square root gives `none` when its fuel
-- runs out. The radius `ry` is positive in every call; for 0 the code divides by 0, here the width is 0.
unfoldable pub half_width : (rx ry : ℕ) → (r : ℤ) → Option ℕ
half_width rx ry r = do s ← isqrt (ry * ry - square r); some (rx * s / ry)

-- The rows of an ellipse, `k` of them from the row `i - ry` on.
unfoldable pub ellipse_fill : (k i : ℕ) → (cx cy : ℤ) → (rx ry c : ℕ) → (ℕ → ℕ) → Option (ℕ → ℕ)
ellipse_fill zero i cx cy rx ry c m = some m
ellipse_fill (suc k) i cx cy rx ry c m = do
  hw ← half_width rx ry (sub_ℕ i ry)
  ellipse_fill k (i + 1) cx cy rx ry c
      (fill_cols (2 * hw + 1) 0 (cx -ℤ pos hw) (cy +ℤ sub_ℕ i ry) c m)

unfoldable pub fill_ellipse : (cx cy : ℤ) → (rx ry c : ℕ) → (ℕ → ℕ) → Option (ℕ → ℕ)
fill_ellipse cx cy rx ry c m = ellipse_fill (2 * ry + 1) 0 cx cy rx ry c m

-- The four pixels of a row of the outline.
unfoldable pub stroke_row : (cx y : ℤ) → (hw c : ℕ) → (ℕ → ℕ) → ℕ → ℕ
stroke_row cx y hw c m =
    px (cx +ℤ pos hw -ℤ pos 1) y c
      (px (cx +ℤ pos hw) y c (px (cx -ℤ pos hw +ℤ pos 1) y c (px (cx -ℤ pos hw) y c m)))

unfoldable pub ellipse_stroke : (k i : ℕ) → (cx cy : ℤ) → (rx ry c : ℕ) → (ℕ → ℕ) → Option (ℕ → ℕ)
ellipse_stroke zero i cx cy rx ry c m = some m
ellipse_stroke (suc k) i cx cy rx ry c m = do
  hw ← half_width rx ry (sub_ℕ i ry)
  ellipse_stroke k (i + 1) cx cy rx ry c (stroke_row cx (cy +ℤ sub_ℕ i ry) hw c m)

unfoldable pub stroke_ellipse : (cx cy : ℤ) → (rx ry c : ℕ) → (ℕ → ℕ) → Option (ℕ → ℕ)
stroke_ellipse cx cy rx ry c m = ellipse_stroke (2 * ry + 1) 0 cx cy rx ry c m

-- The background, `k` rows from `row` on.
unfoldable pub backdrop : (k row : ℕ) → (ℕ → ℕ) → ℕ → ℕ
backdrop zero row m = m
backdrop (suc k) row m =
    backdrop k (row + 1)
      (fill_rect (pos 0) (pos row) (pos vga13_w) (pos 1) (if ltb row 100 then 1 else 20) m)

-- "85 ∷ 78 ∷ 73 ∷ 86 ∷ 69 ∷ 82 ∷ 83 ∷ 73 ∷ 68 ∷ 65 ∷ 68 ∷ 32 ∷ 68 ∷ 69 ∷ 32 ∷ 71 ∷ 85 ∷ 65 ∷ 89 ∷ 65 ∷ 81 ∷ 85 ∷ 73 ∷ 76 ∷ []ERSIDAD DE GUAYAQUIL"
abbrev university : List ℕ
university =
    85 ∷ 78 ∷ 73 ∷ 86 ∷ 69 ∷ 82 ∷ 83 ∷ 73 ∷ 68 ∷ 65 ∷ 68 ∷ 32 ∷ 68 ∷ 69 ∷ 32 ∷ 71 ∷ 85 ∷ 65 ∷ 89
    ∷ 65 ∷ 81 ∷ 85 ∷ 73 ∷ 76 ∷ []

-- "System Operative Edit  v0.4"
abbrev product_name : List ℕ
product_name =
    83 ∷ 121 ∷ 115 ∷ 116 ∷ 101 ∷ 109 ∷ 32 ∷ 79 ∷ 112 ∷ 101 ∷ 114 ∷ 97 ∷ 116 ∷ 105 ∷ 118 ∷ 101 ∷ 32
    ∷ 69 ∷ 100 ∷ 105 ∷ 116 ∷ 32 ∷ 32 ∷ 118 ∷ 48 ∷ 46 ∷ 52 ∷ []

-- The letters in the shield, the lines and the text, below the ellipses.
unfoldable pub draw_titles : (ℕ → ℕ) → ℕ → ℕ
draw_titles m =
    let letters : ℕ → ℕ =
      draw_char (pos 164) (pos 60) 71 3 2 (draw_char (pos 140) (pos 60) 85 3 2 m) in
    let lines : ℕ → ℕ =
      fill_rect (pos 35) (pos 125) (pos 250) (pos 1) 4
        (fill_rect (pos 35) (pos 122) (pos 250) (pos 2) 3 letters) in
    fill_rect (pos 35) (pos 153) (pos 250) (pos 2) 3
      (draw_str_c (pos 141) product_name 7 1 (draw_str_c (pos 130) university 15 1 lines))

unfoldable pub draw_logo : (ℕ → ℕ) → Option (ℕ → ℕ)
draw_logo m = do
  m2 ← stroke_ellipse (pos 160) (pos 68) 55 44 3 (backdrop vga13_h 0 m)
  m3 ← fill_ellipse (pos 160) (pos 68) 52 41 2 m2
  some (draw_titles m3)

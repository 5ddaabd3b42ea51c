-- ===== src/Vga/Fill/Rect.antt =====
-- `VgaFillRect` against the same rectangle drawn pixel by pixel.
use mathlib.Core.Path.{subst}
use system_operative_edit.Base.{
  if_true, ℕ, zero, suc, ◌+◌, ◌*◌, ◌≤◌, ◌<◌, ◌≡◌, refl, sym, ap, ◌∙◌, Bool, false, ◌&&◌, ◌||◌,
  arith, ltb, leb, ◌==◌, if◌then◌else◌,
}
use system_operative_edit.Base.Int.{ℤ, pos, ◌+ℤ◌}
use system_operative_edit.Vga.{
  get_pixel, paint, paint_cols, paint_rows, put_pixel, shadow_w, shadow_h, fill_rect, shadow_w,
  shadow_h, fill_rect, Vga, put_pixel, has_bit, fill_rows, fill_rect, paint, paint_cols, paint_rows,
}
use system_operative_edit.Vga.Pixel.{IsMode, lit, Synced}
use system_operative_edit.Vga.Fill.{pos_add, Filling, pos_add}
use system_operative_edit.Vga.Fill.Rows.{rows_lem}
use system_operative_edit.Vga.Fill.Paint.{paint_rows_lem}
use system_operative_edit.Vga.Show.{Shows, plot-Shows}

module _ (x y w h color : ℕ) (s : Vga) (mode : IsMode s) (synced : Synced s) (wide : x + w ≤ 640)
    (high : y + h ≤ 480) where
  abbrev inside : (px py : ℕ) → Bool
  inside px py = (leb y py && ltb py (y + h)) && (leb x px && ltb px (x + w))

  abbrev picture : ℕ → ℕ
  picture = paint_rows h 0 w (pos x) (pos y) color s.shadow

  picture_lem :
      (px py : ℕ)
      → px < 640
      → picture (py * 640 + px) ≡ (if inside px py then color else s.shadow (py * 640 + px))
  picture_lem px py lx =
      paint_rows_lem h 0 w x y color s.shadow px py wide (omega (arith, high)) lx ∙ ground arith

  start_Filling : Filling x (x + w) (y + h) picture y x (record s { shadow = picture })
  start_Filling = record {
    mode = mode;
    shadow = refl;
    shown = λ p px py lp lx ly done.
        synced p px py lp lx ly
        ∙ ap (λ c. has_bit c p) (sym (picture_lem px py lx ∙ ground (arith, done)));
  }

  fill_rect_rows :
      0 < w
      → 0 < h
      → fill_rect (pos x) (pos y) (pos w) (pos h) color s
        ≡ fill_rows h 0 (pos x) (pos y) w color (record s { shadow = picture })
  unfolding fill_rect
  fill_rect_rows some_w some_h =
      let full : (w == 0 || h == 0) ≡ false = ground (arith, some_w, some_h) in
      rw full (
        if_true s.ready (fill_rows h 0 (pos x) (pos y) w color (record s { shadow = picture }))
          (record s { shadow = picture }) mode.0)

  fill_rect-Shows :
      0 < w → 0 < h → Shows picture (fill_rect (pos x) (pos y) (pos w) (pos h) color s)
  fill_rect-Shows some_w some_h =
      let painted : (px py : ℕ)
          → x ≤ px
          → px < x + w
          → y ≤ py
          → py < y + h
          → picture (py * 640 + px) ≡ color =
        λ px py a b c d. picture_lem px py (omega (arith, b, wide)) ∙ ground (arith, a, b, c, d) in
      let from : y ≡ y + 0 = omega arith in
      let t =
        rows_lem x (x + w) y (y + h) color picture wide high painted h 0 w
          (record s { shadow = picture }) (omega arith) refl
          (subst (λ n. Filling x (x + w) (y + h) picture n x (record s { shadow = picture })) from
            start_Filling) in
      rw (fill_rect_rows some_w some_h) (
        t.mode,
        λ p px py lp lx ly.
            t.shown p px py lp lx ly (ground arith)
            ∙ ap (λ m. has_bit (m (py * 640 + px)) p) (sym t.shadow),
        t.shadow,
      )

-- The same rectangle, pixel by pixel.
unfoldable pub plot_cols : (r col : ℕ) → (x yy : ℤ) → (color : ℕ) → Vga → Vga
plot_cols zero col x yy color s = s
plot_cols (suc r) col x yy color s =
    plot_cols r (col + 1) x yy color (put_pixel (x +ℤ pos col) yy color s)

unfoldable pub plot_rows : (r row width : ℕ) → (x y : ℤ) → (color : ℕ) → Vga → Vga
plot_rows zero row width x y color s = s
plot_rows (suc r) row width x y color s =
    plot_rows r (row + 1) width x y color (plot_cols width 0 x (y +ℤ pos row) color s)

plot_cols-Shows :
    (r col x yy color : ℕ) (sh : ℕ → ℕ) (s : Vga)
    → x + col + r ≤ 640
    → yy < 480
    → Shows sh s
    → Shows (paint_cols r col (pos x) (pos yy) color sh) (plot_cols r col (pos x) (pos yy) color s)
unfolding paint_cols plot_cols
plot_cols-Shows zero col x yy color sh s fits on h = h
plot_cols-Shows (suc r) col x yy color sh s fits on h =
    let first = plot-Shows (x + col) yy color sh s (omega (arith, fits)) on h in
    subst
      (λ z.
        Shows (paint_cols r (col + 1) (pos x) (pos yy) color (paint z (pos yy) color sh))
          (plot_cols r (col + 1) (pos x) (pos yy) color (put_pixel z (pos yy) color s)))
      (sym (pos_add x col))
      (plot_cols-Shows r (col + 1) x yy color (paint (pos (x + col)) (pos yy) color sh)
        (put_pixel (pos (x + col)) (pos yy) color s) (omega (arith, fits)) on first)

plot_rows-Shows :
    (r row w x y color : ℕ) (sh : ℕ → ℕ) (s : Vga)
    → x + w ≤ 640
    → y + row + r ≤ 480
    → Shows sh s
    → Shows
        (paint_rows r row w (pos x) (pos y) color sh)
        (plot_rows r row w (pos x) (pos y) color s)
unfolding paint_rows plot_rows
plot_rows-Shows zero row w x y color sh s fits on h = h
plot_rows-Shows (suc r) row w x y color sh s fits on h =
    let first =
      plot_cols-Shows w 0 x (y + row) color sh s (omega (arith, fits)) (omega (arith, on)) h in
    subst
      (λ z.
        Shows (paint_rows r (row + 1) w (pos x) (pos y) color (paint_cols w 0 (pos x) z color sh))
          (plot_rows r (row + 1) w (pos x) (pos y) color (plot_cols w 0 (pos x) z color s)))
      (sym (pos_add y row))
      (plot_rows-Shows r (row + 1) w x y color (paint_cols w 0 (pos x) (pos (y + row)) color sh)
        (plot_cols w 0 (pos x) (pos (y + row)) color s) fits (omega (arith, on)) first)

-- Two screens look alike: the same picture in `g_shadow`, and the same bit of every plane in every
-- pixel.
abbrev pub Alike : Vga → Vga → Type 0
Alike s t =
    (s.shadow ≡ t.shadow) × ((p x y : ℕ) → p < 4 → x < 640 → y < 480 → lit s p x y ≡ lit t p x y)

Shows-Alike : (sh : ℕ → ℕ) (s t : Vga) → Shows sh s → Shows sh t → Alike s t
Shows-Alike sh s t (ms, ss, es) (mt, st, et) = (
  es ∙ sym et,
  λ p x y lp lx ly.
      ss p x y lp lx ly
      ∙ ap (λ m. has_bit (m (y * 640 + x)) p) (es ∙ sym et)
      ∙ sym (st p x y lp lx ly),
)

-- On a rectangle inside the screen, with the planes in step with `g_shadow`, `VgaFillRect`, which
-- writes eight pixels at a time, leaves the same screen as drawing the rectangle pixel by pixel with
-- `VgaPutPixel`.
pub fill_rect-plot_rows :
    (x y w h color : ℕ) (s : Vga)
    → IsMode s
    → Synced s
    → 0 < w
    → 0 < h
    → x + w ≤ 640
    → y + h ≤ 480
    → Alike
        (fill_rect (pos x) (pos y) (pos w) (pos h) color s)
        (plot_rows h 0 w (pos x) (pos y) color s)
fill_rect-plot_rows x y w h color s mode synced some_w some_h wide high =
    Shows-Alike (paint_rows h 0 w (pos x) (pos y) color s.shadow)
      (fill_rect (pos x) (pos y) (pos w) (pos h) color s) (plot_rows h 0 w (pos x) (pos y) color s)
      (fill_rect-Shows x y w h color s mode synced wide high some_w some_h)
      (plot_rows-Shows h 0 w x y color s.shadow s wide (omega (arith, high)) (mode, synced, refl))

-- `VgaFillRect` on a rectangle inside the screen gives every pixel of it the colour and leaves every
-- other pixel, as `VgaGetPixel` reads them, and the planes stay in step with the picture.
pub fill_rect_lem :
    (x y w h color : ℕ) (s : Vga)
    → IsMode s
    → Synced s
    → 0 < w
    → 0 < h
    → x + w ≤ 640
    → y + h ≤ 480
    → let t = fill_rect (pos x) (pos y) (pos w) (pos h) color s in
      Synced t
      × ((px py : ℕ)
          → px < 640
          → py < 480
          → get_pixel (pos px) (pos py) t ≡ (
              if (leb y py && ltb py (y + h)) && (leb x px && ltb px (x + w))
              then color
              else get_pixel (pos px) (pos py) s))
unfolding get_pixel
fill_rect_lem x y w h color s mode synced some_w some_h wide high =
    let t = fill_rect-Shows x y w h color s mode synced wide high some_w some_h in
    (
      t.1,
      λ px py lx ly.
          (let on : (leb shadow_w px || leb shadow_h py) ≡ false = ground (arith, lx, ly) in
            rw on (
              ap (λ m. m (py * 640 + px)) t.2
              ∙ picture_lem x y w h color s mode synced wide high px py lx)),
    )

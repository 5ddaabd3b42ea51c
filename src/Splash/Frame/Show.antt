-- ===== src/Splash/Frame/Show.antt =====
-- What the logo, the progress bar and the whole splash screen keep, and that they are drawn to the end.
use system_operative_edit.Base.{
  ℕ, zero, suc, ◌+◌, ◌-◌, ◌*◌, ◌/◌, ◌≡◌, refl, ap, ◌∙◌, Bool, true, false, ltb, List, [], ◌∷◌, ◌++◌,
  if◌then◌else◌, length, Option, some, arith, ◌^◌, ◌<◌, ◌≤◌,
}
use system_operative_edit.Base.Int.{ℤ, pos, sub_ℕ, ◌+ℤ◌, ◌-ℤ◌}
use system_operative_edit.Splash.Bar.Shown.{draw_bar_paints, uint_text_lem}
use system_operative_edit.Splash.{◌>>=◌, draw_str, fb_clear, vga13_w, vga13_h}
use system_operative_edit.Splash.Root.{isqrt_lem}
use system_operative_edit.Splash.Logo.{
  square, half_width, ellipse_fill, fill_ellipse, stroke_row, ellipse_stroke, stroke_ellipse,
  backdrop, draw_titles, draw_logo,
}
use system_operative_edit.Splash.Bar.{
  unset_tail, uint_text, draw_uint, paint_bar, draw_label, draw_progress, draw_phases, run_progress,
  show_splash, phase_labels, start_label, ready_label, bar_x, bar_y, bar_w, bar_h,
}
use system_operative_edit.Splash.Frame

half_width_ends : (rx ry : ℕ) (r : ℤ) → ry * ry < 92680 → (hw : ℕ) × (half_width rx ry r ≡ some hw)
unfolding half_width
half_width_ends rx ry r small =
    let root = isqrt_lem (ry * ry - square r) (omega (arith, small)) in
    (rx * root.0 / ry, ap (λ e. e >>= λ s. some (rx * s / ry)) root.1)

-- A percentage has at most ten digits.
uint_text_ends : (junk n : ℕ) → n < 10 ^ 10 → (text : List ℕ) × (uint_text junk n ≡ some text)
uint_text_ends junk n lt = let text = uint_text_lem junk n lt in (text.0 ++ unset_tail junk, text.1)

-- The colours of the splash screen that the drawing operations are given.
pub record Inks (K : Frame.Kept) : Type 0 where
  pub blue : K.Allowed 1
  pub light_blue : K.Allowed 2
  pub yellow : K.Allowed 3
  pub light_yellow : K.Allowed 4
  pub grey : K.Allowed 7
  pub dark_grey : K.Allowed 8
  pub green : K.Allowed 10
  pub light_green : K.Allowed 11
  pub white : K.Allowed 15
  pub sky : K.Allowed 20

-- An operation ends, and what it leaves has the property.
abbrev pub Draws : Frame.Kept → Option (ℕ → ℕ) → Type 0
Draws K r = (m : ℕ → ℕ) × (r ≡ some m) × K.Holds m

module _ (K : Frame.Kept) where
  -- An operation goes on behind one that ends.
  then-Draws :
      {A : Type 0} {r : Option A} (f : A → Option (ℕ → ℕ))
      → (a : A) → r ≡ some a
      → Draws K (f a)
      → Draws K (r >>= f)
  then-Draws f a ended draws = (draws.0, ap (λ e. e >>= f) ended ∙ draws.1, draws.2)

  ellipse_fill_keeps :
      (k i : ℕ) (cx cy : ℤ) (rx ry c : ℕ) (m : ℕ → ℕ)
      → ry * ry < 92680
      → K.Allowed c
      → K.Holds m
      → Draws K (ellipse_fill k i cx cy rx ry c m)
  unfolding ellipse_fill
  ellipse_fill_keeps zero i cx cy rx ry c m small ok h = (m, refl, h)
  ellipse_fill_keeps (suc k) i cx cy rx ry c m small ok h =
      let width = half_width_ends rx ry (sub_ℕ i ry) small in
      then-Draws _ width.0 width.1 (
        ellipse_fill_keeps k (i + 1) cx cy rx ry c _ small ok (
          Frame.fill_cols_keeps K (2 * width.0 + 1) 0 (cx -ℤ pos width.0) (cy +ℤ sub_ℕ i ry) c m ok
            h))

  stroke_row_keeps :
      (cx y : ℤ) (hw c : ℕ) (m : ℕ → ℕ) → K.Allowed c → K.Holds m → K.Holds (stroke_row cx y hw c m)
  unfolding stroke_row
  stroke_row_keeps cx y hw c m ok h = K.px_keeps (cx +ℤ pos hw -ℤ pos 1) y c _ ok (
      K.px_keeps (cx +ℤ pos hw) y c _ ok
        (K.px_keeps (cx -ℤ pos hw +ℤ pos 1) y c _ ok (K.px_keeps (cx -ℤ pos hw) y c m ok h)))

  ellipse_stroke_keeps :
      (k i : ℕ) (cx cy : ℤ) (rx ry c : ℕ) (m : ℕ → ℕ)
      → ry * ry < 92680
      → K.Allowed c
      → K.Holds m
      → Draws K (ellipse_stroke k i cx cy rx ry c m)
  unfolding ellipse_stroke
  ellipse_stroke_keeps zero i cx cy rx ry c m small ok h = (m, refl, h)
  ellipse_stroke_keeps (suc k) i cx cy rx ry c m small ok h =
      let width = half_width_ends rx ry (sub_ℕ i ry) small in
      then-Draws _ width.0 width.1 (
        ellipse_stroke_keeps k (i + 1) cx cy rx ry c _ small ok
          (stroke_row_keeps cx (cy +ℤ sub_ℕ i ry) width.0 c m ok h))

  backdrop_keeps : (k row : ℕ) (m : ℕ → ℕ) → Inks K → K.Holds m → K.Holds (backdrop k row m)
  unfolding backdrop
  backdrop_keeps zero row m inks h = h
  backdrop_keeps (suc k) row m inks h =
      let shade : (b : Bool) → K.Allowed (if b then 1 else 20) = λ b.
        elim b as (λ k. K.Allowed (if k then 1 else 20)) [ true ↦ inks.blue | false ↦ inks.sky ] in
      backdrop_keeps k (row + 1) _ inks (
        Frame.fill_rect_keeps K (pos 0) (pos row) (pos vga13_w) (pos 1)
          (if ltb row 100 then 1 else 20) m (shade (ltb row 100)) h)

  draw_titles_keeps : (m : ℕ → ℕ) → Inks K → K.Holds m → K.Holds (draw_titles m)
  unfolding draw_titles
  draw_titles_keeps m inks h =
      let letters =
        Frame.draw_char_keeps K _ _ _ 3 2 _ inks.yellow
          (Frame.draw_char_keeps K _ _ _ 3 2 m inks.yellow h) in
      let lines =
        Frame.fill_rect_keeps K _ _ _ _ 4 _ inks.light_yellow
          (Frame.fill_rect_keeps K _ _ _ _ 3 _ inks.yellow letters) in
      Frame.fill_rect_keeps K _ _ _ _ 3 _ inks.yellow (
        Frame.draw_str_c_keeps K _ _ 7 1 _ inks.grey
          (Frame.draw_str_c_keeps K _ _ 15 1 _ inks.white lines))

  pub draw_logo_keeps : (m : ℕ → ℕ) → Inks K → K.Holds m → Draws K (draw_logo m)
  unfolding draw_logo stroke_ellipse fill_ellipse
  draw_logo_keeps m inks h =
      let stroke =
        ellipse_stroke_keeps (2 * 44 + 1) 0 (pos 160) (pos 68) 55 44 3 _ (omega arith) inks.yellow
          (backdrop_keeps vga13_h 0 m inks h) in
      let fill =
        ellipse_fill_keeps (2 * 41 + 1) 0 (pos 160) (pos 68) 52 41 2 stroke.0 (omega arith)
          inks.light_blue stroke.2 in
      then-Draws _ stroke.0 stroke.1 (
        then-Draws _ fill.0 fill.1 (draw_titles fill.0, refl, draw_titles_keeps fill.0 inks fill.2))

  draw_uint_keeps :
      (junk : ℕ) (x y : ℤ) (n c : ℕ) (m : ℕ → ℕ)
      → n < 10 ^ 10
      → K.Allowed c
      → K.Holds m
      → Draws K (draw_uint junk x y n c m)
  unfolding draw_uint
  draw_uint_keeps junk x y n c m lt ok h =
      let text = uint_text_ends junk n lt in
      then-Draws (λ text. some (draw_str x y text c 1 m)) text.0 text.1
        (draw_str x y text.0 c 1 m, refl, Frame.draw_str_keeps K x y text.0 c 1 m ok h)

  paint_bar_keeps : (filled : ℕ) (m : ℕ → ℕ) → Inks K → K.Holds m → K.Holds (paint_bar filled m)
  unfolding paint_bar
  paint_bar_keeps filled m inks h =
      let back =
        Frame.fill_rect_keeps K _ _ _ _ 1 _ inks.blue
          (Frame.fill_rect_keeps K _ _ _ _ 8 m inks.dark_grey h) in
      let done =
        Frame.if_keeps K (ltb 0 filled) _ _
          (Frame.fill_rect_keeps K (pos bar_x) (pos bar_y) (pos filled) (pos bar_h) 10 _ inks.green
            back)
          back in
      let edge =
        Frame.if_keeps K (ltb filled bar_w) _ _
          (Frame.fill_rect_keeps K (pos (bar_x + filled)) (pos bar_y) (pos 2) (pos bar_h) 3 _
            inks.yellow done)
          done in
      Frame.rect_outline_keeps K _ _ _ _ 15 _ inks.white edge

  draw_label_keeps :
      (pct : ℕ) (label : List ℕ) (m : ℕ → ℕ) → Inks K → K.Holds m → K.Holds (draw_label pct label m)
  unfolding draw_label
  draw_label_keeps pct label m inks h = Frame.draw_str_c_keeps K _ label 7 1 _ inks.grey (
      Frame.fill_rect_keeps K _ _ _ _ 1 _ inks.blue
        (Frame.draw_str_keeps K _ _ _ 15 1 m inks.white h))

  pub draw_progress_keeps :
      (junk step total : ℕ) (label : List ℕ) (m : ℕ → ℕ)
      → (0 < total) × (step ≤ total) × (200 * step < 2 ^ 31) × (step * 100 / total < 10 ^ 10)
      → Inks K
      → K.Holds m
      → Draws K (draw_progress junk step total label m)
  unfolding draw_progress
  draw_progress_keeps junk step total label m (positive, le, fits, lt) inks h =
      let bar : ℕ → ℕ = paint_bar (200 * step / total) m in
      let space =
        Frame.fill_rect_keeps K _ _ _ _ 1 bar inks.blue
          (paint_bar_keeps (200 * step / total) m inks h) in
      let number =
        draw_uint_keeps junk (pos (bar_x + bar_w + 5)) (pos bar_y) (step * 100 / total) 15 _ lt
          inks.white space in
      then-Draws _ bar (draw_bar_paints step total m positive le fits) (
        then-Draws _ number.0 number.1 (
          draw_label (step * 100 / total) label number.0,
          refl,
          draw_label_keeps (step * 100 / total) label number.0 inks number.2,
        ))

  draw_phases_keeps :
      (junk : ℕ → ℕ) (i : ℕ) (labels : List (List ℕ)) (m : ℕ → ℕ)
      → i + length labels ≤ 5
      → Inks K
      → K.Holds m
      → Draws K (draw_phases junk i labels m)
  unfolding draw_phases
  draw_phases_keeps junk i [] m le inks h = (m, refl, h)
  draw_phases_keeps junk i (label ∷ labels) m le inks h =
      let phase =
        draw_progress_keeps (junk (i + 1)) (i + 1) 5 label m
          (omega arith, omega (arith, le), omega (arith, le), omega (arith, le)) inks h in
      then-Draws _ phase.0 phase.1
        (draw_phases_keeps junk (i + 1) labels phase.0 (omega (arith, le)) inks phase.2)

  run_progress_keeps :
      (junk : ℕ → ℕ) (m : ℕ → ℕ) → Inks K → K.Holds m → Draws K (run_progress junk m)
  unfolding run_progress
  run_progress_keeps junk m inks h =
      let start =
        draw_progress_keeps (junk 0) 0 5 start_label m
          (omega arith, omega arith, omega arith, omega arith) inks h in
      let phases = draw_phases_keeps junk 0 phase_labels start.0 (omega arith) inks start.2 in
      then-Draws _ start.0 start.1 (
        then-Draws _ phases.0 phases.1 (
          draw_progress_keeps (junk 6) 5 5 ready_label _
            (omega arith, omega arith, omega arith, omega arith) inks
            (Frame.fill_rect_keeps K (pos bar_x) (pos bar_y) (pos bar_w) (pos bar_h) 11 phases.0
              inks.light_green phases.2)))

  pub show_splash_keeps :
      (junk : ℕ → ℕ) (m : ℕ → ℕ) → Inks K → K.Holds (fb_clear 0 m) → Draws K (show_splash junk m)
  unfolding show_splash
  show_splash_keeps junk m inks h =
      let logo = draw_logo_keeps (fb_clear 0 m) inks h in
      then-Draws _ logo.0 logo.1 (
        run_progress_keeps junk _ inks (
          Frame.fill_rect_keeps K (pos 0) (pos 158) (pos vga13_w) (pos (vga13_h - 158)) 1 logo.0
            inks.blue logo.2))

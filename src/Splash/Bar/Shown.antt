-- ===== src/Splash/Bar/Shown.antt =====
-- What the progress bar of boot_splash.c shows, and the number beside it.
use system_operative_edit.Base.{
  ◌||◌, leb, ◌≤◌, ◌==◌, ℕ, ◌+◌, ◌*◌, ◌/◌, ◌^◌, ◌<◌, ◌≡◌, refl, ◌∙◌, inl, inr, Bool, true, false,
  arith, ltb, ◌==◌, if◌then◌else◌, Bool-cases, some, List, [], ◌∷◌, ◌++◌,
}
use system_operative_edit.Base.Int.{pos, ◌+ℤ◌, ◌-ℤ◌}
use native.Mathlib.Nat.{div-lt_iff_lt-mul}
use system_operative_edit.Loader.Print.{decimal, dec_digits_lem}
use system_operative_edit.Splash.{fill_rect}
use system_operative_edit.Splash.Bar.{paint_bar, draw_bar, uint_text, unset_tail}
use system_operative_edit.Splash.Rect.{fill_rect_at, rect_outline_inside}

-- A Boolean test decides between two rectangles; both are known in the pixel.
if_at : (b : Bool) (m n : ℕ → ℕ) (o : ℕ) → (if b then m else n) o ≡ (if b then m o else n o)
if_at true m n o = refl
if_at false m n o = refl

paint_bar_at :
    (filled : ℕ) (m : ℕ → ℕ) (k l : ℕ)
    → k < 200
    → l < 9
    → paint_bar filled m ((163 + l) * 320 + (60 + k))
      ≡ (if ltb k filled then 10 else if ltb k (filled + 2) then 3 else 1)
unfolding paint_bar ◌-ℤ◌ ◌+ℤ◌
paint_bar_at filled m k l k_lt l_lt =
    let X : ℕ = 60 + k in
    let Y : ℕ = 163 + l in
    let X_on : X < 320 = omega (arith, k_lt) in
    let Y_on : Y < 200 = omega (arith, l_lt) in
    let back : ℕ → ℕ =
      fill_rect (pos 60) (pos 163) (pos 200) (pos 9) 1
        (fill_rect (pos 58) (pos 161) (pos 204) (pos 13) 8 m) in
    let done : ℕ → ℕ =
      if ltb 0 filled then fill_rect (pos 60) (pos 163) (pos filled) (pos 9) 10 back else back in
    let edge : ℕ → ℕ =
      if ltb filled 200
      then fill_rect (pos (60 + filled)) (pos 163) (pos 2) (pos 9) 3 done
      else done in
    let outline =
      rect_outline_inside X Y X_on Y_on 59 162 202 11 260 172 15 edge refl refl
        (ground (arith, k_lt)) (ground (arith, l_lt)) in
    let back_at =
      fill_rect_at X Y X_on Y_on 60 163 200 9 1
        (fill_rect (pos 58) (pos 161) (pos 204) (pos 13) 8 m) in
    let green_at = fill_rect_at X Y X_on Y_on 60 163 filled 9 10 back in
    let yellow_at = fill_rect_at X Y X_on Y_on (60 + filled) 163 2 9 3 done in
    let done_at : done (Y * 320 + X) ≡ (if ltb k filled then 10 else 1) =
      if_at (ltb 0 filled) (fill_rect (pos 60) (pos 163) (pos filled) (pos 9) 10 back) back
        (Y * 320 + X)
      ∙ rw (green_at, back_at) (ground (arith, k_lt, l_lt)) in
    outline
    ∙ if_at (ltb filled 200) (fill_rect (pos (60 + filled)) (pos 163) (pos 2) (pos 9) 3 done) done
        (Y * 320 + X)
    ∙ rw (yellow_at, done_at) (ground (arith, k_lt, l_lt))

filled_le : (step total : ℕ) → 0 < total → step ≤ total → 200 * step / total ≤ 200
filled_le step total positive le =
    let over : 200 * step < 201 * total = omega (arith, positive, le) in
    let quotient : 200 * step / total < 201 = (div-lt_iff_lt-mul positive).1 over in
    omega (arith, quotient)

-- Nothing divides by 0, and nothing overflows.
pub draw_bar_paints :
    (step total : ℕ) (m : ℕ → ℕ)
    → 0 < total
    → step ≤ total
    → 200 * step < 2 ^ 31
    → draw_bar step total m ≡ some (paint_bar (200 * step / total) m)
unfolding draw_bar
draw_bar_paints step total m positive le fits =
    let filled = filled_le step total positive le in
    let ready : (total == 0
          || (leb (2 ^ 31) (200 * step) || ltb (2 ^ 31) (60 + 200 * step / total)))
        ≡ false =
      ground (arith, positive, fits, filled) in
    rw ready refl

-- For a positive total, a step that is not above it and a product that fits into an int, the bar is drawn. Inside
-- the outline the pixel in the column `k` and the row `l` of the bar is green in the columns that are filled, yellow in
-- the two behind them and blue in the others; `200 * step / total` of the 200 columns are filled.
pub draw_bar_lem :
    (step total : ℕ) (m : ℕ → ℕ)
    → 0 < total
    → step ≤ total
    → 200 * step < 2 ^ 31
    → (m2 : ℕ → ℕ) × (draw_bar step total m ≡ some m2)
      × ((k l : ℕ)
          → k < 200
          → l < 9
          → m2 ((163 + l) * 320 + (60 + k)) ≡ (
              if ltb k (200 * step / total)
              then 10
              else if ltb k (200 * step / total + 2)
              then 3
              else 1))
draw_bar_lem step total m positive le fits = (
  paint_bar (200 * step / total) m,
  draw_bar_paints step total m positive le fits,
  paint_bar_at (200 * step / total) m,
)

-- For a number of at most ten digits the text is its decimal digits and behind them the byte that the code does
-- not set, unless that is 0.
pub uint_text_lem :
    (junk n : ℕ)
    → n < 10 ^ 10
    → (digits : List ℕ) × (uint_text junk n ≡ some (digits ++ unset_tail junk))
      × (decimal 0 digits ≡ n)
unfolding uint_text
uint_text_lem junk n lt = elim (Bool-cases (n == 0)) [
  | inl end ↦ (48 ∷ [], rw end refl, ground (arith, end))
  | inr more ↦
      let digits = dec_digits_lem 10 n [] lt in (digits.0, rw (more, digits.1) refl, digits.2)
]

-- ===== src/Splash/Tests.antt =====
-- Concrete runs of the definitions of Splash.
use system_operative_edit.Base.{
  ℕ, ◌+◌, ◌*◌, ◌/◌, ◌≤◌, ◌<◌, ◌≡◌, refl, some, arith, ltb, if◌then◌else◌, [], ◌∷◌,
}
use system_operative_edit.Splash.Palette.{setup_palette}
use system_operative_edit.Splash.Root.{isqrt, newton, isqrt_lem}
use system_operative_edit.Splash.Bar.{draw_bar, show_splash, uint_text}
use system_operative_edit.Splash.Bar.Shown.{draw_bar_lem}
use system_operative_edit.Splash.Bounds.{show_splash_outside, show_splash_coloured}
use system_operative_edit.Loader.Video.{dec_digits}

abbrev blank : ℕ → ℕ
blank o = 0

abbrev sevens : ℕ → ℕ
sevens i = 7

isqrt_10 : isqrt 10 ≡ some 3
unfolding isqrt newton
isqrt_10 = refl

isqrt_square : isqrt 1936 ≡ some 44
unfolding isqrt newton
isqrt_square = refl

-- The digits of 40 and a byte that is not set.
uint_text_40 : uint_text 7 40 ≡ some (52 ∷ 48 ∷ 7 ∷ [])
unfolding uint_text dec_digits
uint_text_40 = refl

isqrt_lem_example : (r : ℕ) × (isqrt 1905 ≡ some r) × (r * r ≤ 1905) × (1905 < (r + 1) * (r + 1))
isqrt_lem_example = isqrt_lem 1905 (omega arith)

draw_bar_lem_example :
    (m : ℕ → ℕ) × (draw_bar 2 5 blank ≡ some m)
    × ((k l : ℕ)
        → k < 200
        → l < 9
        → m ((163 + l) * 320 + (60 + k))
          ≡ (if ltb k (200 * 2 / 5) then 10 else if ltb k (200 * 2 / 5 + 2) then 3 else 1))
draw_bar_lem_example = draw_bar_lem 2 5 blank (omega arith) (omega arith) (omega arith)

show_splash_outside_example :
    (m : ℕ → ℕ) × (show_splash sevens blank ≡ some m) × ((o : ℕ) → 64000 ≤ o → m o ≡ blank o)
show_splash_outside_example = show_splash_outside sevens blank

show_splash_coloured_example :
    (m : ℕ → ℕ) × (show_splash sevens blank ≡ some m)
    × ((o : ℕ) → o < 64000 → (p q : ℕ → ℕ × ℕ × ℕ) → setup_palette p (m o) ≡ setup_palette q (m o))
show_splash_coloured_example = show_splash_coloured sevens blank

-- A font whose glyph of the character `ch` has the byte `ch` in every row.
abbrev flat_font : ℕ → ℕ → ℕ
flat_font ch row = ch

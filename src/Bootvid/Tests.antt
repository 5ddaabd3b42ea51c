-- ===== src/Bootvid/Tests.antt =====
-- The theorems on the boot loader's graphics at a small display.
use system_operative_edit.Base.{
  ℕ, ◌+◌, ◌/◌, ◌%◌, ◌<◌, ◌≡◌, refl, true, false, ◌&&◌, ltb, leb, if◌then◌else◌,
}
use system_operative_edit.Base.Int.{pos}
use system_operative_edit.Bootvid.{Display, rgb, fade_screen, draw_rect}
use system_operative_edit.Bootvid.Fade.{fade_screen_lem}
use system_operative_edit.Bootvid.Rect.{draw_rect_lem}

abbrev display : Display
display = record { active = true; saved_mode = 3; memory = λ n. 0; palette = λ j. rgb 63 j 0 }

fade_screen_lem_example :
    let shown = fade_screen true 8 display in
    let dark = fade_screen false 8 display in
    (shown.memory ≡ display.memory)
    × (dark.memory ≡ display.memory)
    × ((j : ℕ) → j < 256 → shown.palette j ≡ display.palette j)
    × ((j : ℕ) → j < 256 → dark.palette j ≡ rgb (63 / 8) (j / 8) (0 / 8))
fade_screen_lem_example = fade_screen_lem 7 display refl

draw_rect_lem_example :
    (draw_rect (pos 310) (pos 195) (pos 100) (pos 100) 4 display).memory 64000 ≡ (
      if ((leb 195 (64000 / 320) && ltb (64000 / 320) (195 + 100)) && ltb (64000 / 320) 200)
        && (leb 310 (64000 % 320) && ltb (64000 % 320) (310 + 100))
      then 4
      else 0)
draw_rect_lem_example = draw_rect_lem 310 195 100 100 4 64000 display refl

-- ===== src/Splash/Palette.antt =====
-- The palette of boot_splash.c. It is a function from a colour to its red, green and blue components, from
-- 0 to 63; the DAC of the VGA, which the code writes to, keeps it.
use system_operative_edit.Base.{ℕ, update}

unfoldable pub dac_set : (idx r g b : ℕ) → (ℕ → ℕ × ℕ × ℕ) → ℕ → ℕ × ℕ × ℕ
dac_set idx r g b p = update p idx (r, g, b)

unfoldable pub setup_palette : (ℕ → ℕ × ℕ × ℕ) → ℕ → ℕ × ℕ × ℕ
setup_palette p =
    let blues : ℕ → ℕ × ℕ × ℕ = dac_set 2 0 15 47 (dac_set 1 0 7 37 (dac_set 0 0 0 0 p)) in
    let greys : ℕ → ℕ × ℕ × ℕ =
      dac_set 8 15 15 15 (dac_set 7 40 40 40 (dac_set 4 63 62 30 (dac_set 3 63 54 0 blues))) in
    let greens : ℕ → ℕ × ℕ × ℕ = dac_set 11 20 60 20 (dac_set 10 0 48 0 greys) in
    dac_set 21 0 25 50 (dac_set 20 0 20 40 (dac_set 15 63 63 63 greens))

-- ===== src/Input/Tests.antt =====
-- Runs of the mouse driver, and its theorems at inputs that meet their hypotheses.
use system_operative_edit.Base.{◌≡◌, refl, [], ◌∷◌, arith}
use system_operative_edit.Base.Int.{pos, ◌+ℤ◌, ◌-ℤ◌}
use system_operative_edit.Input.{initial, mouse_read, apply_packet, clamp_low, clamp_high}
use system_operative_edit.Input.Clamp.{OnScreen, mouse_read-OnScreen}

-- 5 to the left, 3 up, left button.
moved :
    mouse_read (9 ∷ 251 ∷ 3 ∷ []) initial
    ≡ (record { x = pos 315; y = pos 237; buttons = 1; visible = 1 }, [])
unfolding mouse_read apply_packet clamp_low clamp_high ◌+ℤ◌ ◌-ℤ◌
moved = refl

mouse_read-OnScreen_example : OnScreen (mouse_read (8 ∷ 127 ∷ 128 ∷ []) initial).0
mouse_read-OnScreen_example = mouse_read-OnScreen (8 ∷ 127 ∷ 128 ∷ []) initial (omega arith)

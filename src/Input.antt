-- ===== src/Input.antt =====
-- drivers/input/ps2mouse.c: `MouseRead`. The bytes that the PS/2 controller holds when the function
-- is called are a list, and a test of its status port finds whether one is left. The coordinates are
-- `int32_t`, which cannot overflow here: they stay within the screen.
pub mod Clamp
mod Tests
use system_operative_edit.Base.{ℕ, List, [], ◌∷◌, ◌%◌, if◌then◌else◌, bit_and}
use system_operative_edit.Base.Int.{ℤ, pos, ltb_ℤ, ◌+ℤ◌, ◌-ℤ◌, signed8}

-- `MOUSE_STATE`
pub record Mouse : Type 0 where
  pub x : ℤ
  pub y : ℤ
  pub buttons : ℕ
  pub visible : ℕ

-- `g_mouse` as it is declared, and as `MouseInit` leaves it.
abbrev pub initial : Mouse
initial = record { x = pos 320; y = pos 240; buttons = 0; visible = 1 }

-- The four tests that keep the position on the screen.
unfoldable pub clamp_low : ℤ → ℤ
clamp_low a = if ltb_ℤ a (pos 0) then pos 0 else a

unfoldable pub clamp_high : ℤ → ℤ → ℤ
clamp_high m a = if ltb_ℤ m a then m else a

-- A whole packet: the flags and the two movements.
unfoldable pub apply_packet : (flags dx dy : ℕ) → Mouse → Mouse
apply_packet flags dx dy m = record m {
  x = clamp_high (pos 631) (clamp_low (m.x +ℤ signed8 dx));
  y = clamp_high (pos 468) (clamp_low (m.y -ℤ signed8 dy));
  buttons = bit_and flags 0x07;
}

-- The new state, and the bytes that are left. A packet that breaks off has been read all the same.
unfoldable pub mouse_read : List ℕ → Mouse → Mouse × List ℕ
mouse_read [] m = (m, [])
mouse_read (flags ∷ []) m = (m, [])
mouse_read (flags ∷ (dx ∷ [])) m = (m, [])
mouse_read (flags ∷ (dx ∷ (dy ∷ rest))) m = (apply_packet flags dx dy m, rest)

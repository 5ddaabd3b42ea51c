-- ===== src/Input/Clamp.antt =====
-- The position of the mouse stays on the screen.
use system_operative_edit.Base.{ℕ, ◌%◌, ◌<◌, ◌≡◌, false, List, [], ◌∷◌, arith}
use system_operative_edit.Base.Bits.{bit_and-low}
use system_operative_edit.Base.Int.{pos, ltb_ℤ, ◌≤ℤ◌, ◌+ℤ◌, ◌-ℤ◌, signed8}
use system_operative_edit.Input.{Mouse, clamp_low, clamp_high, apply_packet, mouse_read}

pub record OnScreen (m : Mouse) : Type 0 where
  pub left : pos 0 ≤ℤ m.x
  pub right : m.x ≤ℤ pos 631
  pub top : pos 0 ≤ℤ m.y
  pub bottom : m.y ≤ℤ pos 468

-- Whatever bytes the controller holds, `MouseRead` keeps the position on the screen.
pub mouse_read-OnScreen :
    (bytes : List ℕ) (m : Mouse) → OnScreen m → OnScreen (mouse_read bytes m).0
unfolding mouse_read apply_packet clamp_low clamp_high
mouse_read-OnScreen [] m v = v
mouse_read-OnScreen (a ∷ []) m v = v
mouse_read-OnScreen (a ∷ (b ∷ [])) m v = v
mouse_read-OnScreen (a ∷ (b ∷ (c ∷ rest))) m v = record {
  left = ground arith;
  right = ground arith;
  top = ground arith;
  bottom = ground arith;
}

-- A packet that stays within the screen moves the position by `dx` to the right and `dy` up, both
-- read as signed bytes, and sets the three buttons.
pub mouse_read_moves :
    (flags dx dy : ℕ) (rest : List ℕ) (m : Mouse)
    → flags < 256
    → pos 0 ≤ℤ m.x +ℤ signed8 dx
    → m.x +ℤ signed8 dx ≤ℤ pos 631
    → pos 0 ≤ℤ m.y -ℤ signed8 dy
    → m.y -ℤ signed8 dy ≤ℤ pos 468
    → mouse_read (flags ∷ (dx ∷ (dy ∷ rest))) m
      ≡ (record m { x = m.x +ℤ signed8 dx; y = m.y -ℤ signed8 dy; buttons = flags % 8 }, rest)
unfolding mouse_read apply_packet clamp_low clamp_high
mouse_read_moves flags dx dy rest m f a b c d =
    let px : ltb_ℤ (m.x +ℤ signed8 dx) (pos 0) ≡ false = ground arith in
    let qx : ltb_ℤ (pos 631) (m.x +ℤ signed8 dx) ≡ false = ground arith in
    let py : ltb_ℤ (m.y -ℤ signed8 dy) (pos 0) ≡ false = ground arith in
    let qy : ltb_ℤ (pos 468) (m.y -ℤ signed8 dy) ≡ false = ground arith in
    rw (px, qx, py, qy, bit_and-low flags f)

-- ===== src/Vga/Text/Glyph.antt =====
-- What a character looks like on the screen.
use system_operative_edit.Base.{
  ℕ, ◌+◌, ◌-◌, ◌<◌, ◌≡◌, refl, ◌∙◌, ◌&&◌, arith, ltb, leb, if◌then◌else◌, get_or,
}
use system_operative_edit.Base.Int.{pos}
use system_operative_edit.Vga.{Vga, has_bit, get_pixel}
use system_operative_edit.Vga.Pixel.{IsMode, Synced}
use system_operative_edit.Vga.Box.{box_rows-Draws}
use system_operative_edit.Vga.Text.{glyph_of, glyph_color, draw_char}

-- `VgaDrawChar` with its left upper corner at coordinates that are not negative, with the planes in
-- step with the picture, shows the character: in the eight by eight pixels there, as far as they are
-- on the screen, those of the glyph have the foreground colour and the others the background colour,
-- with the lowest bit of a row on the left; no other pixel changes.
pub draw_char_lem :
    (x y c fg bg : ℕ) (s : Vga)
    → IsMode s
    → Synced s
    → let t = draw_char (pos x) (pos y) c fg bg s in
      Synced t
      × ((px py : ℕ)
          → px < 640
          → py < 480
          → get_pixel (pos px) (pos py) t ≡ (
              if (leb y py && ltb py (y + 8)) && (leb x px && ltb px (x + 8))
              then (if has_bit (get_or (glyph_of c) (py - y) 0) (px - x) then fg else bg)
              else get_pixel (pos px) (pos py) s))
unfolding draw_char
draw_char_lem x y c fg bg s mode synced =
    let g : ℕ → ℕ → ℕ = λ px py. get_pixel (pos px) (pos py) s in
    let d =
      box_rows-Draws 8 0 8 x y (glyph_color (glyph_of c) fg bg) g s
        (mode, synced, λ px py lx ly. refl) in
    (d.1, λ px py lx ly. d.2 px py lx ly ∙ ground arith)

-- ===== src/Vga/Tests.antt =====
-- The theorems on the screen at a black screen, and runs.
use system_operative_edit.Base.{
  some, ℕ, zero, suc, ◌-◌, ◌%◌, ◌<◌, ◌≡◌, refl, true, false, ◌&&◌, arith, ltb, leb, if◌then◌else◌,
  get_or,
}
use system_operative_edit.Base.Bits.{bit_at_empty}
use system_operative_edit.Base.Int.{negsuc, pos, ◌+ℤ◌, ◌-ℤ◌}
use system_operative_edit.Vga.Text.{glyph_of, draw_char}
use system_operative_edit.Vga.Text.Glyph.{draw_char_lem}
use system_operative_edit.Vga.Cursor.{Cursor, cursor_draw, cursor_erase}
use system_operative_edit.Vga.Cursor.Restore.{cursor_erase-cursor_draw}
use system_operative_edit.Vga.{
  has_bit, Vga, get_pixel, put_pixel, fill_rect, fill_rows, fill_row_at, fill_row, fill_head,
  fill_blocks, fill_tail, write_run, run_planes, write_byte, write_mask, byte_offset, paint,
  paint_cols, paint_rows,
}
use system_operative_edit.Vga.Line.{draw_line}
use system_operative_edit.Vga.Line.Steps.{draw_line_lem}
use system_operative_edit.Vga.Pixel.{lit, Synced}
use system_operative_edit.Vga.Fill.Rect.{Alike, plot_rows, fill_rect-plot_rows}

abbrev black : Vga
black = record {
  ready = true;
  screen_width = 640;
  screen_height = 480;
  map_mask = 15;
  planes = λ p i. 0;
  shadow = λ n. 0;
}

black-Synced : Synced black
black-Synced zero x y lp lx ly = rw (bit_at_empty (7 - x % 8) (omega arith)) refl
black-Synced (suc zero) x y lp lx ly = rw (bit_at_empty (7 - x % 8) (omega arith)) refl
black-Synced (suc (suc zero)) x y lp lx ly = rw (bit_at_empty (7 - x % 8) (omega arith)) refl
black-Synced (suc (suc (suc zero))) x y lp lx ly = rw (bit_at_empty (7 - x % 8) (omega arith)) refl
black-Synced (suc (suc (suc (suc p)))) x y lp lx ly = absurd (omega (arith, lp))

fill_rect-plot_rows_example :
    Alike
      (fill_rect (pos 5) (pos 7) (pos 30) (pos 2) 3 black)
      (plot_rows 2 0 30 (pos 5) (pos 7) 3 black)
fill_rect-plot_rows_example =
    fill_rect-plot_rows 5 7 30 2 3 black (refl, refl, refl) black-Synced (omega arith) (omega arith)
      (omega arith) (omega arith)

-- A rectangle to the right of the screen is drawn at the left end of the next row, and the picture
-- does not have it.
beyond : Vga
beyond = fill_rect (pos 640) (pos 0) (pos 8) (pos 1) 15 black

beyond_shown : (lit beyond 0 0 1 ≡ true) × (get_pixel (pos 0) (pos 1) beyond ≡ 0)
unfolding beyond get_pixel put_pixel fill_rect fill_rows fill_row_at fill_row fill_head fill_blocks
    fill_tail write_run run_planes write_byte write_mask byte_offset paint paint_cols paint_rows
    ◌+ℤ◌ ◌-ℤ◌
beyond_shown = (refl, refl)

draw_char_lem_example :
    let t = draw_char (pos 20) (pos 30) b'A' 15 1 black in
    Synced t
    × ((px py : ℕ)
        → px < 640
        → py < 480
        → get_pixel (pos px) (pos py) t ≡ (
            if (leb 30 py && ltb py 38) && (leb 20 px && ltb px 28)
            then (if has_bit (get_or (glyph_of b'A') (py - 30) 0) (px - 20) then 15 else 1)
            else get_pixel (pos px) (pos py) black))
draw_char_lem_example = draw_char_lem 20 30 b'A' 15 1 black (refl, refl, refl) black-Synced

abbrev arrow : Cursor
arrow = record { bg = λ n. 0; saved_x = negsuc 0; saved_y = negsuc 0; invert = false }

cursor_erase-cursor_draw_example :
    let t = (cursor_erase (pos 636) (pos 100) (cursor_draw (pos 636) (pos 100) (arrow, black))).1 in
    Synced t
    × ((px py : ℕ)
        → px < 640
        → py < 480
        → get_pixel (pos px) (pos py) t ≡ get_pixel (pos px) (pos py) black)
cursor_erase-cursor_draw_example =
    cursor_erase-cursor_draw 636 100 arrow black (refl, refl, refl) black-Synced (omega arith)

draw_line_lem_example :
    (w : Vga) × (draw_line (pos 5) (pos 9) (pos 2) (pos 10) 7 black
      ≡ some (put_pixel (pos 2) (pos 10) 7 w))
draw_line_lem_example =
    draw_line_lem (pos 5) (pos 9) (pos 2) (pos 10) 7 black (omega arith, omega arith)
      (omega arith, omega arith) (omega arith, omega arith) (omega arith, omega arith) refl

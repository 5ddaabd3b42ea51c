-- ===== src/Screen/Scroll.antt =====
-- The loops over the text buffer, cell by cell.
use system_operative_edit.Base.{
  ℕ, zero, suc, ◌+◌, ◌*◌, ◌≤◌, ◌≡◌, refl, ◌&&◌, arith, ltb, leb, if◌then◌else◌, update,
}
use system_operative_edit.Screen.{
  Screen, fill_cells, clear_rows, copy_row, copy_rows, scroll, clear, vga_entry,
}

pub fill_cells_lem :
    (r i v : ℕ) (buf : ℕ → ℕ) (j : ℕ)
    → fill_cells r i v buf j ≡ (if leb i j && ltb j (i + r) then v else buf j)
unfolding fill_cells
fill_cells_lem zero i v buf j = ground arith
fill_cells_lem (suc r) i v buf j = ground (arith, fill_cells_lem r (i + 1) v (update buf i v) j)

clear_rows_lem :
    (r y v : ℕ) (buf : ℕ → ℕ) (j : ℕ)
    → clear_rows r y v buf j ≡ (if leb (y * 80) j && ltb j ((y + r) * 80) then v else buf j)
unfolding clear_rows
clear_rows_lem zero y v buf j = ground arith
clear_rows_lem (suc r) y v buf j = ground (
  arith,
  clear_rows_lem r (y + 1) v (fill_cells 80 (y * 80) v buf) j,
  fill_cells_lem 80 (y * 80) v buf j,
)

copy_row_lem :
    (r y x : ℕ) (buf : ℕ → ℕ) (j : ℕ)
    → r + x ≤ 80
    → copy_row r y x buf j
      ≡ (if leb (y * 80 + x) j && ltb j (y * 80 + x + r) then buf (j + 80) else buf j)
unfolding copy_row
copy_row_lem zero y x buf j h = ground arith
copy_row_lem (suc r) y x buf j h =
    let at : (y + 1) * 80 + x ≡ y * 80 + x + 80 = omega arith in
    rw at
      (ground (arith, copy_row_lem r y (x + 1) (update buf (y * 80 + x) (buf (y * 80 + x + 80))) j))

copy_rows_lem :
    (r y : ℕ) (buf : ℕ → ℕ) (j : ℕ)
    → copy_rows r y buf j ≡ (if leb (y * 80) j && ltb j ((y + r) * 80) then buf (j + 80) else buf j)
unfolding copy_rows
copy_rows_lem zero y buf j = ground arith
copy_rows_lem (suc r) y buf j = ground (
  arith,
  copy_rows_lem r (y + 1) (copy_row 80 y 0 buf) j,
  copy_row_lem 80 y 0 buf j,
  copy_row_lem 80 y 0 buf (j + 80),
)

-- After `screen_clear` each of the 2000 cells is a blank in the current colour, no memory behind the
-- screen is written, and the cursor is at the top left.
pub clear_lem :
    (s : Screen) (j : ℕ)
    → ((clear s).buffer j ≡ (if ltb j 2000 then vga_entry 32 s.color else s.buffer j))
      × ((clear s).row ≡ 0)
      × ((clear s).col ≡ 0)
unfolding clear
clear_lem s j = (ground (arith, clear_rows_lem 25 0 (vga_entry 32 s.color) s.buffer j), refl, refl)

-- `screen_scroll` moves every row one up, blanks the last one in the current colour, and writes no
-- memory behind the screen.
pub scroll_lem :
    (s : Screen) (j : ℕ)
    → (scroll s).buffer j ≡ (
        if ltb j 1920
        then s.buffer (j + 80)
        else if ltb j 2000
        then vga_entry 32 s.color
        else s.buffer j)
unfolding scroll
scroll_lem s j = ground (
  arith,
  fill_cells_lem 80 1920 (vga_entry 32 s.color) (copy_rows 24 0 s.buffer) j,
  copy_rows_lem 24 0 s.buffer j,
)

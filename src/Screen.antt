-- ===== src/Screen.antt =====
-- kernel/screen.c: the text console of the kernel. The VGA text buffer is a function from cell index
-- to cell, and the static variables are the other fields of `Screen`. A `char` is its byte.
pub mod Scroll
pub mod Write
mod Tests
use system_operative_edit.Base.{
  ℕ, zero, suc, ◌+◌, ◌-◌, ◌*◌, ◌%◌, List, [], ◌∷◌, bit_or, leb, ◌==◌, if◌then◌else◌, update,
}

abbrev pub screen_width : ℕ
screen_width = 80

abbrev pub screen_height : ℕ
screen_height = 25

pub record Screen : Type 0 where
  pub buffer : ℕ → ℕ
  pub row : ℕ
  pub col : ℕ
  pub color : ℕ

-- `(uint16_t)uc | (uint16_t)color << 8`
unfoldable pub vga_entry : ℕ → ℕ → ℕ
vga_entry uc color = bit_or uc (color * 256)

-- The result is cut to a byte.
unfoldable pub vga_entry_color : ℕ → ℕ → ℕ
vga_entry_color fg bg = bit_or fg (bg * 16) % 256

-- Light grey on black.
unfoldable pub init : Screen → Screen
init s = record s { row = 0; col = 0; color = vga_entry_color 7 0 }

-- A loop that writes `v` to `r` cells from `i` on.
unfoldable pub fill_cells : ℕ → ℕ → ℕ → (ℕ → ℕ) → ℕ → ℕ
fill_cells zero i v buf = buf
fill_cells (suc r) i v buf = fill_cells r (i + 1) v (update buf i v)

-- The nested loops of `screen_clear`, from row `y` on.
unfoldable pub clear_rows : ℕ → ℕ → ℕ → (ℕ → ℕ) → ℕ → ℕ
clear_rows zero y v buf = buf
clear_rows (suc r) y v buf =
    clear_rows r (y + 1) v (fill_cells screen_width (y * screen_width) v buf)

unfoldable pub clear : Screen → Screen
clear s = record s {
  buffer = clear_rows screen_height 0 (vga_entry 32 s.color) s.buffer;
  row = 0;
  col = 0;
}

unfoldable pub set_color : ℕ → ℕ → Screen → Screen
set_color fg bg s = record s { color = vga_entry_color fg bg }

-- The inner loop of `screen_scroll`: row `y` from column `x` on is copied from the row below.
unfoldable pub copy_row : ℕ → ℕ → ℕ → (ℕ → ℕ) → ℕ → ℕ
copy_row zero y x buf = buf
copy_row (suc r) y x buf =
    copy_row r y (x + 1) (update buf (y * screen_width + x) (buf ((y + 1) * screen_width + x)))

unfoldable pub copy_rows : ℕ → ℕ → (ℕ → ℕ) → ℕ → ℕ
copy_rows zero y buf = buf
copy_rows (suc r) y buf = copy_rows r (y + 1) (copy_row screen_width y 0 buf)

unfoldable pub scroll : Screen → Screen
scroll s = record s {
  buffer =
      fill_cells screen_width ((screen_height - 1) * screen_width) (vga_entry 32 s.color)
        (copy_rows (screen_height - 1) 0 s.buffer);
  row = screen_height - 1;
}

-- The first test: a newline, or a character that takes a cell.
unfoldable pub put_cell : ℕ → Screen → Screen
put_cell c s = if c == 10 then record s { col = 0; row = s.row + 1 } else record s {
  buffer = update s.buffer (s.row * screen_width + s.col) (vga_entry c s.color);
  col = s.col + 1;
}

unfoldable pub wrap_line : Screen → Screen
wrap_line s = if leb screen_width s.col then record s { col = 0; row = s.row + 1 } else s

unfoldable pub putchar : ℕ → Screen → Screen
putchar c s = let t = wrap_line (put_cell c s) in if leb screen_height t.row then scroll t else t

-- The characters before the terminator.
unfoldable pub write : List ℕ → Screen → Screen
write [] s = s
write (c ∷ cs) s = write cs (putchar c s)

unfoldable pub writeln : List ℕ → Screen → Screen
writeln cs s = putchar 10 (write cs s)

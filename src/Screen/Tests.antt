-- ===== src/Screen/Tests.antt =====
-- Runs of the console, and its theorems at inputs that meet their hypotheses.
use system_operative_edit.Base.{◌≡◌, refl}
use system_operative_edit.Screen.{
  Screen, vga_entry, vga_entry_color, init, putchar, put_cell, wrap_line, fill_cells, scroll,
  copy_row, copy_rows,
}

-- An `x` in each cell, and the cursor in the last one.
abbrev full : Screen
full = record { buffer = λ j. 0x0778; row = 24; col = 79; color = 7 }

wrote : (putchar b'A' full).buffer 1919 ≡ 0x0741
unfolding putchar put_cell wrap_line scroll fill_cells copy_rows copy_row vga_entry
wrote = refl

light_grey : (init full).color ≡ 7
unfolding init vga_entry_color
light_grey = refl

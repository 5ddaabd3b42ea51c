-- ===== src/Vga/Cursor.antt =====
-- drivers/video/vga/vga_cursor.c: the arrow of the mouse, drawn over the picture and taken off again.
pub mod Restore
use system_operative_edit.Base.{
  ℕ, zero, suc, ◌+◌, ◌-◌, ◌*◌, ◌/◌, ◌%◌, ◌^◌, ◌≤◌, ◌<◌, min, max, bit_and, bit_or, bit_xor, ◌≡◌,
  refl, sym, ap, ◌∙◌, fun_ext, ◌≢◌, ◌↔◌, ◌⊎◌, inl, inr, Bool, true, false, not, ◌&&◌, ◌||◌, Option,
  none, some, List, [], ◌∷◌, ◌++◌, map, arith, ltb, leb, ◌==◌, if◌then◌else◌, Bool-cases,
  Option-cases, ltb→lt, lt→ltb, leb→le, ==_iff, add32, sub32, update, length, get_elem?, get_or,
  last_from, length-append, last_from-append, has, Distinct, has-append, Distinct-append,
}
use system_operative_edit.Base.Int.{ℤ, pos, negsuc, ◌+ℤ◌}
use system_operative_edit.Vga.{Vga, get_pixel}
use system_operative_edit.Vga.Box.{box_rows}

abbrev pub cursor_width : ℕ
cursor_width = 8

abbrev pub cursor_height : ℕ
cursor_height = 12

-- `g_cursor_bg`, `g_cursor_saved_x`, `g_cursor_saved_y` and `g_cursor_invert`
pub record Cursor : Type 0 where
  pub bg : ℕ → ℕ
  pub saved_x : ℤ
  pub saved_y : ℤ
  pub invert : Bool

unfoldable pub cursor_bitmap : List (List ℕ)
cursor_bitmap =
    (1 ∷ 0 ∷ 0 ∷ 0 ∷ 0 ∷ 0 ∷ 0 ∷ 0 ∷ [])
    ∷ (1 ∷ 1 ∷ 0 ∷ 0 ∷ 0 ∷ 0 ∷ 0 ∷ 0 ∷ [])
    ∷ (1 ∷ 2 ∷ 1 ∷ 0 ∷ 0 ∷ 0 ∷ 0 ∷ 0 ∷ [])
    ∷ (1 ∷ 2 ∷ 2 ∷ 1 ∷ 0 ∷ 0 ∷ 0 ∷ 0 ∷ [])
    ∷ (1 ∷ 2 ∷ 2 ∷ 2 ∷ 1 ∷ 0 ∷ 0 ∷ 0 ∷ [])
    ∷ (1 ∷ 2 ∷ 2 ∷ 2 ∷ 2 ∷ 1 ∷ 0 ∷ 0 ∷ [])
    ∷ (1 ∷ 2 ∷ 2 ∷ 2 ∷ 2 ∷ 2 ∷ 1 ∷ 0 ∷ [])
    ∷ (1 ∷ 2 ∷ 2 ∷ 2 ∷ 1 ∷ 1 ∷ 0 ∷ 0 ∷ [])
    ∷ (1 ∷ 2 ∷ 1 ∷ 2 ∷ 1 ∷ 0 ∷ 0 ∷ 0 ∷ [])
    ∷ (1 ∷ 1 ∷ 0 ∷ 1 ∷ 2 ∷ 1 ∷ 0 ∷ 0 ∷ [])
    ∷ (0 ∷ 0 ∷ 0 ∷ 1 ∷ 2 ∷ 1 ∷ 0 ∷ 0 ∷ [])
    ∷ (0 ∷ 0 ∷ 0 ∷ 0 ∷ 1 ∷ 1 ∷ 0 ∷ 0 ∷ [])
    ∷ []

unfoldable pub cursor_init : Cursor → Cursor
cursor_init c = record c { saved_x = negsuc 0; saved_y = negsuc 0 }

unfoldable pub toggle_invert : Cursor → Cursor
toggle_invert c = record c { invert = not c.invert }

-- The loops that save the picture below the arrow.
unfoldable pub save_cols : (r col row : ℕ) → (x y : ℤ) → Vga → (ℕ → ℕ) → ℕ → ℕ
save_cols zero col row x y s bg = bg
save_cols (suc r) col row x y s bg =
    save_cols r (col + 1) row x y s
      (update bg (row * cursor_width + col) (get_pixel (x +ℤ pos col) (y +ℤ pos row) s))

unfoldable pub save_rows : (r row : ℕ) → (x y : ℤ) → Vga → (ℕ → ℕ) → ℕ → ℕ
save_rows zero row x y s bg = bg
save_rows (suc r) row x y s bg = save_rows r (row + 1) x y s (save_cols cursor_width 0 row x y s bg)

-- A pixel of the arrow: 1 is the border, 2 the inside, 0 leaves the picture.
unfoldable pub arrow_color : (invert : Bool) → (row col : ℕ) → Option ℕ
arrow_color invert row col =
    let pixel = get_or (get_or cursor_bitmap row []) col 0 in
    if pixel == 1
    then some (if invert then 0 else 15)
    else if pixel == 2
    then some (if invert then 15 else 0)
    else none

unfoldable pub cursor_draw : (x y : ℤ) → Cursor × Vga → Cursor × Vga
cursor_draw x y (c, s) = (
  record c { bg = save_rows cursor_height 0 x y s c.bg; saved_x = x; saved_y = y },
  box_rows cursor_height 0 cursor_width x y (arrow_color c.invert) s,
)

-- The saved picture is put back, unless the arrow is above or left of the screen, or in the task bar.
unfoldable pub cursor_erase : (x y : ℤ) → Cursor × Vga → Cursor × Vga
cursor_erase (negsuc x) y (c, s) = (c, s)
cursor_erase (pos x) (negsuc y) (c, s) = (c, s)
cursor_erase (pos x) (pos y) (c, s) = if leb 470 y then (c, s) else (
  c,
  box_rows cursor_height 0 cursor_width (pos x) (pos y)
      (λ row col. some (c.bg (row * cursor_width + col))) s,
)

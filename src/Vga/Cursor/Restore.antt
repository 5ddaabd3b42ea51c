-- ===== src/Vga/Cursor/Restore.antt =====
-- Erasing the arrow restores the picture.
use system_operative_edit.Base.{
  ℕ, zero, suc, ◌+◌, ◌-◌, ◌*◌, ◌/◌, ◌%◌, ◌≤◌, ◌<◌, ◌≡◌, refl, ap, ◌∙◌, inl, inr, true, false, ◌&&◌,
  some, arith, ltb, leb, ◌==◌, if◌then◌else◌, Bool-cases, update,
}
use system_operative_edit.Base.Int.{pos, ◌+ℤ◌}
use system_operative_edit.Vga.{Vga, get_pixel}
use system_operative_edit.Vga.Pixel.{IsMode, Synced}
use system_operative_edit.Vga.Fill.{pos_add}
use system_operative_edit.Vga.Box.{box_rows, box_picture, box_rows-Draws}
use system_operative_edit.Vga.Cursor.{
  Cursor, save_cols, save_rows, arrow_color, cursor_draw, cursor_erase, cursor_width,
}

-- The pixel that item `n` of the saved picture comes from.
abbrev below : (x y : ℕ) → Vga → ℕ → ℕ
below x y s n = get_pixel (pos (x + n % 8)) (pos (y + n / 8)) s

get_pixel_at :
    (x y col row n : ℕ) (s : Vga)
    → n ≡ row * 8 + col
    → col < 8
    → get_pixel (pos x +ℤ pos col) (pos y +ℤ pos row) s ≡ below x y s n
get_pixel_at x y col row n s e lt =
    let a : pos x +ℤ pos col ≡ pos (x + n % 8) = pos_add x col ∙ ap pos (omega (arith, e, lt)) in
    let b : pos y +ℤ pos row ≡ pos (y + n / 8) = pos_add y row ∙ ap pos (omega (arith, e, lt)) in
    ap (λ z. get_pixel z (pos y +ℤ pos row) s) a ∙ ap (λ z. get_pixel (pos (x + n % 8)) z s) b

save_cols_lem :
    (r col row x y : ℕ) (s : Vga) (bg : ℕ → ℕ) (n : ℕ)
    → col + r ≤ 8
    → save_cols r col row (pos x) (pos y) s bg n
      ≡ (if leb (row * 8 + col) n && ltb n (row * 8 + col + r) then below x y s n else bg n)
unfolding save_cols
save_cols_lem zero col row x y s bg n le = ground arith
save_cols_lem (suc r) col row x y s bg n le =
    let v = get_pixel (pos x +ℤ pos col) (pos y +ℤ pos row) s in
    let ih =
      save_cols_lem r (col + 1) row x y s (update bg (row * cursor_width + col) v) n
        (omega (arith, le)) in
    elim (Bool-cases (n == row * 8 + col)) [
      | inl here ↦
          let at = get_pixel_at x y col row n s (ground (arith, here)) (omega (arith, le)) in
          ih ∙ ground (arith, here, at)
      | inr there ↦ ih ∙ ground (arith, there)
    ]

save_rows_lem :
    (r row x y : ℕ) (s : Vga) (bg : ℕ → ℕ) (n : ℕ)
    → save_rows r row (pos x) (pos y) s bg n
      ≡ (if leb (row * 8) n && ltb n ((row + r) * 8) then below x y s n else bg n)
unfolding save_rows
save_rows_lem zero row x y s bg n = ground arith
save_rows_lem (suc r) row x y s bg n =
    let cols = save_cols_lem 8 0 row x y s bg n (omega arith) in
    save_rows_lem r (row + 1) x y s (save_cols cursor_width 0 row (pos x) (pos y) s bg) n
    ∙ ground (arith, cols)

-- The picture with the arrow, and the saved pixels over it.
restored_lem :
    (x y : ℕ) (c : Cursor) (s : Vga) (px py : ℕ)
    → box_picture 12 0 8 x y
        (λ row col. some (save_rows 12 0 (pos x) (pos y) s c.bg (row * 8 + col)))
        (box_picture 12 0 8 x y (arrow_color c.invert) (λ px py. get_pixel (pos px) (pos py) s))
        px
        py
      ≡ get_pixel (pos px) (pos py) s
restored_lem x y c s px py =
    let n = (py - y) * 8 + (px - x) in
    let test = (leb (y + 0) py && ltb py (y + 0 + 12)) && (leb x px && ltb px (x + 8)) in
    let saved = save_rows_lem 12 0 x y s c.bg n in
    elim (Bool-cases test) [
      | inl inside ↦
          let in_table : (leb (0 * 8) n && ltb n ((0 + 12) * 8)) ≡ true = ground (arith, inside) in
          let col : x + n % 8 ≡ px = ground (arith, inside) in
          let row : y + n / 8 ≡ py = ground (arith, inside) in
          rw inside (
            saved
            ∙ ap (λ b. if b then below x y s n else c.bg n) in_table
            ∙ ap (λ z. get_pixel (pos z) (pos (y + n / 8)) s) col
            ∙ ap (λ z. get_pixel (pos px) (pos z) s) row)
      | inr outside ↦ rw outside refl
    ]

-- For an arrow that is not above or left of the screen and whose top is above the task bar, with the
-- planes in step with the picture: `CursorErase` after `CursorDraw` gives every pixel the colour that
-- it had, also where the arrow reaches over the edge, and the planes stay in step.
pub cursor_erase-cursor_draw :
    (x y : ℕ) (c : Cursor) (s : Vga)
    → IsMode s
    → Synced s
    → y < 470
    → let t = (cursor_erase (pos x) (pos y) (cursor_draw (pos x) (pos y) (c, s))).1 in
      Synced t
      × ((px py : ℕ)
          → px < 640
          → py < 480
          → get_pixel (pos px) (pos py) t ≡ get_pixel (pos px) (pos py) s)
unfolding cursor_erase cursor_draw
cursor_erase-cursor_draw x y c s mode synced high =
    let above : leb 470 y ≡ false = ground (arith, high) in
    let g : ℕ → ℕ → ℕ = λ px py. get_pixel (pos px) (pos py) s in
    let arrow = arrow_color c.invert in
    let bg = save_rows 12 0 (pos x) (pos y) s c.bg in
    let drawn = box_rows-Draws 12 0 8 x y arrow g s (mode, synced, λ px py lx ly. refl) in
    let erased =
      box_rows-Draws 12 0 8 x y (λ row col. some (bg (row * 8 + col)))
        (box_picture 12 0 8 x y arrow g) (box_rows 12 0 8 (pos x) (pos y) arrow s) drawn in
    rw above (erased.1, λ px py lx ly. erased.2 px py lx ly ∙ restored_lem x y c s px py)

-- ===== src/Vga/Fill/Paint.antt =====
-- The picture in `g_shadow` after the first loops of `VgaFillRect`.
use system_operative_edit.Base.{
  ℕ, zero, suc, ◌+◌, ◌*◌, ◌≤◌, ◌<◌, ◌≡◌, ◌∙◌, inl, inr, false, ◌&&◌, ◌||◌, arith, ltb, leb, ◌==◌,
  if◌then◌else◌, Bool-cases,
}
use system_operative_edit.Base.Int.{pos}
use system_operative_edit.Vga.{
  paint, paint_cols, paint_rows, shadow_w, shadow_h, shadow_w, shadow_h, paint, paint_cols,
  paint_rows,
}
use system_operative_edit.Vga.Fill.{pos_add, pos_add}

-- The shadow buffer after the first loops.
paint_cols_lem :
    (r col x yy color : ℕ) (sh : ℕ → ℕ) (n : ℕ)
    → x + col + r ≤ 640
    → yy < 480
    → paint_cols r col (pos x) (pos yy) color sh n
      ≡ (if leb (yy * 640 + x + col) n && ltb n (yy * 640 + x + col + r) then color else sh n)
unfolding paint_cols paint
paint_cols_lem zero col x yy color sh n fits on = ground arith
paint_cols_lem (suc r) col x yy color sh n fits on =
    let ih =
      paint_cols_lem r (col + 1) x yy color (paint (pos (x + col)) (pos yy) color sh) n
        (omega (arith, fits)) on in
    rw (pos_add x col) (
      ih
      ∙ (let inside : (leb shadow_w (x + col) || leb shadow_h yy) ≡ false =
            ground (arith, fits, on) in
          rw inside (ground arith)))

-- The same for a pixel of the picture.
paint_row_lem :
    (w x yy color : ℕ) (sh : ℕ → ℕ) (px py : ℕ)
    → x + w ≤ 640
    → yy < 480
    → px < 640
    → paint_cols w 0 (pos x) (pos yy) color sh (py * 640 + px)
      ≡ (if py == yy && (leb x px && ltb px (x + w)) then color else sh (py * 640 + px))
paint_row_lem w x yy color sh px py fits on lx =
    paint_cols_lem w 0 x yy color sh (py * 640 + px) (omega (arith, fits)) on
    ∙ elim (Bool-cases (py == yy)) [
      | inl row ↦ ground (arith, row, fits, lx)
      | inr other ↦ ground (arith, other, fits, lx)
    ]

pub paint_rows_lem :
    (r row w x y color : ℕ) (sh : ℕ → ℕ) (px py : ℕ)
    → x + w ≤ 640
    → y + row + r ≤ 480
    → px < 640
    → paint_rows r row w (pos x) (pos y) color sh (py * 640 + px) ≡ (
        if (leb (y + row) py && ltb py (y + row + r)) && (leb x px && ltb px (x + w))
        then color
        else sh (py * 640 + px))
unfolding paint_rows
paint_rows_lem zero row w x y color sh px py fits on lx = ground arith
paint_rows_lem (suc r) row w x y color sh px py fits on lx =
    let first = paint_cols w 0 (pos x) (pos (y + row)) color sh in
    let ih = paint_rows_lem r (row + 1) w x y color first px py fits (omega (arith, on)) lx in
    let here = paint_row_lem w x (y + row) color sh px py fits (omega (arith, on)) lx in
    rw (pos_add y row) (ih ∙ ground (arith, here))

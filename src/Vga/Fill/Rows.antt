-- ===== src/Vga/Fill/Rows.antt =====
-- The rows of `VgaFillRect`.
use mathlib.Core.Path.{subst}
use system_operative_edit.Base.{
  ℕ, zero, suc, ◌+◌, ◌-◌, ◌*◌, ◌/◌, ◌%◌, ◌≤◌, ◌<◌, ◌≡◌, refl, ap, ◌∙◌, ◌⊎◌, inl, inr, false, not,
  ◌&&◌, arith, leb, ◌==◌, Bool-cases,
}
use system_operative_edit.Base.Int.{ℤ, pos, ◌+ℤ◌, ltb_ℤ}
use system_operative_edit.Vga.{
  Vga, put_pixel, low_bits, fill_head, fill_blocks, fill_tail, fill_row, fill_row_at, fill_rows,
}
use system_operative_edit.Vga.Fill.{Filling, pos_add, pos_sub, plot_step, run_step}

module _ (x0 e y0 y1 color : ℕ) (sh : ℕ → ℕ) (wide : e ≤ 640) (high : y1 ≤ 480)
    (painted : (px py : ℕ)
      → x0 ≤ px
      → px < e
      → y0 ≤ py
      → py < y1
      → sh (py * 640 + px) ≡ color) where
  -- A part of a row is drawn, up to the pixel that the loop has reached.
  abbrev Reached : (y : ℕ) → ℤ × Vga → Type 0
  Reached y (start, w) = (b : ℕ) × (start ≡ pos b) × (x0 ≤ b) × (b ≤ e) × Filling x0 e y1 sh y b w

  -- The next byte is whole, or there is none.
  abbrev ReachedByte : (y : ℕ) → ℤ × Vga → Type 0
  ReachedByte y (start, w) =
      (b : ℕ) × (start ≡ pos b)
      × (x0 ≤ b)
      × (b ≤ e)
      × ((b ≡ e) ⊎ (b % 8 ≡ 0))
      × Filling x0 e y1 sh y b w

  module _ (y : ℕ) (low : y0 ≤ y) (top : y < y1) where
    head_lem :
        (r a : ℕ) (s : Vga)
        → x0 ≤ a
        → a ≤ e
        → e ≤ a + r
        → Filling x0 e y1 sh y a s
        → ReachedByte y (fill_head r (pos a) (pos e) y color s)
    unfolding fill_head
    head_lem zero a s xa ae fuel f = (a, refl, xa, ae, inl (omega (arith, ae, fuel)), f)
    head_lem (suc r) a s xa ae fuel f =
        elim (Bool-cases (ltb_ℤ (pos a) (pos e) && not (low_bits (pos a) == 0))) [
          | inl more ↦
              let lt : a < e = ground (arith, more) in
              let step = plot_step x0 e y0 y1 color sh wide high painted y a s low top xa lt f in
              let ih =
                head_lem r (a + 1) (put_pixel (pos a) (pos y) color s) (omega (arith, xa))
                  (omega (arith, lt)) (omega (arith, fuel)) step in
              rw (pos_add a 1) (rw more ih)
          | inr stop ↦ rw stop (a, refl, xa, ae, ground (arith, stop, ae), f)
        ]

    blocks_lem :
        (b : ℕ) (s : Vga)
        → x0 ≤ b
        → b ≤ e
        → (b ≡ e) ⊎ (b % 8 ≡ 0)
        → Filling x0 e y1 sh y b s
        → Reached y (fill_blocks (pos b) (pos e) y color s)
    unfolding fill_blocks
    blocks_lem b s xb be byte f = elim (Bool-cases (ltb_ℤ (pos e) (pos (b + 8)))) [
      | inl short ↦ rw (pos_add b 8) (rw short (b, refl, xb, be, f))
      | inr long ↦
          let n = (e - b) / 8 in
          let fits : b + n * 8 ≤ e = omega (arith, be) in
          let aligned : b % 8 ≡ 0 = ground (arith, byte, long) in
          rw (pos_add b 8) (
            rw (long, pos_sub e b be)
              (
                b + n * 8,
                pos_add b (n * 8),
                omega (arith, xb),
                fits,
                run_step x0 e y0 y1 color sh wide high painted y b n s low top xb aligned fits f,
              ))
    ]

    tail_lem :
        (r a : ℕ) (s : Vga)
        → x0 ≤ a
        → a ≤ e
        → e ≤ a + r
        → Filling x0 e y1 sh y a s
        → Filling x0 e y1 sh y e (fill_tail r (pos a) (pos e) y color s)
    unfolding fill_tail
    tail_lem zero a s xa ae fuel f =
        subst (λ n. Filling x0 e y1 sh y n s) (omega (arith, ae, fuel)) f
    tail_lem (suc r) a s xa ae fuel f = elim (Bool-cases (ltb_ℤ (pos a) (pos e))) [
      | inl more ↦
          let lt : a < e = ground (arith, more) in
          let step = plot_step x0 e y0 y1 color sh wide high painted y a s low top xa lt f in
          let ih =
            tail_lem r (a + 1) (put_pixel (pos a) (pos y) color s) (omega (arith, xa))
              (omega (arith, lt)) (omega (arith, fuel)) step in
          rw (pos_add a 1) (rw more ih)
      | inr stop ↦ rw stop (subst (λ n. Filling x0 e y1 sh y n s) (ground (arith, ae, stop)) f)
    ]

    blocks_from : (z : ℤ × Vga) → ReachedByte y z → Reached y (fill_blocks z.0 (pos e) y color z.1)
    blocks_from (start, s) (b, eq, xb, be, byte, f) = rw eq (blocks_lem b s xb be byte f)

    tail_from :
        (w : ℕ)
        → x0 + w ≡ e
        → (z : ℤ × Vga) → Reached y z
        → Filling x0 e y1 sh y e (fill_tail w z.0 (pos e) y color z.1)
    tail_from w end (start, s) (b, eq, xb, be, f) =
        rw eq (tail_lem w b s xb be (omega (arith, end, xb)) f)

    row_lem :
        (w : ℕ) (s : Vga)
        → x0 + w ≡ e
        → Filling x0 e y1 sh y x0 s
        → Filling x0 e y1 sh y e (fill_row (pos x0) w y color s)
    unfolding fill_row
    row_lem w s end f =
        let to_end : pos x0 +ℤ pos w ≡ pos e = pos_add x0 w ∙ ap pos end in
        let head = head_lem w x0 s (omega arith) (omega (arith, end)) (omega (arith, end)) f in
        rw to_end (tail_from w end _ (blocks_from _ head))

    row_at_lem :
        (w : ℕ) (s : Vga)
        → x0 + w ≡ e
        → Filling x0 e y1 sh y x0 s
        → Filling x0 e y1 sh (y + 1) x0 (fill_row_at (pos x0) (pos y) w color s)
    unfolding fill_row_at
    row_at_lem w s end f =
        let g = row_lem w s end f in
        let on : leb s.screen_height y ≡ false = ground (arith, f.mode.2, top, high) in
        rw on record {
          mode = g.mode;
          shadow = g.shadow;
          shown = λ p px py lp lx ly done. g.shown p px py lp lx ly (ground (arith, done));
        }

  pub rows_lem :
      (r row w : ℕ) (s : Vga)
      → y0 + row + r ≡ y1
      → x0 + w ≡ e
      → Filling x0 e y1 sh (y0 + row) x0 s
      → Filling x0 e y1 sh y1 x0 (fill_rows r row (pos x0) (pos y0) w color s)
  unfolding fill_rows
  rows_lem zero row w s last end f = subst (λ n. Filling x0 e y1 sh n x0 s) (omega (arith, last)) f
  rows_lem (suc r) row w s last end f =
      let g = row_at_lem (y0 + row) (omega arith) (omega (arith, last)) w s end f in
      let assoc : y0 + row + 1 ≡ y0 + (row + 1) = omega arith in
      rw (pos_add y0 row) (
        rows_lem r (row + 1) w (fill_row_at (pos x0) (pos (y0 + row)) w color s)
          (omega (arith, last)) end
          (subst (λ n. Filling x0 e y1 sh n x0 (fill_row_at (pos x0) (pos (y0 + row)) w color s))
            assoc g))

-- ===== src/Splash/Rect.antt =====
-- What `fill_rect` and `rect_outline` of boot_splash.c leave in a pixel of the screen.
use system_operative_edit.Base.{
  ℕ, zero, suc, ◌+◌, ◌*◌, ◌<◌, ◌≡◌, refl, ap, ◌∙◌, inl, inr, false, ◌&&◌, ◌||◌, arith, ltb, leb,
  ◌==◌, if◌then◌else◌, Bool-cases,
}
use system_operative_edit.Base.Int.{pos, ◌+ℤ◌, ◌-ℤ◌}
use system_operative_edit.Splash.{
  px, fill_cols, fill_rows, fill_rect, outline_cols, outline_rows, rect_outline, vga13_w, vga13_h,
}

pub pos_plus : (a b : ℕ) → pos a +ℤ pos b ≡ pos (a + b)
unfolding ◌+ℤ◌
pos_plus a b = ground arith

-- Inside a section a pixel of the screen is at the column `X` and the row `Y`.
module _ (X Y : ℕ) (X_on : X < 320) (Y_on : Y < 200) where
  pub px_at :
      (x y c : ℕ) (m : ℕ → ℕ)
      → px (pos x) (pos y) c m (Y * 320 + X) ≡ (if Y == y && X == x then c else m (Y * 320 + X))
  unfolding px
  px_at x y c m = elim (Bool-cases (ltb x vga13_w && ltb y vga13_h)) [
    | inl on_screen ↦ rw on_screen (ground (arith, on_screen, X_on, Y_on))
    | inr off ↦ rw off (ground (arith, off, X_on, Y_on))
  ]

  fill_cols_at :
      (r dx x y c : ℕ) (m : ℕ → ℕ)
      → fill_cols r dx (pos x) (pos y) c m (Y * 320 + X)
        ≡ (if Y == y && (leb (x + dx) X && ltb X (x + dx + r)) then c else m (Y * 320 + X))
  unfolding fill_cols
  fill_cols_at zero dx x y c m = ground arith
  fill_cols_at (suc r) dx x y c m =
      let next = fill_cols_at r (dx + 1) x y c (px (pos x +ℤ pos dx) (pos y) c m) in
      let dot = ap (λ z. px z (pos y) c m (Y * 320 + X)) (pos_plus x dx) ∙ px_at (x + dx) y c m in
      next ∙ rw dot (ground arith)

  fill_rows_at :
      (r dy x y w c : ℕ) (m : ℕ → ℕ)
      → fill_rows r dy (pos x) (pos y) (pos w) c m (Y * 320 + X) ≡ (
          if (leb (y + dy) Y && ltb Y (y + dy + r)) && (leb x X && ltb X (x + w))
          then c
          else m (Y * 320 + X))
  unfolding fill_rows
  fill_rows_at zero dy x y w c m = ground arith
  fill_rows_at (suc r) dy x y w c m =
      let next = fill_rows_at r (dy + 1) x y w c (fill_cols w 0 (pos x) (pos y +ℤ pos dy) c m) in
      let row =
        ap (λ z. fill_cols w 0 (pos x) z c m (Y * 320 + X)) (pos_plus y dy)
        ∙ fill_cols_at w 0 x (y + dy) c m in
      next ∙ rw row (ground arith)

  pub fill_rect_at :
      (x y w h c : ℕ) (m : ℕ → ℕ)
      → fill_rect (pos x) (pos y) (pos w) (pos h) c m (Y * 320 + X)
        ≡ (if (leb y Y && ltb Y (y + h)) && (leb x X && ltb X (x + w)) then c else m (Y * 320 + X))
  unfolding fill_rect
  fill_rect_at x y w h c m = fill_rows_at h 0 x y w c m ∙ ground arith

  -- The lower edge is the row `low`.
  outline_cols_at :
      (r i x y h low c : ℕ) (m : ℕ → ℕ)
      → pos y +ℤ pos h -ℤ pos 1 ≡ pos low
      → (Y == y || Y == low) ≡ false
      → outline_cols r i (pos x) (pos y) (pos h) c m (Y * 320 + X) ≡ m (Y * 320 + X)
  unfolding outline_cols
  outline_cols_at zero i x y h low c m edge off = refl
  outline_cols_at (suc r) i x y h low c m edge off =
      let upper : ℕ → ℕ = px (pos x +ℤ pos i) (pos y) c m in
      let next =
        outline_cols_at r (i + 1) x y h low c
          (px (pos x +ℤ pos i) (pos y +ℤ pos h -ℤ pos 1) c upper) edge off in
      let upper_dot =
        ap (λ z. px z (pos y) c m (Y * 320 + X)) (pos_plus x i) ∙ px_at (x + i) y c m in
      let lower_dot =
        ap (λ z. px z (pos y +ℤ pos h -ℤ pos 1) c upper (Y * 320 + X)) (pos_plus x i)
        ∙ ap (λ z. px (pos (x + i)) z c upper (Y * 320 + X)) edge
        ∙ px_at (x + i) low c upper in
      next ∙ lower_dot ∙ rw upper_dot (ground (arith, off))

  -- The right edge is the column `last`.
  outline_rows_at :
      (r i x y w last c : ℕ) (m : ℕ → ℕ)
      → pos x +ℤ pos w -ℤ pos 1 ≡ pos last
      → (X == x || X == last) ≡ false
      → outline_rows r i (pos x) (pos y) (pos w) c m (Y * 320 + X) ≡ m (Y * 320 + X)
  unfolding outline_rows
  outline_rows_at zero i x y w last c m edge off = refl
  outline_rows_at (suc r) i x y w last c m edge off =
      let left : ℕ → ℕ = px (pos x) (pos y +ℤ pos i) c m in
      let next =
        outline_rows_at r (i + 1) x y w last c
          (px (pos x +ℤ pos w -ℤ pos 1) (pos y +ℤ pos i) c left) edge off in
      let left_dot =
        ap (λ z. px (pos x) z c m (Y * 320 + X)) (pos_plus y i) ∙ px_at x (y + i) c m in
      let right_dot =
        ap (λ z. px (pos x +ℤ pos w -ℤ pos 1) z c left (Y * 320 + X)) (pos_plus y i)
        ∙ ap (λ z. px z (pos (y + i)) c left (Y * 320 + X)) edge
        ∙ px_at last (y + i) c left in
      next ∙ right_dot ∙ rw left_dot (ground (arith, off))

  pub rect_outline_inside :
      (x y w h last low c : ℕ) (m : ℕ → ℕ)
      → pos x +ℤ pos w -ℤ pos 1 ≡ pos last
      → pos y +ℤ pos h -ℤ pos 1 ≡ pos low
      → (X == x || X == last) ≡ false
      → (Y == y || Y == low) ≡ false
      → rect_outline (pos x) (pos y) (pos w) (pos h) c m (Y * 320 + X) ≡ m (Y * 320 + X)
  unfolding rect_outline
  rect_outline_inside x y w h last low c m right bottom off_x off_y =
      outline_rows_at h 0 x y w last c (outline_cols w 0 (pos x) (pos y) (pos h) c m) right off_x
      ∙ outline_cols_at w 0 x y h low c m bottom off_y

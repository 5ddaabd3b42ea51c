-- ===== src/Vga/Fill.antt =====
-- `VgaFillRect` on a rectangle inside the screen: each row as single pixels and whole bytes.
pub mod Rows
pub mod Paint
pub mod Rect
use system_operative_edit.Base.{
  ℕ, zero, suc, ◌+◌, ◌-◌, ◌*◌, ◌/◌, ◌%◌, ◌^◌, ◌≤◌, ◌<◌, min, max, bit_and, bit_or, bit_xor, ◌≡◌,
  refl, sym, ap, ◌∙◌, fun_ext, ◌≢◌, ◌↔◌, ◌⊎◌, inl, inr, Bool, true, false, not, ◌&&◌, ◌||◌, Option,
  none, some, List, [], ◌∷◌, ◌++◌, map, arith, ltb, leb, ◌==◌, if◌then◌else◌, Bool-cases,
  Option-cases, ltb→lt, lt→ltb, leb→le, ==_iff, add32, sub32, update, length, get_elem?, get_or,
  last_from, length-append, last_from-append, has, Distinct, has-append, Distinct-append,
}
use system_operative_edit.Base.Int.{ℤ, pos, negsuc, ◌+ℤ◌, ◌-ℤ◌, ltb_ℤ, pos_part}
use system_operative_edit.Vga.{
  Vga, write_mask, put_pixel, has_bit, run_planes, byte_offset, low_bits, fill_head, fill_blocks,
  fill_tail, fill_row, fill_row_at, fill_rows,
}
use system_operative_edit.Vga.Pixel.{IsMode, lit, Synced, Plotted, put_pixel-Plotted}
use system_operative_edit.Vga.Runs.{run_planes-SamePicture, run_planes-shown}

pub pos_add : (a b : ℕ) → pos a +ℤ pos b ≡ pos (a + b)
unfolding ◌+ℤ◌
pos_add a b = ground arith

pub pos_sub : (a b : ℕ) → b ≤ a → pos_part (pos a -ℤ pos b) ≡ a - b
unfolding ◌-ℤ◌
pos_sub a b le = ground (arith, le)

pub update_same : (m : ℕ → ℕ) (k v : ℕ) → m k ≡ v → update m k v ≡ m
update_same m k v e = fun_ext λ n. ground (arith, e)

-- The pixels of columns `x0` to `e` that are still to be drawn, in row `y` from `start` on and in the
-- rows below, down to `y1`.
abbrev pub todo : (x0 e y1 y start px py : ℕ) → Bool
todo x0 e y1 y start px py =
    ((ltb y py && ltb py y1) && (leb x0 px && ltb px e))
    || ((py == y && ltb py y1) && (leb start px && ltb px e))

-- The picture is finished, and the screen shows it but for those pixels.
pub record Filling (x0 e y1 : ℕ) (sh : ℕ → ℕ) (y start : ℕ) (s : Vga) : Type 0 where
  pub mode : IsMode s
  pub shadow : s.shadow ≡ sh
  pub shown :
      (p px py : ℕ)
      → p < 4
      → px < 640
      → py < 480
      → todo x0 e y1 y start px py ≡ false
      → lit s p px py ≡ has_bit (sh (py * 640 + px)) p

-- The pixels of `n` bytes from `a` on in row `y`.
in_run :
    (a n y px py off : ℕ)
    → off ≡ y * 80 + a / 8
    → a % 8 ≡ 0
    → a + n * 8 ≤ 640
    → px < 640
    → (leb off (py * 80 + px / 8) && ltb (py * 80 + px / 8) (off + n))
      ≡ (py == y && (leb a px && ltb px (a + n * 8)))
in_run a n y px py off e aligned fits lx = elim (Bool-cases (py == y)) [
  | inl row ↦ ground (arith, row, e, aligned, fits, lx)
  | inr other ↦ ground (arith, other, e, aligned, fits, lx)
]

-- What a run leaves to do.
todo_run :
    (x0 e y1 y a n px py : ℕ)
    → todo x0 e y1 y (a + n * 8) px py ≡ false
    → (py == y && (leb a px && ltb px (a + n * 8))) ≡ false
    → todo x0 e y1 y a px py ≡ false
todo_run x0 e y1 y a n px py done out = ground (arith, done, out)

module _ (x0 e y0 y1 color : ℕ) (sh : ℕ → ℕ) (wide : e ≤ 640) (high : y1 ≤ 480)
    (painted : (px py : ℕ)
      → x0 ≤ px
      → px < e
      → y0 ≤ py
      → py < y1
      → sh (py * 640 + px) ≡ color) where
  pub plot_step :
      (y a : ℕ) (s : Vga)
      → y0 ≤ y
      → y < y1
      → x0 ≤ a
      → a < e
      → Filling x0 e y1 sh y a s
      → Filling x0 e y1 sh y (a + 1) (put_pixel (pos a) (pos y) color s)
  plot_step y a s y0y yy1 xa ae f =
      let w = put_pixel-Plotted a y color s f.mode (omega arith) (omega arith) in
      let same : update s.shadow (y * 640 + a) color ≡ sh =
        ap (λ m. update m (y * 640 + a) color) f.shadow
        ∙ update_same sh (y * 640 + a) color (painted a y xa ae y0y yy1) in
      record {
        mode = w.mode;
        shadow = w.shadow ∙ same;
        shown = λ p px py lp lx ly done.
            w.shown p px py lp lx ly
            ∙ ap
                (λ m.
                  if py == y && px / 8 == a / 8
                  then has_bit (m (py * 640 + px)) p
                  else lit s p px py)
                same
            ∙ (elim (Bool-cases (py == y && px / 8 == a / 8)) [
              | inl here ↦ rw here refl
              | inr there ↦ rw there (f.shown p px py lp lx ly (ground (arith, done, there)))
            ]);
      }

  pub run_step :
      (y a n : ℕ) (s : Vga)
      → y0 ≤ y
      → y < y1
      → x0 ≤ a
      → a % 8 ≡ 0
      → a + n * 8 ≤ e
      → Filling x0 e y1 sh y a s
      → Filling x0 e y1 sh y
          (a + n * 8)
          (write_mask 0x0F (run_planes 4 0 n (byte_offset (pos a) y (s.screen_width / 8)) color s))
  unfolding write_mask byte_offset
  run_step y a n s y0y yy1 xa aligned ae f =
      let off = (y * (s.screen_width / 8) + a / 8) % 2 ^ 32 in
      let off_lem : off ≡ y * 80 + a / 8 = rw f.mode.1 (omega (arith, wide, high, yy1, ae)) in
      let same = run_planes-SamePicture 4 0 n off color s in
      let fits : off + n < 2 ^ 32 = omega (arith, off_lem, wide, high, yy1, ae) in
      record {
        mode = (same.0 ∙ f.mode.0, same.1 ∙ f.mode.1, same.2 ∙ f.mode.2);
        shadow = same.3 ∙ f.shadow;
        shown = λ p px py lp lx ly done.
            run_planes-shown n off color s p px py lp fits
            ∙ (let run = in_run a n y px py off off_lem aligned (omega (arith, ae, wide)) lx in
                elim (Bool-cases (py == y && (leb a px && ltb px (a + n * 8)))) [
                  | inl here ↦
                      let at : py ≡ y = ground (arith, here) in
                      let color_at =
                        painted px py (ground (arith, here, xa)) (ground (arith, here, ae))
                          (ground (arith, here, y0y)) (ground (arith, here, yy1)) in
                      rw (run ∙ here) (ap (λ c. has_bit c p) (sym color_at))
                  | inr there ↦
                      rw (run ∙ there)
                        (f.shown p px py lp lx ly (todo_run x0 e y1 y a n px py done there))
                ]);
      }

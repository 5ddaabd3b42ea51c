-- ===== src/Bootvid/Rect.antt =====
-- What `BootVidDrawRect` draws, and what it leaves.
use system_operative_edit.Base.{
  if_true, ℕ, zero, suc, ◌+◌, ◌*◌, ◌/◌, ◌%◌, ◌≡◌, refl, sym, ap, ◌∙◌, inl, inr, true, ◌&&◌, ◌||◌,
  arith, ltb, leb, ◌==◌, if◌then◌else◌, Bool-cases,
}
use system_operative_edit.Base.Int.{pos, ◌+ℤ◌}
use mathlib.Core.Path.{subst}
use system_operative_edit.Bootvid.{
  draw_rect, rect_rows, rect_cols, Display, set_pixel, vga_width, vga_height,
}

-- The mode is active, and the memory is `g`.
abbrev Holds : (g : ℕ → ℕ) → Display → Type 0
Holds g d = (d.active ≡ true) × ((n : ℕ) → d.memory n ≡ g n)

pos_plus : (a b : ℕ) → pos a +ℤ pos b ≡ pos (a + b)
unfolding ◌+ℤ◌
pos_plus a b = ground arith

-- The memory after the pixel at `(x, y)` has been set, if it is on the screen.
abbrev dotted : (x y color : ℕ) → (ℕ → ℕ) → ℕ → ℕ
dotted x y color g n = if (ltb x 320 && ltb y 200) && n == y * 320 + x then color else g n

set_pixel-Holds :
    (x y color : ℕ) (g : ℕ → ℕ) (d : Display)
    → Holds g d
    → Holds (dotted x y color g) (set_pixel (pos x) (pos y) color d)
unfolding set_pixel
set_pixel-Holds x y color g d (on, mem) = elim (Bool-cases (leb vga_width x || leb vga_height y)) [
  | inl off ↦ rw on (rw off (refl, λ n. mem n ∙ ground (arith, off)))
  | inr here ↦ rw on (rw here (refl, λ n. ground (arith, here, mem n)))
]

-- A row: the columns from `dx` to `dx + r`, as far as they are on the screen.
abbrev row_memory : (r dx x y color : ℕ) → (ℕ → ℕ) → ℕ → ℕ
row_memory r dx x y color g n =
    if (n / 320 == y && ltb y 200) && (leb (x + dx) (n % 320) && ltb (n % 320) (x + dx + r))
    then color
    else g n

row_next :
    (r dx x y color : ℕ) (g : ℕ → ℕ) (n : ℕ)
    → row_memory r (dx + 1) x y color (dotted (x + dx) y color g) n
      ≡ row_memory (suc r) dx x y color g n
row_next r dx x y color g n = elim (Bool-cases (n == y * 320 + (x + dx))) [
  | inl here ↦ ground (arith, here)
  | inr away ↦ ground (arith, away)
]

Holds-same : (g h : ℕ → ℕ) (d : Display) → ((n : ℕ) → g n ≡ h n) → Holds g d → Holds h d
Holds-same g h d same (on, mem) = (on, λ n. mem n ∙ same n)

rect_cols-Holds :
    (r dx x y color : ℕ) (g : ℕ → ℕ) (d : Display)
    → Holds g d
    → Holds (row_memory r dx x y color g) (rect_cols r dx (pos x) (pos y) color d)
unfolding rect_cols
rect_cols-Holds zero dx x y color g d h =
    Holds-same g (row_memory zero dx x y color g) d (λ n. ground arith) h
rect_cols-Holds (suc r) dx x y color g d h =
    let next = dotted (x + dx) y color g in
    let w = set_pixel (pos x +ℤ pos dx) (pos y) color d in
    let put : Holds next w =
      subst (λ z. Holds next (set_pixel z (pos y) color d)) (sym (pos_plus x dx))
        (set_pixel-Holds (x + dx) y color g d h) in
    Holds-same (row_memory r (dx + 1) x y color next) (row_memory (suc r) dx x y color g)
      (rect_cols r (dx + 1) (pos x) (pos y) color w) (λ n. row_next r dx x y color g n)
      (rect_cols-Holds r (dx + 1) x y color next w put)

-- The rows from `dy` to `dy + r`.
abbrev rect_memory : (r dy w x y color : ℕ) → (ℕ → ℕ) → ℕ → ℕ
rect_memory r dy w x y color g n =
    if ((leb (y + dy) (n / 320) && ltb (n / 320) (y + dy + r)) && ltb (n / 320) 200)
      && (leb x (n % 320) && ltb (n % 320) (x + w))
    then color
    else g n

rect_next :
    (r dy w x y color : ℕ) (g : ℕ → ℕ) (n : ℕ)
    → rect_memory r (dy + 1) w x y color (row_memory w 0 x (y + dy) color g) n
      ≡ rect_memory (suc r) dy w x y color g n
rect_next r dy w x y color g n = elim (Bool-cases (n / 320 == y + dy)) [
  | inl here ↦ ground (arith, here)
  | inr away ↦ ground (arith, away)
]

rect_rows-Holds :
    (r dy w x y color : ℕ) (g : ℕ → ℕ) (d : Display)
    → Holds g d
    → Holds (rect_memory r dy w x y color g) (rect_rows r dy w (pos x) (pos y) color d)
unfolding rect_rows
rect_rows-Holds zero dy w x y color g d h =
    Holds-same g (rect_memory zero dy w x y color g) d (λ n. ground arith) h
rect_rows-Holds (suc r) dy w x y color g d h =
    let next = row_memory w 0 x (y + dy) color g in
    let t = rect_cols w 0 (pos x) (pos y +ℤ pos dy) color d in
    let row : Holds next t =
      subst (λ z. Holds next (rect_cols w 0 (pos x) z color d)) (sym (pos_plus y dy))
        (rect_cols-Holds w 0 x (y + dy) color g d h) in
    Holds-same (rect_memory r (dy + 1) w x y color next) (rect_memory (suc r) dy w x y color g)
      (rect_rows r (dy + 1) w (pos x) (pos y) color t) (λ n. rect_next r dy w x y color g n)
      (rect_rows-Holds r (dy + 1) w x y color next t row)

-- In graphics mode `BootVidDrawRect` with its left upper corner at coordinates that are not negative
-- and a size that is not negative gives the pixels of the rectangle that are on the
-- screen their colour, and writes no other byte of the memory, on the screen or behind it.
pub draw_rect_lem :
    (x y w h color n : ℕ) (d : Display)
    → d.active ≡ true
    → (draw_rect (pos x) (pos y) (pos w) (pos h) color d).memory n ≡ (
        if ((leb y (n / 320) && ltb (n / 320) (y + h)) && ltb (n / 320) 200)
          && (leb x (n % 320) && ltb (n % 320) (x + w))
        then color
        else d.memory n)
unfolding draw_rect
draw_rect_lem x y w h color n d on =
    let rows = rect_rows-Holds h 0 w x y color d.memory d (on, λ n. refl) in
    ap (λ z. z.memory n) (if_true d.active (rect_rows h 0 w (pos x) (pos y) color d) d on)
    ∙ rows.1 n
    ∙ ground arith

-- ===== src/Vga/Box.antt =====
-- The loops over a box of pixels that vga_font.c and vga_cursor.c share: in row `row` and column `col`
-- of the box `f` tells the colour that is put there, or that none is.
use mathlib.Core.Path.{subst}
use system_operative_edit.Base.{
  ℕ, zero, suc, ◌+◌, ◌-◌, ◌<◌, ◌≡◌, sym, ap, ◌∙◌, inl, inr, ◌&&◌, Option, none, some, arith, ltb,
  leb, ◌==◌, if◌then◌else◌, Bool-cases,
}
use system_operative_edit.Base.Int.{ℤ, pos, negsuc, ◌+ℤ◌}
use system_operative_edit.Vga.{Vga, get_pixel, put_pixel, plot, plot_planes, write_byte, write_mask}
use system_operative_edit.Vga.Pixel.{IsMode, Synced}
use system_operative_edit.Vga.Show.{is_at, put_pixel_lem}
use system_operative_edit.Vga.Fill.{pos_add}

unfoldable pub put_choice : (x y : ℤ) → Option ℕ → Vga → Vga
put_choice x y none s = s
put_choice x y (some color) s = put_pixel x y color s

unfoldable pub box_cols : (r col row : ℕ) → (x y : ℤ) → (f : ℕ → ℕ → Option ℕ) → Vga → Vga
box_cols zero col row x y f s = s
box_cols (suc r) col row x y f s =
    box_cols r (col + 1) row x y f (put_choice (x +ℤ pos col) (y +ℤ pos row) (f row col) s)

unfoldable pub box_rows : (r row width : ℕ) → (x y : ℤ) → (f : ℕ → ℕ → Option ℕ) → Vga → Vga
box_rows zero row width x y f s = s
box_rows (suc r) row width x y f s = box_rows r (row + 1) width x y f (box_cols width 0 row x y f s)

-- The driver is in its mode, the planes are in step, and `VgaGetPixel` reads the picture `g`.
abbrev pub Draws : (g : ℕ → ℕ → ℕ) → Vga → Type 0
Draws g t =
    IsMode t
    × Synced t
    × ((px py : ℕ) → px < 640 → py < 480 → get_pixel (pos px) (pos py) t ≡ g px py)

abbrev pub choose : Option ℕ → ℕ → ℕ
choose none d = d
choose (some c) d = c

put_pixel-IsMode : (x y : ℤ) (color : ℕ) (s : Vga) → IsMode s → IsMode (put_pixel x y color s)
unfolding put_pixel plot plot_planes write_byte write_mask
put_pixel-IsMode (negsuc x) y color s mode = mode
put_pixel-IsMode (pos x) (negsuc y) color s mode = mode
put_pixel-IsMode (pos x) (pos y) color s mode =
    elim (Bool-cases (s.ready && (ltb x s.screen_width && ltb y s.screen_height))) [
      | inl on ↦ rw on mode
      | inr off ↦ rw off mode
    ]

put_choice-Draws :
    (x y : ℤ) (o : Option ℕ) (g : ℕ → ℕ → ℕ) (s : Vga)
    → Draws g s
    → Draws
        (λ px py. if is_at x px && is_at y py then choose o (g px py) else g px py)
        (put_choice x y o s)
unfolding put_choice
put_choice-Draws x y none g s (mode, synced, read) =
    (mode, synced, λ px py lx ly. read px py lx ly ∙ ground arith)
put_choice-Draws x y (some c) g s (mode, synced, read) =
    let t = put_pixel_lem x y c s mode synced in
    (
      put_pixel-IsMode x y c s mode,
      t.0,
      λ px py lx ly.
          t.1 px py lx ly ∙ ap (λ d. if is_at x px && is_at y py then c else d) (read px py lx ly),
    )

-- Two pictures that agree on the screen.
Draws-same :
    (g h : ℕ → ℕ → ℕ) (s : Vga)
    → ((px py : ℕ) → px < 640 → py < 480 → g px py ≡ h px py)
    → Draws g s
    → Draws h s
Draws-same g h s same (mode, synced, read) =
    (mode, synced, λ px py lx ly. read px py lx ly ∙ same px py lx ly)

-- A row of the box.
abbrev row_picture : (r col row x y : ℕ) → (f : ℕ → ℕ → Option ℕ) → (ℕ → ℕ → ℕ) → ℕ → ℕ → ℕ
row_picture r col row x y f g px py =
    if py == y + row && (leb (x + col) px && ltb px (x + col + r))
    then choose (f row (px - x)) (g px py)
    else g px py

row_step :
    (r col row x y : ℕ) (f : ℕ → ℕ → Option ℕ) (g : ℕ → ℕ → ℕ) (px py : ℕ)
    → row_picture r
        (col + 1)
        row
        x
        y
        f
        (λ px py. if px == x + col && py == y + row then choose (f row col) (g px py) else g px py)
        px
        py
      ≡ row_picture (suc r) col row x y f g px py
row_step r col row x y f g px py = elim (Bool-cases (px == x + col && py == y + row)) [
  | inl here ↦ let at : px - x ≡ col = ground (arith, here) in rw (here, at) (ground (arith, here))
  | inr there ↦ rw there (ground (arith, there))
]

box_cols-Draws :
    (r col row x y : ℕ) (f : ℕ → ℕ → Option ℕ) (g : ℕ → ℕ → ℕ) (s : Vga)
    → Draws g s
    → Draws (row_picture r col row x y f g) (box_cols r col row (pos x) (pos y) f s)
unfolding box_cols
box_cols-Draws zero col row x y f g s d =
    Draws-same g (row_picture zero col row x y f g) s (λ px py lx ly. ground arith) d
box_cols-Draws (suc r) col row x y f g s d =
    let next : ℕ → ℕ → ℕ =
      λ px py. if px == x + col && py == y + row then choose (f row col) (g px py) else g px py in
    let put = put_choice-Draws (pos (x + col)) (pos (y + row)) (f row col) g s d in
    let w = put_choice (pos x +ℤ pos col) (pos y +ℤ pos row) (f row col) s in
    let same : w ≡ put_choice (pos (x + col)) (pos (y + row)) (f row col) s =
      ap (λ z. put_choice z (pos y +ℤ pos row) (f row col) s) (pos_add x col)
      ∙ ap (λ z. put_choice (pos (x + col)) z (f row col) s) (pos_add y row) in
    Draws-same (row_picture r (col + 1) row x y f next) (row_picture (suc r) col row x y f g)
      (box_cols r (col + 1) row (pos x) (pos y) f w)
      (λ px py lx ly. row_step r col row x y f g px py)
      (box_cols-Draws r (col + 1) row x y f next w (subst (Draws next) (sym same) put))

-- The picture after a box has been put over `g`.
abbrev pub box_picture : (r row w x y : ℕ) → (f : ℕ → ℕ → Option ℕ) → (ℕ → ℕ → ℕ) → ℕ → ℕ → ℕ
box_picture r row w x y f g px py =
    if (leb (y + row) py && ltb py (y + row + r)) && (leb x px && ltb px (x + w))
    then choose (f (py - y) (px - x)) (g px py)
    else g px py

box_step :
    (r row w x y : ℕ) (f : ℕ → ℕ → Option ℕ) (g : ℕ → ℕ → ℕ) (px py : ℕ)
    → box_picture r (row + 1) w x y f (row_picture w 0 row x y f g) px py
      ≡ box_picture (suc r) row w x y f g px py
box_step r row w x y f g px py = elim (Bool-cases (py == y + row)) [
  | inl here ↦ let at : py - y ≡ row = ground (arith, here) in rw (here, at) (ground (arith, here))
  | inr there ↦ ground (arith, there)
]

pub box_rows-Draws :
    (r row w x y : ℕ) (f : ℕ → ℕ → Option ℕ) (g : ℕ → ℕ → ℕ) (s : Vga)
    → Draws g s
    → Draws (box_picture r row w x y f g) (box_rows r row w (pos x) (pos y) f s)
unfolding box_rows
box_rows-Draws zero row w x y f g s d =
    Draws-same g (box_picture zero row w x y f g) s (λ px py lx ly. ground arith) d
box_rows-Draws (suc r) row w x y f g s d =
    let next = row_picture w 0 row x y f g in
    let t = box_cols w 0 row (pos x) (pos y) f s in
    Draws-same (box_picture r (row + 1) w x y f next) (box_picture (suc r) row w x y f g)
      (box_rows r (row + 1) w (pos x) (pos y) f t) (λ px py lx ly. box_step r row w x y f g px py)
      (box_rows-Draws r (row + 1) w x y f next t (box_cols-Draws w 0 row x y f g s d))

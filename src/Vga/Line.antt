-- ===== src/Vga/Line.antt =====
-- drivers/video/vga/vga_screen.c: `VgaDrawLine`, the line of Bresenham, and `VgaDrawRect` of
-- vga_operations.c, which draws four of them.
pub mod Steps
use system_operative_edit.Base.{
  ◌^◌, ltb, ℕ, zero, suc, ◌+◌, ◌-◌, ◌*◌, ◌≤◌, ◌<◌, ◌≡◌, refl, sym, ap, ◌↔◌, inl, inr, Bool, true,
  false, ◌&&◌, Option, none, some, arith, ◌==◌, if◌then◌else◌, Bool-cases,
}
use system_operative_edit.Base.Int.{
  ℤ, pos, negsuc, ◌+ℤ◌, ◌-ℤ◌, ltb_ℤ, pos_part, neg_part, +ℤ_parts, -ℤ_parts, eq_of_parts,
}
use system_operative_edit.Vga.{Vga, put_pixel}

abbrev pub eq_ℤ : ℤ → ℤ → Bool
eq_ℤ a b = pos_part a + neg_part b == pos_part b + neg_part a

-- The end point, the distances `dx` and `dy`, and whether the line goes right and down.
pub record Line : Type 0 where
  pub x2 : ℤ
  pub y2 : ℤ
  pub dx : ℕ
  pub dy : ℕ
  pub right : Bool
  pub down : Bool
  pub color : ℕ

-- `x1`, `y1` and `err`, as the loop changes them.
pub record Pen : Type 0 where
  pub x : ℤ
  pub y : ℤ
  pub err : ℤ

-- `sx` and `sy`
abbrev pub sign : Bool → ℤ
sign true = pos 1
sign false = negsuc 0

abbrev move_x : Line → (e2 : ℤ) → Pen → Pen
move_x l e2 p =
    if ltb_ℤ (pos 0 -ℤ pos l.dy) e2
    then record p { x = p.x +ℤ sign l.right; err = p.err -ℤ pos l.dy }
    else p

abbrev move_y : Line → (e2 : ℤ) → Pen → Pen
move_y l e2 p =
    if ltb_ℤ e2 (pos l.dx) then record p { y = p.y +ℤ sign l.down; err = p.err +ℤ pos l.dx } else p

unfoldable pub move : Line → Pen → Pen
move l p = let e2 = p.err +ℤ p.err in move_y l e2 (move_x l e2 p)

-- The value is one of an INT.
abbrev pub fits : ℤ → Bool
fits (pos n) = ltb n (2 ^ 31)
fits (negsuc n) = ltb n (2 ^ 31)

-- Neither `e2` nor `err`, in between and after the step, overflows.
abbrev pub is_exact : Line → Pen → Bool
is_exact l p =
    let e2 = p.err +ℤ p.err in
    let q = move_x l e2 p in fits e2 && (fits q.err && fits (move_y l e2 q).err)

-- The loop, on fuel; `none` means that the fuel ran out, or that an INT overflows.
unfoldable pub line_steps : (fuel : ℕ) → Line → Pen → Vga → Option Vga
line_steps zero l p s = none
line_steps (suc f) l p s =
    let w = put_pixel p.x p.y l.color s in
    let rest = line_steps f l (move l p) w in
    if eq_ℤ p.x l.x2 && eq_ℤ p.y l.y2 then some w else if is_exact l p then rest else none

abbrev pub distance : ℤ → ℤ → ℕ
distance a b = if ltb_ℤ a b then pos_part (b -ℤ a) else pos_part (a -ℤ b)

abbrev pub line_to : (x1 y1 x2 y2 : ℤ) → (color : ℕ) → Line
line_to x1 y1 x2 y2 color = record {
  x2 = x2;
  y2 = y2;
  dx = distance x1 x2;
  dy = distance y1 y2;
  right = ltb_ℤ x1 x2;
  down = ltb_ℤ y1 y2;
  color = color;
}

-- Without the device, as without its graphics mode, nothing is drawn. `none` as in the loop, or when a distance
-- overflows an INT.
unfoldable pub draw_line : (x1 y1 x2 y2 : ℤ) → (color : ℕ) → Vga → Option Vga
draw_line x1 y1 x2 y2 color s =
    let l = line_to x1 y1 x2 y2 color in
    let rest =
      line_steps (l.dx + l.dy + 1) l (record { x = x1; y = y1; err = pos l.dx -ℤ pos l.dy }) s in
    let exact = if fits (pos l.dx) && fits (pos l.dy) then rest else none in
    if s.ready then exact else some s

infixl 5 ◌>>=◌
abbrev ◌>>=◌ : Option Vga → (Vga → Option Vga) → Option Vga
none >>= f = none
some a >>= f = f a

unfoldable pub draw_rect : (x y width height : ℤ) → (color : ℕ) → Vga → Option Vga
draw_rect x y width height color s =
    let x2 = x +ℤ width -ℤ pos 1 in
    let y2 = y +ℤ height -ℤ pos 1 in
    let lines = do
      a ← draw_line x y x2 y color s
      b ← draw_line x y2 x2 y2 color a
      c ← draw_line x y x y2 color b
      draw_line x2 y x2 y2 color c
    in if (fits (x +ℤ width) && fits x2) && (fits (y +ℤ height) && fits y2) then lines else none

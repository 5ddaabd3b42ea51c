-- ===== src/Vga/Line/Steps.antt =====
-- `VgaDrawLine` ends: what is left of the line while its loop runs.
use system_operative_edit.Base.{
  if◌then◌else◌, none, ◌^◌, refl, ℕ, zero, suc, ◌+◌, ◌-◌, ◌*◌, ◌≤◌, ◌<◌, ◌≡◌, ap, ◌∙◌, ◌↔◌, inl,
  inr, Bool, true, false, ◌&&◌, Option, some, arith, if_true, Bool-cases,
}
use system_operative_edit.Base.Int.{
  ℤ, pos, negsuc, ◌+ℤ◌, ◌-ℤ◌, ltb_ℤ, pos_part, neg_part, +ℤ_parts, -ℤ_parts, eq_of_parts,
}
use system_operative_edit.Vga.{Vga, put_pixel}
use system_operative_edit.Vga.Line.{
  fits, is_exact, move_x, move_y, Line, Pen, eq_ℤ, sign, move, line_steps, distance, line_to,
  draw_line,
}

-- `a` steps lead from `x` to `x2`.
abbrev Ahead : (forward : Bool) → (x x2 : ℤ) → (a : ℕ) → Type 0
Ahead true x x2 a = pos_part x2 + neg_part x ≡ pos_part x + neg_part x2 + a
Ahead false x x2 a = pos_part x + neg_part x2 ≡ pos_part x2 + neg_part x + a

one_step_less :
    (fwd : Bool) (x x2 : ℤ) (a : ℕ)
    → Ahead fwd x x2 a
    → 0 < a
    → Ahead fwd (x +ℤ sign fwd) x2 (a - 1)
one_step_less true x x2 a h go = omega (arith, +ℤ_parts x (pos 1), h, go)
one_step_less false x x2 a h go = omega (arith, +ℤ_parts x (negsuc 0), h, go)

mul_pred : (d b : ℕ) → 0 < b → d * b ≡ d * (b - 1) + d
mul_pred d zero go = absurd (omega (arith, go))
mul_pred d (suc b) go =
    let e : d * (suc b - 1) ≡ d * b = ap (λ t. d * t) (omega arith) in omega (arith, e)

-- With `a` columns and `b` rows to go, `err` is dx - dy - dx * b + dy * a.
record OnLine (l : Line) (a b : ℕ) (p : Pen) : Type 0 where
  ahead_x : Ahead l.right p.x l.x2 a
  ahead_y : Ahead l.down p.y l.y2 b
  a_le : a ≤ l.dx
  b_le : b ≤ l.dy
  balance : pos_part p.err + l.dy + l.dx * b ≡ neg_part p.err + l.dx + l.dy * a

-- Where the next column is drawn there is one to go, and so for rows; one of the two moves is made.
x_to_go :
    (dx dy a b p n : ℕ) → p + dy + dx * b ≡ n + dx + dy * a → 0 < a + b → n + n < p + p + dy → 0 < a
x_to_go dx dy zero (suc b) p n e go t = omega (arith, e, t)
x_to_go dx dy (suc a) b p n e go t = omega arith
x_to_go dx dy zero zero p n e go t = omega (arith, go)

y_to_go :
    (dx dy a b p n : ℕ) → p + dy + dx * b ≡ n + dx + dy * a → 0 < a + b → p + p < dx + n + n → 0 < b
y_to_go dx dy (suc a) zero p n e go t = omega (arith, e, t)
y_to_go dx dy a (suc b) p n e go t = omega arith
y_to_go dx dy zero zero p n e go t = omega (arith, go)

-- What is left after a move.
abbrev Nearer : (l : Line) → (a b : ℕ) → Pen → Type 0
Nearer l a b p = (a' : ℕ) × (b' : ℕ) × OnLine l a' b' p × (a' + b' < a + b)

go_x :
    (l : Line) (a b : ℕ) (p : Pen)
    → OnLine l a b p
    → 0 < a
    → OnLine l (a - 1) b (record p { x = p.x +ℤ sign l.right; err = p.err -ℤ pos l.dy })
go_x l a b p o ax = record {
  ahead_x = one_step_less l.right p.x l.x2 a o.ahead_x ax;
  ahead_y = o.ahead_y;
  a_le = omega (arith, o.a_le);
  b_le = o.b_le;
  balance = omega (arith, o.balance, mul_pred l.dy a ax, -ℤ_parts p.err (pos l.dy));
}

go_y :
    (l : Line) (a b : ℕ) (p : Pen)
    → OnLine l a b p
    → 0 < b
    → OnLine l a (b - 1) (record p { y = p.y +ℤ sign l.down; err = p.err +ℤ pos l.dx })
go_y l a b p o by = record {
  ahead_x = o.ahead_x;
  ahead_y = one_step_less l.down p.y l.y2 b o.ahead_y by;
  a_le = o.a_le;
  b_le = omega (arith, o.b_le);
  balance = omega (arith, o.balance, mul_pred l.dx b by, +ℤ_parts p.err (pos l.dx));
}

move-Nearer : (l : Line) (a b : ℕ) (p : Pen) → OnLine l a b p → 0 < a + b → Nearer l a b (move l p)
unfolding move
move-Nearer l a b p o go =
    let e2 = p.err +ℤ p.err in
    let twice = +ℤ_parts p.err p.err in
    let minus = -ℤ_parts (pos 0) (pos l.dy) in
    let ax = x_to_go l.dx l.dy a b (pos_part p.err) (neg_part p.err) o.balance go in
    let by = y_to_go l.dx l.dy a b (pos_part p.err) (neg_part p.err) o.balance go in
    elim (Bool-cases (ltb_ℤ (pos 0 -ℤ pos l.dy) e2)) [
      | inl tx ↦
          let ha = ax (ground (arith, tx, twice, minus)) in
          elim (Bool-cases (ltb_ℤ e2 (pos l.dx))) [
            | inl ty ↦
                let hb = by (ground (arith, ty, twice)) in
                rw (tx, ty)
                  (a - 1, b - 1, go_y l (a - 1) b _ (go_x l a b p o ha) hb, omega (arith, ha, hb))
            | inr ny ↦ rw (tx, ny) (a - 1, b, go_x l a b p o ha, omega (arith, ha))
          ]
      | inr nx ↦ elim (Bool-cases (ltb_ℤ e2 (pos l.dx))) [
        | inl ty ↦
            let hb = by (ground (arith, ty, twice)) in
            rw (nx, ty) (a, b - 1, go_y l a b p o hb, omega (arith, hb))
        | inr ny ↦ absurd (ground (arith, nx, ny, twice, minus, o.a_le, o.b_le, go))
      ]
    ]

-- How far `err` may be off, whichever way.
record Bounded (l : Line) (e : ℤ) : Type 0 where
  above : pos_part e ≤ neg_part e + 2 * l.dx
  under : neg_part e ≤ pos_part e + 2 * l.dy

Bounded-fits : (l : Line) (e : ℤ) → l.dx < 2 ^ 29 → l.dy < 2 ^ 29 → Bounded l e → fits e ≡ true
Bounded-fits l (pos n) sx sy b = ground (arith, b.above, sx)
Bounded-fits l (negsuc n) sx sy b = ground (arith, b.under, sy)

twice_fits : (l : Line) (e : ℤ) → l.dx < 2 ^ 29 → l.dy < 2 ^ 29 → Bounded l e → fits (e +ℤ e) ≡ true
unfolding ◌+ℤ◌
twice_fits l (pos n) sx sy b = ground (arith, b.above, sx)
twice_fits l (negsuc n) sx sy b = ground (arith, b.under, sy)

Bounded-x : (l : Line) (p : Pen) → Bounded l p.err → Bounded l (move_x l (p.err +ℤ p.err) p).err
Bounded-x l p b =
    let e2 = p.err +ℤ p.err in
    elim (Bool-cases (ltb_ℤ (pos 0 -ℤ pos l.dy) e2)) [
      | inl tx ↦
          let twice = +ℤ_parts p.err p.err in
          let minus = -ℤ_parts (pos 0) (pos l.dy) in
          let less = -ℤ_parts p.err (pos l.dy) in
          rw tx record {
            above = omega (arith, less, b.above);
            under = ground (arith, tx, twice, minus, less);
          }
      | inr nx ↦ rw nx b
    ]

Bounded-y :
    (l : Line) (p q : Pen)
    → (pos_part q.err + neg_part p.err ≤ pos_part p.err + neg_part q.err)
    → Bounded l q.err
    → Bounded l (move_y l (p.err +ℤ p.err) q).err
Bounded-y l p q le b =
    let e2 = p.err +ℤ p.err in
    elim (Bool-cases (ltb_ℤ e2 (pos l.dx))) [
      | inl ty ↦
          let twice = +ℤ_parts p.err p.err in
          let more = +ℤ_parts q.err (pos l.dx) in
          rw ty record {
            above = ground (arith, ty, twice, more, le);
            under = omega (arith, more, b.under);
          }
      | inr ny ↦ rw ny b
    ]

x_lowers :
    (l : Line) (p : Pen)
    → let q = move_x l (p.err +ℤ p.err) p in
      pos_part q.err + neg_part p.err ≤ pos_part p.err + neg_part q.err
x_lowers l p = elim (Bool-cases (ltb_ℤ (pos 0 -ℤ pos l.dy) (p.err +ℤ p.err))) [
  | inl tx ↦ rw tx (omega (arith, -ℤ_parts p.err (pos l.dy)))
  | inr nx ↦ rw nx (omega arith)
]

move-Bounded : (l : Line) (p : Pen) → Bounded l p.err → Bounded l (move l p).err
unfolding move
move-Bounded l p b = Bounded-y l p (move_x l (p.err +ℤ p.err) p) (x_lowers l p) (Bounded-x l p b)

step_is_exact :
    (l : Line) (p : Pen) → l.dx < 2 ^ 29 → l.dy < 2 ^ 29 → Bounded l p.err → is_exact l p ≡ true
unfolding move
step_is_exact l p sx sy b =
    let q = move_x l (p.err +ℤ p.err) p in
    rw
      (
        twice_fits l p.err sx sy b,
        Bounded-fits l q.err sx sy (Bounded-x l p b),
        Bounded-fits l (move l p).err sx sy (move-Bounded l p b),
      )
      refl

arrived : (fwd : Bool) (x x2 : ℤ) (a : ℕ) → Ahead fwd x x2 a → eq_ℤ x x2 ≡ true ↔ a ≡ 0
arrived true x x2 a h = ground (arith, h)
arrived false x x2 a h = ground (arith, h)

at_distance : (x x2 : ℤ) → Ahead (ltb_ℤ x x2) x x2 (distance x x2)
at_distance x x2 = elim (Bool-cases (ltb_ℤ x x2)) [
  | inl up ↦ rw up (ground (arith, up, -ℤ_parts x2 x))
  | inr down ↦ rw down (ground (arith, down, -ℤ_parts x x2))
]

-- The loop ends, and the last pixel that it puts is the end point.
abbrev Ends : Line → Option Vga → Type 0
Ends l o = (w : Vga) × (o ≡ some (put_pixel l.x2 l.y2 l.color w))

line_steps-Ends :
    (f a b : ℕ) (l : Line) (p : Pen) (s : Vga)
    → l.dx < 2 ^ 29
    → l.dy < 2 ^ 29
    → Bounded l p.err
    → OnLine l a b p
    → a + b < f
    → Ends l (line_steps f l p s)
unfolding line_steps
line_steps-Ends zero a b l p s sx sy bd o lt = absurd (omega (arith, lt))
line_steps-Ends (suc f) a b l p s sx sy bd o lt =
    let there_x = arrived l.right p.x l.x2 a o.ahead_x in
    let there_y = arrived l.down p.y l.y2 b o.ahead_y in
    elim (Bool-cases (eq_ℤ p.x l.x2 && eq_ℤ p.y l.y2)) [
      | inl at ↦
          let ex : p.x ≡ l.x2 = eq_of_parts p.x l.x2 (ground (arith, at)) in
          let ey : p.y ≡ l.y2 = eq_of_parts p.y l.y2 (ground (arith, at)) in
          (
            s,
            rw at (
                ap (λ z. some (put_pixel z p.y l.color s)) ex
                ∙ ap (λ z. some (put_pixel l.x2 z l.color s)) ey),
          )
      | inr before ↦
          let near = move-Nearer l a b p o (ground (arith, before, there_x, there_y)) in
          rw (before, step_is_exact l p sx sy bd)
            (line_steps-Ends f near.0 near.1 l (move l p) (put_pixel p.x p.y l.color s) sx sy
              (move-Bounded l p bd) near.2 (omega (arith, near.3, lt)))
    ]

-- A coordinate far enough from the ends of an INT.
abbrev pub IsModerate : ℤ → Type 0
IsModerate z = (pos_part z < 2 ^ 28) × (neg_part z < 2 ^ 28)

moderate_distance : (a b : ℤ) → IsModerate a → IsModerate b → distance a b < 2 ^ 29
moderate_distance a b ma mb = elim (Bool-cases (ltb_ℤ a b)) [
  | inl up ↦ rw up (ground (arith, up, -ℤ_parts b a, ma, mb))
  | inr down ↦ rw down (ground (arith, down, -ℤ_parts a b, ma, mb))
]

-- `VgaDrawLine` on a ready screen, with coordinates between -2^28 and 2^28, ends, after at most one round more
-- than the sum of the distances, whatever the direction of the line and without an overflow of an INT, and the
-- last pixel that it puts is the end point.
pub draw_line_lem :
    (x1 y1 x2 y2 : ℤ) (color : ℕ) (s : Vga)
    → IsModerate x1
    → IsModerate y1
    → IsModerate x2
    → IsModerate y2
    → s.ready ≡ true
    → (w : Vga) × (draw_line x1 y1 x2 y2 color s ≡ some (put_pixel x2 y2 color w))
unfolding draw_line
draw_line_lem x1 y1 x2 y2 color s mx1 my1 mx2 my2 on =
    let l = line_to x1 y1 x2 y2 color in
    let sx : l.dx < 2 ^ 29 = moderate_distance x1 x2 mx1 mx2 in
    let sy : l.dy < 2 ^ 29 = moderate_distance y1 y2 my1 my2 in
    let parts = -ℤ_parts (pos l.dx) (pos l.dy) in
    let start : OnLine l l.dx l.dy (record { x = x1; y = y1; err = pos l.dx -ℤ pos l.dy }) =
      record {
        ahead_x = at_distance x1 x2;
        ahead_y = at_distance y1 y2;
        a_le = omega arith;
        b_le = omega arith;
        balance = omega (arith, parts);
      } in
    let bounded : Bounded l (pos l.dx -ℤ pos l.dy) = record {
      above = omega (arith, parts);
      under = omega (arith, parts);
    } in
    let run = line_steps-Ends (l.dx + l.dy + 1) l.dx l.dy l _ s sx sy bounded start (omega arith) in
    let exact : (fits (pos l.dx) && fits (pos l.dy)) ≡ true = ground (arith, sx, sy) in
    let steps = line_steps (l.dx + l.dy + 1) l _ s in
    (
      run.0,
      if_true s.ready (if fits (pos l.dx) && fits (pos l.dy) then steps else none) (some s) on
          ∙ if_true (fits (pos l.dx) && fits (pos l.dy)) steps none exact
          ∙ run.1,
    )

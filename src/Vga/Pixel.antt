-- ===== src/Vga/Pixel.antt =====
-- What `VgaPutPixel` does to the picture.
use system_operative_edit.Base.Int.{pos}
use system_operative_edit.Base.{
  ℕ, zero, suc, ◌+◌, ◌-◌, ◌*◌, ◌/◌, ◌%◌, ◌^◌, ◌≤◌, ◌<◌, bit_or, ◌≡◌, refl, sym, ap, ◌∙◌, inl, inr,
  Bool, true, false, ◌&&◌, ◌||◌, arith, ltb, leb, ◌==◌, if◌then◌else◌, Bool-cases, update,
}
use system_operative_edit.Base.Bits.{bit_at, bit_at_empty, bit_at-set}
use system_operative_edit.Vga.{
  Vga, plot_planes, plot, put_pixel, write_byte, write_mask, shadow_w, has_bit, rebuild,
}

-- The mode of the driver.
abbrev pub IsMode : Vga → Type 0
IsMode s = (s.ready ≡ true) × (s.screen_width ≡ 640) × (s.screen_height ≡ 480)

-- The bit of plane `p` that the screen shows at a pixel.
abbrev pub lit : Vga → (p x y : ℕ) → Bool
lit s p x y = bit_at (s.planes p (y * 80 + x / 8)) (7 - x % 8) == 1

-- The planes show the picture in `g_shadow`.
abbrev pub Synced : Vga → Type 0
Synced s =
    (p x y : ℕ) → p < 4 → x < 640 → y < 480 → lit s p x y ≡ has_bit (s.shadow (y * 640 + x)) p

shift_lem : (b : ℕ) → b < 8 → 0x80 / 2 ^ b ≡ 2 ^ (7 - b)
shift_lem zero lt = refl
shift_lem (suc zero) lt = refl
shift_lem (suc (suc zero)) lt = refl
shift_lem (suc (suc (suc zero))) lt = refl
shift_lem (suc (suc (suc (suc zero)))) lt = refl
shift_lem (suc (suc (suc (suc (suc zero))))) lt = refl
shift_lem (suc (suc (suc (suc (suc (suc zero)))))) lt = refl
shift_lem (suc (suc (suc (suc (suc (suc (suc zero))))))) lt = refl
shift_lem (suc (suc (suc (suc (suc (suc (suc (suc b)))))))) lt = absurd (omega (arith, lt))

-- The byte after one round of the loop.
abbrev round : (c : Bool) → (b v : ℕ) → ℕ
round c b v = if c then bit_or v (0x80 / 2 ^ b) else v

round_lem :
    (c : Bool) (b v j : ℕ)
    → b < 8
    → v < 256
    → j < 8
    → (round c b v < 256)
      × ((bit_at (round c b v) (7 - j) == 1) ≡ ((c && j == b) || bit_at v (7 - j) == 1))
round_lem false b v j lb lv lj = (lv, refl)
round_lem true b v j lb lv lj =
    let k = bit_at-set v (7 - b) (7 - j) lv (omega arith) (omega arith) in
    rw (shift_lem b lb) (k.1, ground (arith, k.0))

-- One round adds its pixel to those that the others cover.
merge_lem :
    (b r j : ℕ) (h c z z' : Bool)
    → (j ≡ b → c ≡ h)
    → z' ≡ ((c && j == b) || z)
    → ((leb (b + 1) j && ltb j (b + 1 + r) && h) || z') ≡ ((leb b j && ltb j (b + suc r) && h) || z)
merge_lem b r j h c z z' same e = elim (Bool-cases (j == b)) [
  | inl at ↦ let q = same (ground (arith, at)) in ground (arith, at, q, e)
  | inr off ↦ ground (arith, off, e)
]

-- A pixel of a rebuilt byte.
rebuild_lem :
    (r b base_x y p : ℕ) (sh : ℕ → ℕ) (v j : ℕ)
    → b + r ≤ 8
    → base_x + 8 ≤ 640
    → v < 256
    → j < 8
    → (bit_at (rebuild r b base_x y p sh v) (7 - j) == 1) ≡ (
        (leb b j && ltb j (b + r) && has_bit (sh (y * shadow_w + (base_x + j))) p)
        || bit_at v (7 - j) == 1)
unfolding rebuild
rebuild_lem zero b base_x y p sh v j le on lt lj = ground arith
rebuild_lem (suc r) b base_x y p sh v j le on lt lj =
    let c = has_bit (sh (y * shadow_w + (base_x + b))) p in
    let in_row : leb shadow_w (base_x + b) ≡ false = ground (arith, le, on) in
    let k = round_lem c b v j (omega (arith, le)) lt lj in
    let ih = rebuild_lem r (b + 1) base_x y p sh (round c b v) j (omega (arith, le)) on k.0 lj in
    rw in_row (
      ih
      ∙ merge_lem b r j (has_bit (sh (y * shadow_w + (base_x + j))) p) c (bit_at v (7 - j) == 1)
          (bit_at (round c b v) (7 - j) == 1)
          (λ e. ap (λ n. has_bit (sh (y * shadow_w + (base_x + n))) p) (sym e)) k.1)

rebuilt_lem :
    (x y p : ℕ) (sh : ℕ → ℕ) (j : ℕ)
    → x < 640
    → j < 8
    → (bit_at (rebuild 8 0 (x / 8 * 8) y p sh 0) (7 - j) == 1)
      ≡ has_bit (sh (y * shadow_w + (x / 8 * 8 + j))) p
rebuilt_lem x y p sh j lx lj =
    let r =
      rebuild_lem 8 0 (x / 8 * 8) y p sh 0 j (omega arith) (omega (arith, lx)) (omega arith) lj in
    let z = bit_at_empty (7 - j) (omega arith) in r ∙ ground (arith, lj, z)

-- What the loop over the planes writes.
plot_planes_lem :
    (p x y off : ℕ) (s : Vga) (i : ℕ)
    → p < 4
    → (plot_planes 4 0 x y off s).planes p i
      ≡ (if i == off then rebuild 8 0 (x / 8 * 8) y p s.shadow 0 else s.planes p i)
unfolding plot_planes write_byte write_mask
plot_planes_lem zero x y off s i lt = ground arith
plot_planes_lem (suc zero) x y off s i lt = ground arith
plot_planes_lem (suc (suc zero)) x y off s i lt = ground arith
plot_planes_lem (suc (suc (suc zero))) x y off s i lt = ground arith
plot_planes_lem (suc (suc (suc (suc p)))) x y off s i lt = absurd (omega (arith, lt))

-- The state after a pixel has been drawn at `(a, b)`: the byte of the screen that holds it shows the
-- picture, every other one what it showed.
pub record Plotted (a b color : ℕ) (s w : Vga) : Type 0 where
  pub mode : IsMode w
  pub shadow : w.shadow ≡ update s.shadow (b * 640 + a) color
  pub shown :
      (p x y : ℕ)
      → p < 4
      → x < 640
      → y < 480
      → lit w p x y ≡ (
          if y == b && x / 8 == a / 8
          then has_bit (update s.shadow (b * 640 + a) color (y * 640 + x)) p
          else lit s p x y)

plot-shown :
    (a b color : ℕ) (s : Vga)
    → s.screen_width ≡ 640
    → a < 640
    → (p x y : ℕ) → p < 4
    → x < 640
    → lit (plot a b color s) p x y ≡ (
        if y == b && x / 8 == a / 8
        then has_bit (update s.shadow (b * 640 + a) color (y * 640 + x)) p
        else lit s p x y)
unfolding plot write_mask
plot-shown a b color s width la p x y lp lx =
    let sh = update s.shadow (b * 640 + a) color in
    let painted = record s { shadow = sh } in
    let i = y * 80 + x / 8 in
    let off = b * (s.screen_width / 8) + a / 8 in
    let off_lem : off ≡ b * 80 + a / 8 = rw width refl in
    let byte = rebuild 8 0 (a / 8 * 8) b p sh 0 in
    let written = plot_planes_lem p a b off painted i lp in
    elim (Bool-cases (y == b && x / 8 == a / 8)) [
      | inl here ↦
          let at : (i == off) ≡ true = ground (arith, here, off_lem) in
          let index : b * shadow_w + (a / 8 * 8 + x % 8) ≡ y * 640 + x = ground (arith, here) in
          rw here (
            ap (λ v. bit_at v (7 - x % 8) == 1)
              (written ∙ ap (λ t. if t then byte else s.planes p i) at)
            ∙ rebuilt_lem a b p sh (x % 8) la (omega arith)
            ∙ ap (λ n. has_bit (sh n) p) index)
      | inr there ↦
          let away : (i == off) ≡ false = ground (arith, there, off_lem, la, lx) in
          rw there (
            ap (λ v. bit_at v (7 - x % 8) == 1)
              (written ∙ ap (λ t. if t then byte else s.planes p i) away))
    ]

pub put_pixel-Plotted :
    (a b color : ℕ) (s : Vga)
    → IsMode s
    → a < 640
    → b < 480
    → Plotted a b color s (put_pixel (pos a) (pos b) color s)
unfolding put_pixel plot write_mask plot_planes write_byte
put_pixel-Plotted a b color s mode la lb =
    let guard : (s.ready && (ltb a s.screen_width && ltb b s.screen_height)) ≡ true =
      ground (arith, mode, la, lb) in
    rw guard record {
      mode = mode;
      shadow = refl;
      shown = λ p x y lp lx ly. plot-shown a b color s mode.1 la p x y lp lx;
    }
